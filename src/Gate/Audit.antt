-- ===== src/Gate/Audit.antt =====
-- `Evaluate` of internal/gate/gate.go and its auditor.
use agent_mart.Prelude.{◌≡◌, ◌↔◌, refl, true, arith, ◌++◌}
use agent_mart.Prelude.Text.{Text, bytes}
use agent_mart.Prelude.Result.{ok, err}
use agent_mart.Gate.Defs.{
  Request, approved, Decision, Gate, Auditor, rejection_reason, decide, evaluate,
}

-- Every evaluation hands the auditor one decision, which names the reason of the policy and is
-- authorised exactly when that is `approved`; the state it leaves is the auditor's. The caller
-- gets this decision if the auditor took it, and else an error and no decision.
pub evaluate_audits :
    {S : Type 0} (g : Gate (Auditor S)) (r : Request) (s : S)
    → (d : Decision) × ((evaluate g r s).1 ≡ (g.auditor d s).1)
      × (d.request ≡ r)
      × (d.reason ≡ rejection_reason r g.max_price_age)
      × ((d.is_authorised ≡ true) ↔ (d.reason ≡ approved))
      × (((evaluate g r s).0 ≡ ok d) ↔ ((g.auditor d s).0 ≡ ok tt))
      × ((e : Text)
          → (g.auditor d s).0 ≡ err e
          → (evaluate g r s).0 ≡ err (bytes "audit gate decision: " ++ e))
unfolding evaluate
evaluate_audits g r s =
    (decide r g.max_price_age, refl, refl, refl, ground arith, ground arith, λ e h. ground arith)
