-- ===== src/Gate/Tests.antt =====
-- Runs of the gate, and its theorems at concrete requests.
use agent_mart.Prelude.{◌≡◌, ◌↔◌, ◌≢◌, ◌⊎◌, refl, true, false, arith, List, [], ◌∷◌, ◌++◌}
use agent_mart.Prelude.Int.{pos}
use agent_mart.Prelude.Int64.{◌*64◌, ◌/64◌}
use agent_mart.Prelude.Text.{Text, bytes}
use agent_mart.Prelude.Result.{ok, err}
use agent_mart.Gate.Defs.{
  Request, Decision, Gate, Auditor, approved, stale_price, human_approval_required, amount_mismatch,
  time_sub, rejection_reason, evaluate,
}
use agent_mart.Gate.Policy.{
  IsAuthorised, rejection_reason-IsAuthorised, with_approval, with_approval_effect,
}
use agent_mart.Gate.Audit.{evaluate_audits}

-- Two units at 900 rupees, seen one second ago.
abbrev request : Request
request = record {
  account_id = bytes "acct";
  product_id = bytes "trimmer";
  quantity = pos 2;
  unit_price_paise = pos 90000;
  base_amount_paise = pos 180000;
  final_amount_paise = pos 185000;
  wallet_balance_paise = pos 500000;
  spend_limit_paise = pos 200000;
  human_approved = false;
  stock = pos 4;
  price_observed_at = pos 7000000000;
  now = pos 8000000000;
}

request_approved : rejection_reason request (pos 300000000000) ≡ approved
unfolding rejection_reason time_sub ◌*64◌ ◌/64◌
request_approved = refl

short_base :
    rejection_reason (record request { base_amount_paise = pos 90000 }) (pos 300000000000)
    ≡ amount_mismatch
unfolding rejection_reason time_sub ◌*64◌ ◌/64◌
short_base = refl

old_quote :
    rejection_reason (record request { price_observed_at = pos 1 }) (pos 1000000000) ≡ stale_price
unfolding rejection_reason time_sub ◌*64◌ ◌/64◌
old_quote = refl

rejection_reason-IsAuthorised_example :
    (rejection_reason request (pos 300000000000) ≡ approved)
    ↔ IsAuthorised request (pos 300000000000)
rejection_reason-IsAuthorised_example =
    rejection_reason-IsAuthorised request (pos 300000000000) (omega arith)

abbrev over_limit : Request
over_limit = record request { spend_limit_paise = pos 100000 }

with_approval_effect_example :
    ((rejection_reason (with_approval over_limit) (pos 9) ≡ rejection_reason over_limit (pos 9))
      ⊎ (rejection_reason over_limit (pos 9) ≡ human_approval_required)
      ⊎ (rejection_reason over_limit (pos 9) ≡ stale_price))
    × (rejection_reason (with_approval over_limit) (pos 9) ≢ human_approval_required)
    × (rejection_reason (with_approval over_limit) (pos 9) ≢ stale_price)
with_approval_effect_example = with_approval_effect over_limit (pos 9)

-- An auditor that keeps what it is given.
abbrev keeper : Auditor (List Decision)
keeper d trail = (ok tt, d ∷ trail)

abbrev gate : Gate (Auditor (List Decision))
gate = record { auditor = keeper; max_price_age = pos 300000000000 }

evaluate_audits_example :
    (d : Decision) × ((evaluate gate request []).1 ≡ d ∷ [])
    × (d.request ≡ request)
    × (d.reason ≡ rejection_reason request (pos 300000000000))
    × ((d.is_authorised ≡ true) ↔ (d.reason ≡ approved))
    × (((evaluate gate request []).0 ≡ ok d) ↔ (◌≡◌ {A = _} (keeper d []).0 (ok tt)))
    × ((e : Text)
        → (keeper d []).0 ≡ err e
        → (evaluate gate request []).0 ≡ err (bytes "audit gate decision: " ++ e))
evaluate_audits_example = evaluate_audits gate request []
