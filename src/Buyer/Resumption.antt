-- ===== src/Buyer/Resumption.antt =====
-- A purchase that a person's approval resumes (`ResolveApproval` of internal/buyer/purchase.go).
use agent_mart.Prelude.{◌≡◌, ◌⊎◌, inl, inr, refl, none, true, false, [], ◌∷◌, arith, not}
use agent_mart.Prelude.Int.{ℤ, pos}
use agent_mart.Prelude.Text.{Text}
use agent_mart.Prelude.Result.{Result, ok, err}
use agent_mart.Prelude.Ensures.{Outcome, Ensures, Ensures-bind, Ensures-refuse_if}
use agent_mart.Gate.Defs.{Duration}
use agent_mart.Buyer.World.{Call, World, Trail}
use agent_mart.Buyer.Trail.{
  Ready, Paid, Keyed, PaidAtMost, Guarded, order_of, Ready-cons, Paid-cons, payments,
}
use agent_mart.Buyer.Purchase.{Service, PurchaseResult, purchase}
use agent_mart.Buyer.Settling.{Reported}
use agent_mart.Buyer.World.{ApprovalResolution}
use agent_mart.Buyer.Approval.{resolve}
use agent_mart.Prelude.Ensures.{Outcome-if, Outcome-to}
use agent_mart.Buyer.Trail.{Ensures-answer}
use agent_mart.Buyer.Purchase.{resume, resumed, resolve_purchase}
use agent_mart.Buyer.Spending.{Outcome-refuse_with, purchase-Outcome}

-- The database resolved this token with an approval of that purchase.
abbrev pub Granted : World → Trail → ℤ → Text → Text → ApprovalResolution → Type 0
Granted w start telegram_id token decision a =
    (w.resolution start telegram_id token decision ≡ ok a)
    × (a.resolved ≡ true)
    × (a.approved ≡ true)

-- Nothing was paid, or an approval was granted and one order under its key was asked for.
abbrev pub PaidIfGranted : Duration → World → Trail → ℤ → Text → Text → Trail → Type 0
PaidIfGranted age w start telegram_id token decision t =
    Ready age (payments start) t
    ⊎ (a : ApprovalResolution) × Granted w start telegram_id token decision a
      × Paid age (payments start) (Keyed age (payments start) a.idempotency_key) t

abbrev pub ResumedAs : Duration → World → Trail → ℤ → Text → Text → PurchaseResult → Trail → Type 0
ResumedAs age w start telegram_id token decision x t =
    (x.fulfilled ≡ true)
      × ((a : ApprovalResolution) × Granted w start telegram_id token decision a
          × Paid age (payments start)
              (λ f.
                (f.idempotency_key ≡ a.idempotency_key) × (f.final_amount_paise ≡ x.amount_paise))
              t)
    ⊎ (x.fulfilled ≡ false) × Ready age (payments start) t

module _ (s : Service) (w : World) (telegram_id : ℤ) (token decision : Text) (start : Trail) where
  resolve_ensures :
      Ensures
        (λ t. Ready s.max_price_age (payments start) t × (t ≡ start))
        (resolve w telegram_id token decision)
        (λ a t.
          Ready s.max_price_age (payments start) t
          × (w.resolution start telegram_id token decision ≡ ok a))
        (λ _. Ready s.max_price_age (payments start))
  unfolding resolve
  resolve_ensures =
      Ensures-bind (λ _ t. Ready s.max_price_age (payments start) t × (t ≡ start)) _ _
        (Ensures-refuse_if _ _ (λ s p. p.0))
        (λ _.
          Ensures-answer _ _
            (λ a t k p. (Ready-cons s.max_price_age (payments start) _ t refl p.0, rw (← p.1) k))
            (λ e t p. Ready-cons s.max_price_age (payments start) _ t refl p.0))

  PaidIfGranted-cons :
      (c : Call) (t : Trail)
      → order_of c ≡ none
      → PaidIfGranted s.max_price_age w start telegram_id token decision t
      → PaidIfGranted s.max_price_age w start telegram_id token decision (c ∷ t)
  PaidIfGranted-cons c t h (inl r) = inl (Ready-cons s.max_price_age (payments start) c t h r)
  PaidIfGranted-cons c t h (inr (a, g, p)) =
      inr (a, g, Paid-cons s.max_price_age (payments start) c t h p)

  resumed-Outcome :
      (a : ApprovalResolution) (t : Trail)
      → Granted w start telegram_id token decision a
      → Ready s.max_price_age (payments start) t
      → Outcome
          (ResumedAs s.max_price_age w start telegram_id token decision)
          (λ _. PaidIfGranted s.max_price_age w start telegram_id token decision)
          (purchase s w (resumed telegram_id a) t).0
          (purchase s w (resumed telegram_id a) t).1
  resumed-Outcome a t g p =
      Outcome-to (Reported s.max_price_age (payments start) w (resumed telegram_id a))
        (λ _. PaidAtMost s.max_price_age (payments start) a.idempotency_key)
        (ResumedAs s.max_price_age w start telegram_id token decision)
        (λ _. PaidIfGranted s.max_price_age w start telegram_id token decision)
        (λ x t. elim [
          | inl (f, n, (k, o, e, i)) ↦ inl (f, (a, g, (k, o, e, (i.0, i.1))))
          | inr (f, q, l) ↦ inr (f, q)
        ])
        (λ e t. elim [ inl q ↦ inl q | inr q ↦ inr (a, g, q) ]) _ _
        (purchase-Outcome s w (resumed telegram_id a) (payments start) t p)

  resume-Outcome :
      (r : Result ApprovalResolution) (t : Trail)
      → Outcome
          (λ a t.
            Ready s.max_price_age (payments start) t
            × (w.resolution start telegram_id token decision ≡ ok a))
          (λ _. Ready s.max_price_age (payments start))
          r
          t
      → Outcome
          (ResumedAs s.max_price_age w start telegram_id token decision)
          (λ _. PaidIfGranted s.max_price_age w start telegram_id token decision)
          (resume s w telegram_id (r, t)).0
          (resume s w telegram_id (r, t)).1
  resume-Outcome (err e) t h =
      Outcome-refuse_with (ResumedAs s.max_price_age w start telegram_id token decision)
        (PaidIfGranted s.max_price_age w start telegram_id token decision) PaidIfGranted-cons
        s.has_failures w telegram_id [] (pos 0) e t (inl h)
  resume-Outcome (ok a) t h =
      Outcome-if (ResumedAs s.max_price_age w start telegram_id token decision)
        (λ _. PaidIfGranted s.max_price_age w start telegram_id token decision) (not a.resolved) _ _
        (λ _. inr (refl, h.0))
        (λ resolved.
          Outcome-if (ResumedAs s.max_price_age w start telegram_id token decision)
            (λ _. PaidIfGranted s.max_price_age w start telegram_id token decision) (not a.approved)
            _ _ (λ _. inr (refl, h.0))
            (λ approved. resumed-Outcome a t (h.1, ground arith, ground arith) h.0))

-- On a trail whose every order was allowed, resolving an approval keeps that so. It pays only
-- if the database answered the token with a resolved approval, then at most once and under the
-- key of that approval; a fulfilled result goes with exactly that payment, for the amount it
-- reports.
pub resolve_purchase_pays :
    (s : Service) (w : World) (telegram_id : ℤ) (token decision : Text) (t : Trail)
    → Guarded s.max_price_age t
    → Outcome
        (ResumedAs s.max_price_age w t telegram_id token decision)
        (λ _. PaidIfGranted s.max_price_age w t telegram_id token decision)
        (resolve_purchase s w telegram_id token decision t).0
        (resolve_purchase s w telegram_id token decision t).1
unfolding resolve_purchase
resolve_purchase_pays s w telegram_id token decision t g =
    Outcome-if (ResumedAs s.max_price_age w t telegram_id token decision)
      (λ _. PaidIfGranted s.max_price_age w t telegram_id token decision) s.has_resolver _ _
      (λ _.
        resume-Outcome s w telegram_id token decision t _ _
          ((resolve_ensures s w telegram_id token decision t).at t ((g, refl), refl)))
      (λ _.
        Outcome-refuse_with (ResumedAs s.max_price_age w t telegram_id token decision)
          (PaidIfGranted s.max_price_age w t telegram_id token decision)
          (PaidIfGranted-cons s w telegram_id token decision t) s.has_failures w telegram_id []
          (pos 0) _ t (inl (g, refl)))
