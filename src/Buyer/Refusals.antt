-- ===== src/Buyer/Refusals.antt =====
-- The failure rows of internal/buyer/purchase.go.
use agent_mart.Prelude.{◌≡◌, refl, Bool, true, false, not, ◌∷◌, arith}
use agent_mart.Prelude.Int.{ℤ}
use agent_mart.Prelude.Text.{Text}
use agent_mart.Prelude.Result.{Result, ok, err}
use agent_mart.Prelude.Ensures.{Outcome, Outcome-if}
use agent_mart.Buyer.World.{World, Trail, ApprovalResolution, record_failure}
use agent_mart.Buyer.Approval.{resolve}
use agent_mart.Buyer.Purchase.{
  Service, PurchaseRequest, PurchaseResult, refuse_with, recorded, attempt, purchase,
  attempt_approval, request_approval, resumed, resume, resolve_purchase,
}

-- The latest call is the row of a failure of this person.
abbrev pub HasRow : ℤ → Trail → Type 0
HasRow telegram_id t =
    (product_id : Text) × (quantity : ℤ) × (cause : Text) × (before : Trail) × (t
      ≡ record_failure telegram_id product_id quantity cause ∷ before)

-- An error has left its row.
abbrev pub Leaves : ℤ → Result PurchaseResult × Trail → Type 0
Leaves telegram_id x = Outcome (λ _ _. Unit {0}) (λ _. HasRow telegram_id) x.0 x.1

refuse_with-Leaves :
    (recording : Bool) (w : World) (telegram_id : ℤ) (product_id : Text) (quantity : ℤ)
    (cause : Text) (t : Trail)
    → recording ≡ true
    → Leaves telegram_id (refuse_with recording w telegram_id product_id quantity cause t)
refuse_with-Leaves true w telegram_id product_id quantity cause t h =
    (product_id, quantity, cause, t, refl)
refuse_with-Leaves false w telegram_id product_id quantity cause t h = absurd (ground arith)

recorded-Leaves :
    (s : Service) (w : World) (r : PurchaseRequest) (x : Result PurchaseResult) (t : Trail)
    → s.has_failures ≡ true
    → Leaves r.telegram_id (recorded s w r (x, t))
recorded-Leaves s w r (ok x) t h = tt
recorded-Leaves s w r (err e) t h = refuse_with-Leaves s.has_failures w _ _ _ e t h

purchase-Leaves :
    (s : Service) (w : World) (r : PurchaseRequest) (t : Trail)
    → s.has_failures ≡ true
    → Leaves r.telegram_id (purchase s w r t)
unfolding purchase
purchase-Leaves s w r t h = recorded-Leaves s w r (attempt s w r t).0 (attempt s w r t).1 h

request_approval-Leaves :
    (s : Service) (w : World) (r : PurchaseRequest) (reason : Text) (t : Trail)
    → s.has_failures ≡ true
    → Leaves r.telegram_id (request_approval s w r reason t)
unfolding request_approval
request_approval-Leaves s w r reason t h =
    recorded-Leaves s w r (attempt_approval s w r reason t).0 (attempt_approval s w r reason t).1 h

resume-Leaves :
    (s : Service) (w : World) (telegram_id : ℤ) (a : Result ApprovalResolution) (t : Trail)
    → s.has_failures ≡ true
    → Leaves telegram_id (resume s w telegram_id (a, t))
resume-Leaves s w telegram_id (err e) t h = refuse_with-Leaves s.has_failures w _ _ _ e t h
resume-Leaves s w telegram_id (ok a) t h =
    Outcome-if (λ _ _. Unit {0}) (λ _. HasRow telegram_id) (not a.resolved) _ _ (λ _. tt)
      (λ _.
        Outcome-if (λ _ _. Unit {0}) (λ _. HasRow telegram_id) (not a.approved) _ _ (λ _. tt)
          (λ _. purchase-Leaves s w (resumed telegram_id a) t h))

resolve_purchase-Leaves :
    (s : Service) (w : World) (telegram_id : ℤ) (token decision : Text) (t : Trail)
    → s.has_failures ≡ true
    → Leaves telegram_id (resolve_purchase s w telegram_id token decision t)
unfolding resolve_purchase
resolve_purchase-Leaves s w telegram_id token decision t h =
    Outcome-if (λ _ _. Unit {0}) (λ _. HasRow telegram_id) s.has_resolver _ _
      (λ _.
        resume-Leaves s w telegram_id (resolve w telegram_id token decision t).0
          (resolve w telegram_id token decision t).1 h)
      (λ _. refuse_with-Leaves s.has_failures w _ _ _ _ t h)

-- With a failure recorder, whatever error a purchase, a request for approval or a resolution
-- returns, its last call was the row of a failure of that person.
pub refusals-Leaves :
    (s : Service) (w : World) (r : PurchaseRequest) (reason token decision : Text) (t : Trail)
    → s.has_failures ≡ true
    → Leaves r.telegram_id (purchase s w r t)
      × Leaves r.telegram_id (request_approval s w r reason t)
      × Leaves r.telegram_id (resolve_purchase s w r.telegram_id token decision t)
refusals-Leaves s w r reason token decision t h = (
  purchase-Leaves s w r t h,
  request_approval-Leaves s w r reason t h,
  resolve_purchase-Leaves s w r.telegram_id token decision t h,
)
