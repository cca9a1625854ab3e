-- ===== src/Buyer/Trail.antt =====
-- What a trail of calls shows about the money that left an allowance.
use agent_mart.Prelude.{◌≡◌, ◌⊎◌, inr, true, Option, none, some, List, [], ◌∷◌, ap, arith}
use mathlib.Core.Path.{subst}
use agent_mart.Prelude.Text.{Text}
use agent_mart.Prelude.Result.{Result, ok}
use agent_mart.Prelude.Ensures.{Ensures, Outcome-of}
use agent_mart.Gate.Defs.{Duration, Decision, approved, rejection_reason}
use agent_mart.Wallet.{FulfillRequest}
use agent_mart.Buyer.World.{Call, Trail, audit, fulfill_order, call}

abbrev pub order_of : Call → Option FulfillRequest
order_of (fulfill_order f) = some f
order_of _ = none

abbrev prepend : {A : Type 0} → Option A → List A → List A
prepend none xs = xs
prepend (some x) xs = x ∷ xs

-- The orders that were asked of the database, the latest first.
unfoldable pub payments : Trail → List FulfillRequest
payments [] = []
payments (c ∷ t) = prepend (order_of c) (payments t)

-- The store took this decision at some time.
abbrev pub Audited : Decision → Trail → Type 0
Audited d [] = ⊥
Audited d (c ∷ t) = (c ≡ audit d true) ⊎ Audited d t

-- The order spends what the decision allows.
pub record Matches (f : FulfillRequest) (d : Decision) : Type 0 where
  pub same_account : f.account_id ≡ d.request.account_id
  pub same_product : f.product_id ≡ d.request.product_id
  pub same_quantity : f.quantity ≡ d.request.quantity
  pub same_base : f.base_amount_paise ≡ d.request.base_amount_paise
  pub same_final : f.final_amount_paise ≡ d.request.final_amount_paise

-- The store took a decision on this order that the policy approves under the age bound.
abbrev pub Allowed : Duration → FulfillRequest → Trail → Type 0
Allowed age f t =
    (d : Decision) × Audited d t × (rejection_reason d.request age ≡ approved) × Matches f d

-- Every order on the trail was allowed before it was asked for.
abbrev pub Guarded : Duration → Trail → Type 0
Guarded age [] = Unit {0}
Guarded age (c ∷ t) = ((f : FulfillRequest) → order_of c ≡ some f → Allowed age f t) × Guarded age t

module _ (age : Duration) (fs : List FulfillRequest) where
  -- No order beyond those of `fs` was asked for.
  abbrev pub Ready : Trail → Type 0
  Ready t = Guarded age t × (payments t ≡ fs)

  -- The same, with a decision on record that the policy approves.
  abbrev pub Armed : Decision → Trail → Type 0
  Armed d t = Ready t × Audited d t × (rejection_reason d.request age ≡ approved)

  -- One order beyond those of `fs`, of this kind.
  abbrev pub Paid : (FulfillRequest → Type 0) → Trail → Type 0
  Paid P t = Guarded age t × (f : FulfillRequest) × (payments t ≡ f ∷ fs) × P f

  abbrev pub Keyed : Text → FulfillRequest → Type 0
  Keyed key f = f.idempotency_key ≡ key

  abbrev pub PaidAtMost : Text → Trail → Type 0
  PaidAtMost key t = Ready t ⊎ Paid (Keyed key) t

  pub Ready-cons : (c : Call) (t : Trail) → order_of c ≡ none → Ready t → Ready (c ∷ t)
  unfolding payments
  Ready-cons c t h r = ((λ f k. absurd (ground arith), r.0), rw h r.1)

  pub Paid-cons :
      {P : FulfillRequest → Type 0} (c : Call) (t : Trail)
      → order_of c ≡ none
      → Paid P t
      → Paid P (c ∷ t)
  unfolding payments
  Paid-cons c t h (g, f, k, e) = ((λ f' k'. absurd (ground arith), g), f, rw h k, e)

  pub Armed-cons :
      (d : Decision) (c : Call) (t : Trail) → order_of c ≡ none → Armed d t → Armed d (c ∷ t)
  Armed-cons d c t h (r, a, p) = (Ready-cons c t h r, inr a, p)

  -- The order of an armed decision is one payment.
  pub Armed-order :
      (d : Decision) (f : FulfillRequest) (t : Trail)
      → Matches f d
      → Armed d t
      → Guarded age (fulfill_order f ∷ t) × (payments (fulfill_order f ∷ t) ≡ f ∷ fs)
  unfolding payments
  Armed-order d f t m (r, a, p) =
      ((λ f' k. (d, a, p, subst (λ g. Matches g d) (ground arith) m), r.0), ap (λ xs. f ∷ xs) r.1)

pub Ensures-call :
    {A : Type 0} {P : Trail → Type 0} {Q : A → Trail → Type 0} {E : Text → Trail → Type 0}
    (c : Call) (answer : Trail → Result A)
    → ((a : A) (t : Trail) → P t → Q a (c ∷ t))
    → ((e : Text) (t : Trail) → P t → E e (c ∷ t))
    → Ensures P (call c answer) Q E
unfolding call
Ensures-call {Q = Q} {E = E} c answer hq he = record {
  at = λ t p. Outcome-of Q E (answer t) (c ∷ t) (λ a _. hq a t p) (λ e _. he e t p);
}

-- The same, for a proof that uses what the answer was.
pub Ensures-answer :
    {A : Type 0} {P : Trail → Type 0} {Q : A → Trail → Type 0} {E : Text → Trail → Type 0}
    (c : Call) (answer : Trail → Result A)
    → ((a : A) (t : Trail) → answer t ≡ ok a → P t → Q a (c ∷ t))
    → ((e : Text) (t : Trail) → P t → E e (c ∷ t))
    → Ensures P (call c answer) Q E
unfolding call
Ensures-answer {Q = Q} {E = E} c answer hq he = record {
  at = λ t p. Outcome-of Q E (answer t) (c ∷ t) (λ a k. hq a t k p) (λ e _. he e t p);
}
