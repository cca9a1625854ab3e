-- ===== src/Buyer/Spending.antt =====
-- `Purchase` and `RequestApproval` of internal/buyer/purchase.go, and the money that they spend.
use agent_mart.Prelude.{◌≡◌, inl, inr, refl, sym, none, Bool, true, false, List, ◌∷◌, arith, ◌&&◌}
use mathlib.Core.Path.{subst}
use agent_mart.Prelude.Int.{ℤ}
use agent_mart.Prelude.Text.{Text}
use agent_mart.Prelude.Result.{Result, ok, err, pure}
use agent_mart.Prelude.Ensures.{
  Outcome, Ensures, Ensures-bind, Ensures-if, Ensures-from, Ensures-to, Ensures-refuse_if,
  Ensures-lifted, Ensures-known, Ensures-pure,
}
use agent_mart.Gate.Defs.{
  Request, Reason, is_approved, audited, decide, Decision, code, evaluate, Duration, approved,
  rejection_reason,
}
use agent_mart.Catalog.{Product}
use agent_mart.Wallet.{FulfillRequest}
use agent_mart.Buyer.World.{Call, audit, succeeded, World, Account, Trail}
use agent_mart.Buyer.Trail.{
  Ready, Armed, PaidAtMost, Guarded, order_of, Ready-cons, Paid-cons, Ensures-answer, payments,
}
use agent_mart.Buyer.Purchase.{
  ask_person, amounts, gate_request, asks_person, outcome, the_gate, Service, PurchaseRequest,
  PurchaseResult, conclude, attempt, purchase, refuse_with, recorded, attempt_approval,
  request_approval,
}
use agent_mart.Buyer.Settling.{Reported, Unpaid, spend_ensures, ask_ensures}

is_approved-approved : (reason : Reason) → is_approved reason ≡ true → reason ≡ approved
is_approved-approved reason h = ground arith

-- An answer that was given, at some time.
abbrev Known : {A B : Type 0} → (Trail → A → Result B) → A → B → Type 0
Known ask a b = (t : Trail) × (ask t a ≡ ok b)

module _ (age : Duration) (fs : List FulfillRequest) where
  -- What a decision leaves behind: an authorised one is on record, and the policy's own.
  abbrev Decided : Decision → Trail → Type 0
  Decided d t = Ready age fs t × (d.is_authorised ≡ true → Armed age fs d t)

  conclude_ensures :
      (s : Service) (w : World) (r : PurchaseRequest) (account : Account) (product : Product)
      (d : Decision)
      → (t : Trail) × (w.account t r.telegram_id ≡ ok account)
      → (t : Trail) × (w.product t r.product_id ≡ ok product)
      → amounts r product ≡ ok (d.request.base_amount_paise, d.request.final_amount_paise)
      → Ensures
          (Decided d)
          (conclude s w r account product d)
          (Reported age fs w r)
          (λ _. PaidAtMost age fs r.idempotency_key)
  unfolding conclude
  conclude_ensures s w r account product d ha hp hm =
      Ensures-if _ _ _ (λ h. Ensures-from (λ t p. p.1 h) (spend_ensures age fs w r d))
        (λ _.
          Ensures-from (λ t p. p.0)
            (Ensures-if (asks_person d.reason && s.has_approvals)
              (ask_person w r account product d.request.base_amount_paise
                d.request.final_amount_paise (code d.reason))
              (pure (outcome (code d.reason) d.request.final_amount_paise))
              (λ _.
                Ensures-to (λ x t p. inr p) (λ e t p. inl p)
                  (ask_ensures age fs w r account product _ _ _ ha hp hm))
              (λ _. Ensures-pure _ (λ t p. inr (refl, p, λ h. absurd (ground arith))))))

  -- The decision is on this request.
  abbrev DecidedOn : Request → Decision → Trail → Type 0
  DecidedOn g d t = Decided d t × (d.request ≡ g)

  -- The gate's decision, once the store has answered.
  taken :
      (g : Request) (a : Duration) (key : Text)
      → a ≡ age
      → (t : Trail) → Ready age fs t
      → (answer : Result (Unit {0}))
      → Outcome
          (DecidedOn g)
          (λ _. PaidAtMost age fs key)
          (audited (decide g a) answer)
          (audit (decide g a) (succeeded answer) ∷ t)
  taken g a key h t p (ok u) =
      let ready = Ready-cons age fs (audit (decide g a) true) t refl p in
      (
        (ready, λ k. (ready, inl refl, rw (← h) (is_approved-approved (rejection_reason g a) k))),
        refl,
      )
  taken g a key h t p (err e) = inl (Ready-cons age fs (audit (decide g a) false) t refl p)

  evaluate_ensures :
      (s : Service) (w : World) (g : Request) (key : Text)
      → s.max_price_age ≡ age
      → Ensures
          (Ready age fs)
          (evaluate (the_gate s w) g)
          (DecidedOn g)
          (λ _. PaidAtMost age fs key)
  unfolding evaluate
  evaluate_ensures s w g key h = record {
    at = λ t p. taken g s.max_price_age key h t p (w.takes_decision t (decide g s.max_price_age));
  }

  attempt_ensures :
      (s : Service) (w : World) (r : PurchaseRequest)
      → s.max_price_age ≡ age
      → Ensures
          (Ready age fs)
          (attempt s w r)
          (Reported age fs w r)
          (λ _. PaidAtMost age fs r.idempotency_key)
  unfolding attempt
  attempt_ensures s w r h =
      Ensures-bind (λ _. Ready age fs) _ _ (Ensures-refuse_if _ _ (λ s p. inl p))
        (λ _.
          Ensures-bind (λ a t. Ready age fs t × Known w.account r.telegram_id a) _ _
            (Ensures-answer _ _ (λ a t k p. (Ready-cons age fs _ t refl p, (t, k)))
              (λ e t p. inl (Ready-cons age fs _ t refl p)))
            (λ account.
              Ensures-known (λ t p. p)
                (λ ha.
                  Ensures-bind (λ a t. Ready age fs t × Known w.product r.product_id a) _ _
                    (Ensures-answer _ _ (λ a t k p. (Ready-cons age fs _ t refl p, (t, k)))
                      (λ e t p. inl (Ready-cons age fs _ t refl p)))
                    (λ product.
                      Ensures-known (λ t p. p)
                        (λ hp.
                          Ensures-bind (λ m t. Ready age fs t × (amounts r product ≡ ok m)) _ _
                            (Ensures-lifted _ (λ e s p. inl p))
                            (λ priced.
                              Ensures-known (λ t p. p)
                                (λ hm.
                                  Ensures-bind (λ _. Ready age fs) _ _ (record { at = λ t p. p })
                                    (λ now.
                                      Ensures-bind
                                        (DecidedOn
                                          (gate_request r account product priced.0 priced.1 now))
                                        _ _ (evaluate_ensures s w _ _ h)
                                        (λ d.
                                          Ensures-known (λ t p. p)
                                            (λ hd. conclude_ensures s w r account product d ha hp (
                                              subst
                                                (λ g.
                                                  amounts r product
                                                  ≡ ok (g.base_amount_paise, g.final_amount_paise))
                                                (sym hd) hm)))))))))))

-- An error keeps under its failure row what a row of failure keeps.
pub Outcome-refuse_with :
    (Q : PurchaseResult → Trail → Type 0) (F : Trail → Type 0)
    → ((c : Call) (t : Trail) → order_of c ≡ none → F t → F (c ∷ t))
    → (recording : Bool) (w : World) (telegram_id : ℤ) (product_id : Text) (quantity : ℤ) (e : Text)
      (t : Trail)
    → F t
    → Outcome Q
        (λ _. F)
        (refuse_with recording w telegram_id product_id quantity e t).0
        (refuse_with recording w telegram_id product_id quantity e t).1
Outcome-refuse_with Q F hc true w telegram_id product_id quantity e t h = hc _ t refl h
Outcome-refuse_with Q F hc false w telegram_id product_id quantity e t h = h

Outcome-recorded :
    (Q : PurchaseResult → Trail → Type 0) (F : Trail → Type 0)
    → ((c : Call) (t : Trail) → order_of c ≡ none → F t → F (c ∷ t))
    → (s : Service) (w : World) (r : PurchaseRequest) (x : Result PurchaseResult) (t : Trail)
    → Outcome Q (λ _. F) x t
    → Outcome Q (λ _. F) (recorded s w r (x, t)).0 (recorded s w r (x, t)).1
Outcome-recorded Q F hc s w r (ok x) t h = h
Outcome-recorded Q F hc s w r (err e) t h =
    Outcome-refuse_with Q F hc s.has_failures w r.telegram_id r.product_id r.quantity e t h

pub PaidAtMost-cons :
    (age : Duration) (fs : List FulfillRequest) (key : Text) (c : Call) (t : Trail)
    → order_of c ≡ none
    → PaidAtMost age fs key t
    → PaidAtMost age fs key (c ∷ t)
PaidAtMost-cons age fs key c t h (inl r) = inl (Ready-cons age fs c t h r)
PaidAtMost-cons age fs key c t h (inr p) = inr (Paid-cons age fs c t h p)

pub purchase-Outcome :
    (s : Service) (w : World) (r : PurchaseRequest) (fs : List FulfillRequest) (t : Trail)
    → Ready s.max_price_age fs t
    → Outcome
        (Reported s.max_price_age fs w r)
        (λ _. PaidAtMost s.max_price_age fs r.idempotency_key)
        (purchase s w r t).0
        (purchase s w r t).1
unfolding purchase
purchase-Outcome s w r fs t p =
    let age = s.max_price_age in
    Outcome-recorded (Reported age fs w r) (PaidAtMost age fs r.idempotency_key)
      (PaidAtMost-cons age fs r.idempotency_key) s w r (attempt s w r t).0 (attempt s w r t).1
      ((attempt_ensures age fs s w r refl).at t p)

-- On a trail whose every order was allowed, a purchase keeps that so: each order it asks for
-- comes after an audited decision that the policy approves, and matches it. A fulfilled result
-- goes with exactly one order, under the request's key and for the amount reported; any other
-- result goes with none, and one that asks for approval has locked the terms: the last call stored
-- a request for this person, their account, the product, and the quantity, the amounts and the key
-- of the request. An error goes with at most one order, under that key.
pub purchase_pays :
    (s : Service) (w : World) (r : PurchaseRequest) (t : Trail)
    → Guarded s.max_price_age t
    → Outcome
        (Reported s.max_price_age (payments t) w r)
        (λ _. PaidAtMost s.max_price_age (payments t) r.idempotency_key)
        (purchase s w r t).0
        (purchase s w r t).1
purchase_pays s w r t g = purchase-Outcome s w r (payments t) t (g, refl)

module _ (age : Duration) (fs : List FulfillRequest) where
  attempt_approval_ensures :
      (s : Service) (w : World) (r : PurchaseRequest) (reason : Text)
      → Ensures
          (Ready age fs)
          (attempt_approval s w r reason)
          (Unpaid age fs w r)
          (λ _. Ready age fs)
  unfolding attempt_approval
  attempt_approval_ensures s w r reason =
      Ensures-bind (λ _. Ready age fs) _ _ (Ensures-refuse_if _ _ (λ s p. p))
        (λ _.
          Ensures-bind (λ _. Ready age fs) _ _ (Ensures-refuse_if _ _ (λ s p. p))
            (λ _.
              Ensures-bind (λ a t. Ready age fs t × Known w.account r.telegram_id a) _ _
                (Ensures-answer _ _ (λ a t k p. (Ready-cons age fs _ t refl p, (t, k)))
                  (λ e t p. Ready-cons age fs _ t refl p))
                (λ account.
                  Ensures-known (λ t p. p)
                    (λ ha.
                      Ensures-bind (λ a t. Ready age fs t × Known w.product r.product_id a) _ _
                        (Ensures-answer _ _ (λ a t k p. (Ready-cons age fs _ t refl p, (t, k)))
                          (λ e t p. Ready-cons age fs _ t refl p))
                        (λ product.
                          Ensures-known (λ t p. p)
                            (λ hp.
                              Ensures-bind (λ m t. Ready age fs t × (amounts r product ≡ ok m)) _ _
                                (Ensures-lifted _ (λ e s p. p))
                                (λ priced.
                                  Ensures-known (λ t p. p)
                                    (λ hm.
                                      ask_ensures age fs w r account product _ _ _ ha hp hm))))))))

-- Asking for a person's approval spends nothing, whether it succeeds or fails. With a result that
-- carries a request the last call stored the terms of the purchase: this person, the account that
-- the store gave for them, the product that the catalog gave, the amounts that they come to, and
-- the quantity, the bundled amount and the key of the request; the result has that amount and the
-- store's token.
pub request_approval_pays_nothing :
    (s : Service) (w : World) (r : PurchaseRequest) (reason : Text) (t : Trail)
    → Guarded s.max_price_age t
    → Outcome
        (Unpaid s.max_price_age (payments t) w r)
        (λ _. Ready s.max_price_age (payments t))
        (request_approval s w r reason t).0
        (request_approval s w r reason t).1
unfolding request_approval
request_approval_pays_nothing s w r reason t g =
    let age = s.max_price_age in
    let fs = payments t in
    Outcome-recorded (Unpaid age fs w r) (Ready age fs) (Ready-cons age fs) s w r
      (attempt_approval s w r reason t).0 (attempt_approval s w r reason t).1
      ((attempt_approval_ensures age fs s w r reason).at t (g, refl))
