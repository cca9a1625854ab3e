-- ===== src/Buyer/Owing.antt =====
-- internal/buyer/refund.go: the reversal that a refund owes, and what it leaves at the gateway.
use agent_mart.Prelude.{
  ◌≡◌, ◌⊎◌, inl, inr, refl, sym, ap, Bool, true, false, not, Option, none, some, List, [], ◌∷◌,
  arith,
}
use agent_mart.Prelude.Text.{Text, trim_space}
use agent_mart.Prelude.Result.{Result, ok, err}
use agent_mart.Prelude.Ensures.{Outcome, Ensures, Ensures-bind, Ensures-pure, Ensures-if}
use agent_mart.Wallet.{FulfillRequest, RefundResult}
use agent_mart.Buyer.World.{Account, Call, ReversalAttempt, ReverseResult, World, Trail, call}
use agent_mart.Buyer.Trail.{payments, order_of, Ensures-answer}
use agent_mart.Buyer.Refund.{
  RefundRequest, RefundOutcome, RefundService, ReverseRequest, Refunded, refund_key, credit, fresh,
  owed_reversal, reverse, outcome_of, after_row, write, record_ids, after_reverse, leg, finish,
  after_credit, refused_refund, refund, resumed_reversal,
}
use agent_mart.Prelude.{if◌then◌else◌}
use agent_mart.Buyer.Reversal.{
  Object, object_of, objects, message_key, reversal_object, Answered, Untouched, Reversed, AtMost,
  Untouched-cons, Reversed-cons, reverse_ensures, credit_ensures,
}

-- The reversal that a refund owes: that of a fresh credit, under its key, or else what the
-- database holds of an interrupted one.
abbrev pub Owed : World → RefundRequest → Account → RefundResult → ReverseRequest → Type 0
Owed w r account x q =
    (fresh x ≡ true) × (q.amount_paise ≡ x.amount_paise) × (q.idempotency_key ≡ message_key r)
    ⊎ (before : Trail) × (a : ReversalAttempt) × (w.outstanding before account.id
          (trim_space r.order_id)
        ≡ ok (some a))
      × (fresh x ≡ false)
      × (q.amount_paise ≡ a.amount_paise)
      × (q.idempotency_key ≡ a.idempotency_key)

some-injective : {A : Type 0} (a b : A) → some a ≡ some b → a ≡ b
some-injective a b h = cc

resumed_reversal-Owed :
    (w : World) (r : RefundRequest) (account : Account) (x : RefundResult)
    (found : Option ReversalAttempt) (before : Trail) (q : ReverseRequest)
    → fresh x ≡ false
    → w.outstanding before account.id (trim_space r.order_id) ≡ ok found
    → resumed_reversal account found ≡ some q
    → Owed w r account x q
resumed_reversal-Owed w r account x none before q h k e = absurd (ground arith)
resumed_reversal-Owed w r account x (some a) before q h k e =
    let same = some-injective _ q e in
    inr
      (before, a, k, h, sym (ap (λ q. q.amount_paise) same), sym (ap (λ q. q.idempotency_key) same))

module _ (ps : List FulfillRequest) (os : List Object) (s : RefundService) (w : World)
    (r : RefundRequest) (account : Account) (x : RefundResult) where
  abbrev Owes : Option ReverseRequest → Trail → Type 0
  Owes o t = Untouched ps os t × ((q : ReverseRequest) → o ≡ some q → Owed w r account x q)

  owed_reversal_ensures :
      Ensures (Untouched ps os) (owed_reversal s w account r x) Owes (λ _. Untouched ps os)
  unfolding owed_reversal refund_key
  owed_reversal_ensures =
      Ensures-if (fresh x) _ _
        (λ h. Ensures-pure _ (λ t p. (
          p,
          λ q e.
              let same = some-injective _ q e in
              inl (h, sym (ap (λ q. q.amount_paise) same), sym (ap (λ q. q.idempotency_key) same)),
        )))
        (λ h.
          Ensures-if (not s.has_recorder) _ _
            (λ _. Ensures-pure none (λ t p. (p, λ q e. absurd (ground arith))))
            (λ _.
              Ensures-bind
                (λ found t.
                  Untouched ps os t
                  × ((before : Trail) × (w.outstanding before account.id (trim_space r.order_id)
                        ≡ ok found)))
                _ _
                (Ensures-answer _ _ (λ a t k p. (Untouched-cons ps os _ t refl refl p, (t, k)))
                  (λ e t p. Untouched-cons ps os _ t refl refl p))
                (λ found. Ensures-pure _ (λ t p.
                  (p.0, λ q e. resumed_reversal-Owed w r account x found p.1.0 q h p.1.1 e)))))

  -- Nothing, or one owed reversal.
  abbrev pub ReversesOwed : Trail → Type 0
  ReversesOwed t =
      Untouched ps os t
      ⊎ (q : ReverseRequest) × Owed w r account x q × Reversed ps os (reversal_object q) t

  ReversesOwed-cons :
      (c : Call) (t : Trail)
      → order_of c ≡ none
      → object_of c ≡ none
      → ReversesOwed t
      → ReversesOwed (c ∷ t)
  ReversesOwed-cons c t h k (inl u) = inl (Untouched-cons ps os c t h k u)
  ReversesOwed-cons c t h k (inr (q, o, u)) =
      inr (q, o, Reversed-cons ps os (reversal_object q) c t h k u)

  after_row-ReversesOwed :
      (o : RefundOutcome) (next : Trail → Refunded × Trail) (row : Result (Unit {0})) (t : Trail)
      → ReversesOwed t
      → ((t : Trail) → ReversesOwed t → ReversesOwed (next t).1)
      → ReversesOwed (after_row o next (row, t)).1
  after_row-ReversesOwed o next (ok u) t h k = k t h
  after_row-ReversesOwed o next (err e) t h k = h

  write-ReversesOwed :
      (b : Bool) (o : RefundOutcome) (c : Call) (answer : Trail → Result (Unit {0}))
      (next : Trail → Refunded × Trail) (t : Trail)
      → order_of c ≡ none
      → object_of c ≡ none
      → ReversesOwed t
      → ((t : Trail) → ReversesOwed t → ReversesOwed (next t).1)
      → ReversesOwed (write b o (call c answer) next t).1
  unfolding call
  write-ReversesOwed false o c answer next t hc ho h k = k t h
  write-ReversesOwed true o c answer next t hc ho h k =
      after_row-ReversesOwed o next (answer t) (c ∷ t) (ReversesOwed-cons c t hc ho h) k

  record_ids-ReversesOwed :
      (o : RefundOutcome) (q : ReverseRequest) (y : ReverseResult) (ids : List Text) (t : Trail)
      → ReversesOwed t
      → ReversesOwed (record_ids s w o q y ids t).1
  record_ids-ReversesOwed o q y [] t h =
      write-ReversesOwed s.has_recorder o _ _ _ t refl refl h (λ t k. k)
  record_ids-ReversesOwed o q y (id ∷ ids) t h =
      write-ReversesOwed s.has_recorder o _ _ _ t refl refl h
        (λ t k. write-ReversesOwed s.has_recorder _ _ _ _ t refl refl k (λ t k. k))

  after_reverse-ReversesOwed :
      (o : RefundOutcome) (q : ReverseRequest) (answer : Result ReverseResult) (t : Trail)
      → ReversesOwed t
      → ReversesOwed (after_reverse s w o q (answer, t)).1
  after_reverse-ReversesOwed o q (ok y) t h = record_ids-ReversesOwed o q y y.refund_ids t h
  after_reverse-ReversesOwed o q (err e) t h =
      write-ReversesOwed s.has_recorder o _ _ _ t refl refl h (λ t k. k)

  answered-ReversesOwed :
      (q : ReverseRequest) (answer : Result ReverseResult) (t : Trail)
      → Owed w r account x q
      → Outcome
          (λ _. Reversed ps os (reversal_object q))
          (λ _. AtMost ps os (reversal_object q))
          answer
          t
      → ReversesOwed t
  answered-ReversesOwed q (ok y) t o h = inr (q, o, h)
  answered-ReversesOwed q (err e) t o (inl u) = inl u
  answered-ReversesOwed q (err e) t o (inr u) = inr (q, o, u)

  leg-ReversesOwed :
      (o : RefundOutcome) (owed : Result (Option ReverseRequest)) (t : Trail)
      → Outcome Owes (λ _. Untouched ps os) owed t
      → ReversesOwed (leg s w r account o (owed, t)).1
  leg-ReversesOwed o (err e) t h =
      write-ReversesOwed s.has_recorder o _ _ _ t refl refl (inl h) (λ t k. k)
  leg-ReversesOwed o (ok none) t h = inl h.0
  leg-ReversesOwed o (ok (some q)) t h =
      after_reverse-ReversesOwed o q (reverse s w q t).0 (reverse s w q t).1 (
        answered-ReversesOwed q (reverse s w q t).0 (reverse s w q t).1 (h.1 q refl)
          ((reverse_ensures ps os s w q).at t h.0))

-- Nothing, or the reversal that the answer of the wallet owes.
abbrev pub ReversesCredit :
    List FulfillRequest
    → List Object
    → World
    → RefundRequest
    → Result (Account × RefundResult)
    → Trail
    → Type 0
ReversesCredit ps os w r c t =
    Untouched ps os t
    ⊎ (account : Account) × (x : RefundResult) × (q : ReverseRequest) × (c ≡ ok (account, x))
      × Answered w r account x
      × Owed w r account x q
      × Reversed ps os (reversal_object q) t

module _ (ps : List FulfillRequest) (os : List Object) (s : RefundService) (w : World)
    (r : RefundRequest) where
  refused_refund-Untouched :
      (recording : Bool) (e : Text) (t : Trail)
      → Untouched ps os t
      → Untouched ps os (refused_refund recording w r e t).1
  refused_refund-Untouched true e t h = Untouched-cons ps os _ t refl refl h
  refused_refund-Untouched false e t h = h

  credited :
      (account : Account) (x : RefundResult) (t : Trail)
      → Answered w r account x
      → ReversesOwed ps os s w r account x t
      → ReversesCredit ps os w r (ok (account, x)) t
  credited account x t a (inl u) = inl u
  credited account x t a (inr (q, o, u)) = inr (account, x, q, refl, a, o, u)

  after_credit-ReversesCredit :
      (c : Result (Account × RefundResult)) (t : Trail)
      → Outcome (λ a t. Untouched ps os t × Answered w r a.0 a.1) (λ _. Untouched ps os) c t
      → ReversesCredit ps os w r c (after_credit s w r (c, t)).1
  after_credit-ReversesCredit (err e) t h = inl (refused_refund-Untouched s.has_recorder e t h)
  after_credit-ReversesCredit (ok (account, x)) t h =
      elim s.has_reversal
        as (λ b.
          ReversesCredit ps os w r (ok (account, x))
            (if b
              then leg s w r account (outcome_of x) (owed_reversal s w account r x t)
              else finish (outcome_of x) t).1) [
                | true ↦
                    let o = owed_reversal s w account r x t in
                    credited account x _ h.1 (
                      leg-ReversesOwed ps os s w r account x (outcome_of x) o.0 o.1
                        ((owed_reversal_ensures ps os s w r account x).at t h.0))
                | false ↦ inl h.0
              ]

-- A refund asks for no order, and for at most one object at the gateway, and for that only after
-- the wallet answered a credit of this order under the key of this message. The object has the
-- amount of a credit that the wallet just made and a receipt made of that key, or else the amount
-- and the key that the database holds of an interrupted reversal of this account's order.
pub refund-ReversesCredit :
    (s : RefundService) (w : World) (r : RefundRequest) (t : Trail)
    → ReversesCredit (payments t) (objects t) w r (credit w r t).0 (refund s w r t).1
unfolding refund
refund-ReversesCredit s w r t =
    after_credit-ReversesCredit (payments t) (objects t) s w r (credit w r t).0 (credit w r t).1
      ((credit_ensures (payments t) (objects t) w r).at t (refl, refl))
