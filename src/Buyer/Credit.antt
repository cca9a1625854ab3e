-- ===== src/Buyer/Credit.antt =====
-- What `Refund` of internal/buyer/refund.go tells the person.
use agent_mart.Prelude.{
  ◌≡◌, ◌≢◌, refl, Bool, true, false, Option, none, some, List, [], ◌∷◌, arith, if◌then◌else◌,
}
use agent_mart.Prelude.Text.{Text, trim_space}
use agent_mart.Prelude.Result.{Result, ok, err, Exec}
use agent_mart.Wallet.{RefundResult}
use agent_mart.Buyer.World.{Account, ReverseResult, World, Trail, record_refund_failure}
use agent_mart.Buyer.Refund.{
  RefundRequest, RefundOutcome, RefundService, ReverseRequest, Refunded, credit, owed_reversal,
  reverse, outcome_of, refused_refund, empty_outcome, after_row, write, settle_owed, record_ids,
  after_reverse, leg, finish, after_credit, refund,
}

-- All but the gateway's ids.
pub record Tells (o : RefundOutcome) (x : RefundResult) : Type 0 where
  pub tells_approved : o.approved ≡ x.approved
  pub tells_duplicate : o.duplicate ≡ x.duplicate
  pub tells_order : o.order_id ≡ x.order_id
  pub tells_amount : o.amount_paise ≡ x.amount_paise
  pub tells_reason : o.reason ≡ x.reason

module _ (x : RefundResult) where
  after_row-Tells :
      (o : RefundOutcome) (next : Trail → Refunded × Trail) (row : Result (Unit {0})) (t : Trail)
      → Tells o x
      → ((t : Trail) → Tells (next t).0.0 x)
      → Tells (after_row o next (row, t)).0.0 x
  after_row-Tells o next (ok u) t h k = k t
  after_row-Tells o next (err e) t h k = h

  write-Tells :
      (b : Bool) (o : RefundOutcome) (row : Exec Trail (Unit {0})) (next : Trail → Refunded × Trail)
      (t : Trail)
      → Tells o x
      → ((t : Trail) → Tells (next t).0.0 x)
      → Tells (write b o row next t).0.0 x
  write-Tells false o row next t h k = k t
  write-Tells true o row next t h k = after_row-Tells o next (row t).0 (row t).1 h k

  settle_owed-Tells :
      (s : RefundService) (w : World) (o : RefundOutcome) (order : Text) (t : Trail)
      → Tells o x
      → Tells (settle_owed s w o order t).0.0 x
  settle_owed-Tells s w o order t h = write-Tells s.has_recorder o _ _ t h (λ t. h)

  with_ids-Tells :
      (o : RefundOutcome) (ids : List Text) → Tells o x → Tells (record o { refund_ids = ids }) x
  with_ids-Tells o ids h = record {
    tells_approved = h.tells_approved;
    tells_duplicate = h.tells_duplicate;
    tells_order = h.tells_order;
    tells_amount = h.tells_amount;
    tells_reason = h.tells_reason;
  }

  record_ids-Tells :
      (s : RefundService) (w : World) (o : RefundOutcome) (q : ReverseRequest) (y : ReverseResult)
      (ids : List Text) (t : Trail)
      → Tells o x
      → Tells (record_ids s w o q y ids t).0.0 x
  record_ids-Tells s w o q y [] t h = settle_owed-Tells s w o q.order_id t h
  record_ids-Tells s w o q y (id ∷ ids) t h =
      write-Tells s.has_recorder o _ _ t h
        (λ t. settle_owed-Tells s w _ q.order_id t (with_ids-Tells o (id ∷ ids) h))

  after_reverse-Tells :
      (s : RefundService) (w : World) (o : RefundOutcome) (q : ReverseRequest)
      (answer : Result ReverseResult) (t : Trail)
      → Tells o x
      → Tells (after_reverse s w o q (answer, t)).0.0 x
  after_reverse-Tells s w o q (ok y) t h = record_ids-Tells s w o q y y.refund_ids t h
  after_reverse-Tells s w o q (err e) t h = write-Tells s.has_recorder o _ _ t h (λ t. h)

  leg-Tells :
      (s : RefundService) (w : World) (r : RefundRequest) (account : Account) (o : RefundOutcome)
      (owed : Result (Option ReverseRequest)) (t : Trail)
      → Tells o x
      → Tells (leg s w r account o (owed, t)).0.0 x
  leg-Tells s w r account o (err e) t h = write-Tells s.has_recorder o _ _ t h (λ t. h)
  leg-Tells s w r account o (ok none) t h = h
  leg-Tells s w r account o (ok (some q)) t h =
      after_reverse-Tells s w o q (reverse s w q t).0 (reverse s w q t).1 h

outcome_of-Tells : (x : RefundResult) → Tells (outcome_of x) x
outcome_of-Tells x = record {
  tells_approved = refl;
  tells_duplicate = refl;
  tells_order = refl;
  tells_amount = refl;
  tells_reason = refl;
}

-- The answer and the trail that follow a credit.
abbrev pub Follows :
    RefundService
    → RefundRequest
    → Result (Account × RefundResult)
    → Trail
    → Refunded × Trail
    → Type 0
Follows s r (ok (account, x)) t answer = Tells answer.0.0 x
Follows s r (err e) t answer =
    (answer.0.0 ≡ empty_outcome)
    × (answer.0.1 ≢ none)
    × (answer.1 ≡ (
        if s.has_recorder
        then record_refund_failure r.telegram_id (trim_space r.order_id) e ∷ t
        else t))

refused_refund-Follows :
    (s : RefundService) (w : World) (r : RefundRequest) (e : Text) (t : Trail)
    → Follows s r (err e) t (refused_refund s.has_recorder w r e t)
refused_refund-Follows s w r e t =
    elim s.has_recorder
      as (λ b.
        ((refused_refund b w r e t).0.0 ≡ empty_outcome)
        × ((refused_refund b w r e t).0.1 ≢ none)
        × ((refused_refund b w r e t).1 ≡ (
            if b then record_refund_failure r.telegram_id (trim_space r.order_id) e ∷ t else t))) [
              | true ↦ (refl, λ h. absurd (ground arith), refl)
              | false ↦ (refl, λ h. absurd (ground arith), refl)
            ]

after_credit-Follows :
    (s : RefundService) (w : World) (r : RefundRequest) (c : Result (Account × RefundResult))
    (t : Trail)
    → Follows s r c t (after_credit s w r (c, t))
after_credit-Follows s w r (ok (account, x)) t =
    elim s.has_reversal
      as (λ b.
        Tells
          (if b
            then leg s w r account (outcome_of x) (owed_reversal s w account r x t)
            else finish (outcome_of x) t).0.0
          x) [
            | true ↦ leg-Tells x s w r account (outcome_of x) _ _ (outcome_of-Tells x)
            | false ↦ outcome_of-Tells x
          ]
after_credit-Follows s w r (err e) t = refused_refund-Follows s w r e t

-- Once the wallet has answered, the outcome is what it answered, whatever the gateway and the
-- trail do; a refund that did not come so far is an error with an empty outcome, and the only
-- call it adds is the row of its refusal, where there is a recorder.
pub refund-Follows :
    (s : RefundService) (w : World) (r : RefundRequest) (t : Trail)
    → Follows s r (credit w r t).0 (credit w r t).1 (refund s w r t)
unfolding refund
refund-Follows s w r t = after_credit-Follows s w r (credit w r t).0 (credit w r t).1
