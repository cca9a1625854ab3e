-- ===== src/Buyer/Reversal.antt =====
-- What the steps of internal/buyer/refund.go and reversal.go leave at the gateway.
use agent_mart.Prelude.{◌≡◌, ◌⊎◌, inl, inr, refl, ap, Option, none, some, List, [], ◌∷◌, ◌++◌}
use agent_mart.Prelude.Int.{ℤ}
use agent_mart.Prelude.Text.{Text, bytes, take, trim_space}
use agent_mart.Prelude.Decimal.{decimal}
use agent_mart.Prelude.Result.{ok}
use agent_mart.Prelude.Ensures.{
  Ensures, Ensures-bind, Ensures-refuse_if, Ensures-lift, Ensures-pure,
}
use agent_mart.Wallet
use agent_mart.Wallet.{FulfillRequest, RefundResult}
use agent_mart.Buyer.World.{Account, Call, Notes, World, Trail, create_artifact}
use agent_mart.Buyer.Trail.{payments, order_of, Ensures-call, Ensures-answer}
use agent_mart.Buyer.Settlement.{create_wallet_artifact}
use agent_mart.Buyer.Refund.{
  RefundRequest, RefundService, ReverseRequest, credit, reverse, refund_wallet, refund_key,
}

-- An object at the gateway: its amount and its receipt.
abbrev pub Object : Type 0
Object = ℤ × Text

abbrev pub object_of : Call → Option Object
object_of (create_artifact amount receipt notes) = some (amount, receipt)
object_of _ = none

abbrev prepend : Option Object → List Object → List Object
prepend none xs = xs
prepend (some x) xs = x ∷ xs

-- The objects that were asked of the gateway, the latest first.
unfoldable pub objects : Trail → List Object
objects [] = []
objects (c ∷ t) = prepend (object_of c) (objects t)

-- The key that the message alone determines.
abbrev pub message_key : RefundRequest → Text
message_key r =
    bytes "telegram:" ++ (decimal r.telegram_id ++ (bytes ":refund:" ++ decimal r.message_id))

-- The object of a reversal: its receipt has the first forty bytes of its name, which ends in the
-- key.
abbrev pub reversal_object : ReverseRequest → Object
reversal_object q = (q.amount_paise, take 40 (bytes "reversal_" ++ q.idempotency_key))

-- The wallet answered so, to a credit of this order, for this account, under the key of this
-- message.
abbrev pub Answered : World → RefundRequest → Account → RefundResult → Type 0
Answered w r account x =
    (before : Trail) × (c : Wallet.RefundRequest) × (w.refund before c ≡ ok x)
    × (c.account_id ≡ account.id)
    × (c.order_id ≡ trim_space r.order_id)
    × (c.idempotency_key ≡ message_key r)

module _ (ps : List FulfillRequest) (os : List Object) where
  -- Nothing was paid, and nothing was left at the gateway.
  abbrev pub Untouched : Trail → Type 0
  Untouched t = (payments t ≡ ps) × (objects t ≡ os)

  -- Nothing was paid, and this one object was left.
  abbrev pub Reversed : Object → Trail → Type 0
  Reversed o t = (payments t ≡ ps) × (objects t ≡ o ∷ os)

  pub Untouched-cons :
      (c : Call) (t : Trail)
      → order_of c ≡ none
      → object_of c ≡ none
      → Untouched t
      → Untouched (c ∷ t)
  unfolding payments objects
  Untouched-cons c t h k u = (rw h u.0, rw k u.1)

  pub Reversed-cons :
      (o : Object) (c : Call) (t : Trail)
      → order_of c ≡ none
      → object_of c ≡ none
      → Reversed o t
      → Reversed o (c ∷ t)
  unfolding payments objects
  Reversed-cons o c t h k u = (rw h u.0, rw k u.1)

  Reversed-object :
      (amount : ℤ) (receipt : Text) (notes : Notes) (t : Trail)
      → Untouched t
      → Reversed (amount, receipt) (create_artifact amount receipt notes ∷ t)
  unfolding payments objects
  Reversed-object amount receipt notes t u = (u.0, ap (λ xs. (amount, receipt) ∷ xs) u.1)

  abbrev pub AtMost : Object → Trail → Type 0
  AtMost o t = Untouched t ⊎ Reversed o t

  artifact_reverses :
      (w : World) (amount : ℤ) (receipt : Text) (notes : Notes)
      → Ensures Untouched
          (create_wallet_artifact w amount receipt notes)
          (λ _. Reversed (amount, receipt))
          (λ _. AtMost (amount, receipt))
  unfolding create_wallet_artifact
  artifact_reverses w amount receipt notes =
      Ensures-bind (λ _. Untouched) _ _ (Ensures-refuse_if _ _ (λ s p. inl p))
        (λ _.
          Ensures-bind (λ _. Reversed (amount, receipt)) _ _
            (Ensures-call _ _ (λ a t p. Reversed-object amount receipt notes t p)
              (λ e t p. inr (Reversed-object amount receipt notes t p)))
            (λ id.
              Ensures-bind (λ _. Reversed (amount, receipt)) _ _
                (Ensures-refuse_if _ _ (λ s p. inr p)) (λ _. Ensures-pure id (λ s p. p))))

  pub reverse_ensures :
      (s : RefundService) (w : World) (q : ReverseRequest)
      → Ensures Untouched
          (reverse s w q)
          (λ _. Reversed (reversal_object q))
          (λ _. AtMost (reversal_object q))
  unfolding reverse
  reverse_ensures s w q =
      Ensures-bind (λ _. Untouched) _ _ (Ensures-refuse_if _ _ (λ s p. inl p))
        (λ _.
          Ensures-bind (λ _. Untouched) _ _ (Ensures-refuse_if _ _ (λ s p. inl p))
            (λ _.
              Ensures-bind (λ _. Untouched) _ _ (Ensures-refuse_if _ _ (λ s p. inl p))
                (λ _.
                  Ensures-bind (λ _. Reversed (reversal_object q)) _ _ (artifact_reverses w _ _ _)
                    (λ artifact. Ensures-pure _ (λ s p. p)))))

  pub credit_ensures :
      (w : World) (r : RefundRequest)
      → Ensures Untouched (credit w r) (λ a t. Untouched t × Answered w r a.0 a.1) (λ _. Untouched)
  unfolding credit refund_wallet refund_key
  credit_ensures w r =
      Ensures-bind (λ _. Untouched) _ _ (Ensures-refuse_if _ _ (λ s p. p))
        (λ _.
          Ensures-bind (λ _. Untouched) _ _
            (Ensures-call _ _ (λ a t p. Untouched-cons _ t refl refl p)
              (λ e t p. Untouched-cons _ t refl refl p))
            (λ account.
              Ensures-bind (λ x t. Untouched t × Answered w r account x) _ _
                (Ensures-bind (λ _. Untouched) _ _ (Ensures-lift _ (λ e s p. p))
                  (λ _.
                    Ensures-answer _ _
                      (λ a t k p. (Untouched-cons _ t refl refl p, (t, _, k, refl, refl, refl)))
                      (λ e t p. Untouched-cons _ t refl refl p)))
                (λ x. Ensures-pure _ (λ s p. p))))
