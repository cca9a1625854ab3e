-- ===== src/Buyer/Settling.antt =====
-- The steps of internal/buyer that follow a decision: what each leaves on the trail.
use agent_mart.Prelude.{◌≡◌, ◌⊎◌, inl, inr, refl, ap, true, false, List, ◌∷◌}
use agent_mart.Prelude.Int.{ℤ}
use agent_mart.Prelude.Text.{Text}
use agent_mart.Prelude.Ensures.{
  Ensures, Ensures-bind, Ensures-refuse_if, Ensures-lift, Ensures-pure,
}
use agent_mart.Gate.Defs.{Decision, Duration}
use agent_mart.Catalog.{Product}
use agent_mart.Wallet.{FulfillRequest}
use agent_mart.Buyer.World.{
  ApprovalRequest, ApprovalResult, create_approval, World, Account, Trail, fulfill_order, Notes,
}
use agent_mart.Buyer.Trail.{
  Ready, Armed, Paid, Keyed, PaidAtMost, Ready-cons, Armed-cons, Armed-order, Ensures-call,
  Ensures-answer, Matches,
}
use agent_mart.Prelude.Result.{ok}
use agent_mart.Buyer.Approval.{new_approval_request, create}
use agent_mart.Buyer.Settlement.{
  create_wallet_artifact, fulfill, fulfill_request, settle, SettleRequest,
}
use agent_mart.Buyer.Purchase.{
  ask_person, amounts, PurchaseRequest, PurchaseResult, settle_request, spend,
}

module _ (age : Duration) (fs : List FulfillRequest) where
  -- What a request for approval says is what was asked for: of the account that the store gave for
  -- this person, of the product that the catalog has under this id, and of the amounts that they
  -- come to.
  pub record Terms (w : World) (r : PurchaseRequest) (q : ApprovalRequest) : Type 0 where
    pub account : Account
    pub linked : (t : Trail) × (w.account t r.telegram_id ≡ ok account)
    pub product : Product
    pub priced : (t : Trail) × (w.product t r.product_id ≡ ok product)
    pub same_person : q.telegram_id ≡ r.telegram_id
    pub same_account : q.account_id ≡ account.id
    pub same_product : q.product_id ≡ product.id
    pub same_quantity : q.quantity ≡ r.quantity
    pub same_amounts : amounts r product ≡ ok (q.base_amount_paise, q.final_amount_paise)
    pub same_bundle : q.bundled_paise ≡ r.bundled_paise
    pub same_key : q.idempotency_key ≡ r.idempotency_key

  -- The last call stored such a request, and the result has its amount and the store's token.
  abbrev pub Locked : World → PurchaseRequest → PurchaseResult → Trail → Type 0
  Locked w r x t =
      (q : ApprovalRequest) × (before : Trail) × (t ≡ create_approval q ∷ before)
      × Terms w r q
      × (q.final_amount_paise ≡ x.amount_paise)
      × ((a : ApprovalResult) × (w.approval before q ≡ ok a) × (x.approval_token ≡ a.token))

  abbrev pub Unpaid : World → PurchaseRequest → PurchaseResult → Trail → Type 0
  Unpaid w r x t =
      (x.fulfilled ≡ false) × Ready age fs t × (x.approval_required ≡ true → Locked w r x t)

  -- A fulfilled result goes with one payment, of what it reports; any other with none.
  abbrev pub Reported : World → PurchaseRequest → PurchaseResult → Trail → Type 0
  Reported w r x t =
      (x.fulfilled ≡ true)
        × (x.approval_required ≡ false)
        × Paid age fs
            (λ f.
              (f.idempotency_key ≡ r.idempotency_key)
              × (f.final_amount_paise ≡ x.amount_paise)
              × (f.razorpay_order_id ≡ x.razorpay_order_id))
            t
      ⊎ Unpaid w r x t

  artifact_ensures :
      (w : World) (d : Decision) (key : Text) (amount : ℤ) (receipt : Text) (notes : Notes)
      → Ensures
          (Armed age fs d)
          (create_wallet_artifact w amount receipt notes)
          (λ _. Armed age fs d)
          (λ _. PaidAtMost age fs key)
  unfolding create_wallet_artifact
  artifact_ensures w d key amount receipt notes =
      Ensures-bind (λ _. Armed age fs d) _ _ (Ensures-refuse_if _ _ (λ s p. inl p.0))
        (λ _.
          Ensures-bind (λ _. Armed age fs d) _ _
            (Ensures-call _ _ (λ a t p. Armed-cons age fs d _ t refl p)
              (λ e t p. inl (Ready-cons age fs _ t refl p.0)))
            (λ id.
              Ensures-bind (λ _. Armed age fs d) _ _ (Ensures-refuse_if _ _ (λ s p. inl p.0))
                (λ _. Ensures-pure id (λ s p. p))))

  stamped-Matches :
      (f : FulfillRequest) (d : Decision) (run : Text)
      → Matches f d
      → Matches (record f { run_id = run }) d
  stamped-Matches f d run m = record {
    same_account = m.same_account;
    same_product = m.same_product;
    same_quantity = m.same_quantity;
    same_base = m.same_base;
    same_final = m.same_final;
  }

  Paid-Keyed :
      (f : FulfillRequest) (run : Text) (t : Trail)
      → Paid age fs (λ g. g ≡ record f { run_id = run }) t
      → Paid age fs (Keyed age fs f.idempotency_key) t
  Paid-Keyed f run t (g, f', k, e) = (g, f', k, ap (λ h. h.idempotency_key) e)

  fulfill_ensures :
      (w : World) (d : Decision) (f : FulfillRequest)
      → Matches f d
      → Ensures
          (Armed age fs d)
          (fulfill w f)
          (λ _. Paid age fs (λ g. g ≡ record f { run_id = w.run_id }))
          (λ _. PaidAtMost age fs f.idempotency_key)
  unfolding fulfill
  fulfill_ensures w d f m =
      let stamped = record f { run_id = w.run_id } in
      let paid : (t : Trail)
          → Armed age fs d t
          → Paid age fs (λ g. g ≡ stamped) (fulfill_order stamped ∷ t) =
        λ t p.
          let (g, k) = Armed-order age fs d stamped t (stamped-Matches f d w.run_id m) p in
          (g, stamped, k, refl) in
      Ensures-bind (λ _. Armed age fs d) _ _ (Ensures-lift _ (λ e s p. inl p.0))
        (λ _.
          Ensures-bind (λ _. Paid age fs (λ g. g ≡ stamped)) _ _
            (Ensures-call _ _ (λ a t p. paid t p)
              (λ e t p. inr (Paid-Keyed f w.run_id _ (paid t p))))
            (λ answer. Ensures-lift _ (λ e s p. inr (Paid-Keyed f w.run_id _ p))))

  settle_ensures :
      (w : World) (d : Decision) (r : SettleRequest)
      → ((artifact : Text) → Matches (fulfill_request r artifact) d)
      → Ensures
          (Armed age fs d)
          (settle w r)
          (λ x. Paid age fs (λ f.
            (f.idempotency_key ≡ r.idempotency_key)
            × (f.final_amount_paise ≡ r.final_amount_paise)
            × (f.razorpay_order_id ≡ x.gateway_order_id)))
          (λ _. PaidAtMost age fs r.idempotency_key)
  unfolding settle
  settle_ensures w d r m =
      Ensures-bind (λ _. Armed age fs d) _ _ (artifact_ensures w d r.idempotency_key _ _ _)
        (λ artifact.
          Ensures-bind
            (λ _. Paid age fs (λ g. g ≡ record (fulfill_request r artifact) { run_id = w.run_id }))
            _ _ (fulfill_ensures w d (fulfill_request r artifact) (m artifact))
            (λ order. Ensures-pure _ (λ s p. (
              p.0,
              p.1,
              p.2,
              (
                ap (λ g. g.idempotency_key) p.3,
                ap (λ g. g.final_amount_paise) p.3,
                ap (λ g. g.razorpay_order_id) p.3,
              ),
            ))))

  pub spend_ensures :
      (w : World) (r : PurchaseRequest) (d : Decision)
      → Ensures
          (Armed age fs d)
          (spend w r d)
          (Reported w r)
          (λ _. PaidAtMost age fs r.idempotency_key)
  unfolding spend
  spend_ensures w r d =
      Ensures-bind
        (λ x. Paid age fs (λ f.
          (f.idempotency_key ≡ r.idempotency_key)
          × (f.final_amount_paise ≡ d.request.final_amount_paise)
          × (f.razorpay_order_id ≡ x.gateway_order_id)))
        _ _
        (settle_ensures w d (settle_request r d.request) (λ artifact. record {
          same_account = refl;
          same_product = refl;
          same_quantity = refl;
          same_base = refl;
          same_final = refl;
        }))
        (λ settled. Ensures-pure _ (λ s p. inl (refl, refl, p)))

  pub ask_ensures :
      (w : World) (r : PurchaseRequest) (account : Account) (product : Product) (base final : ℤ)
      (reason : Text)
      → (t : Trail) × (w.account t r.telegram_id ≡ ok account)
      → (t : Trail) × (w.product t r.product_id ≡ ok product)
      → amounts r product ≡ ok (base, final)
      → Ensures
          (Ready age fs)
          (ask_person w r account product base final reason)
          (Unpaid w r)
          (λ _. Ready age fs)
  unfolding ask_person new_approval_request create
  ask_ensures w r account product base final reason ha hp hm =
      Ensures-bind (λ q t. Ready age fs t × Terms w r q × (q.final_amount_paise ≡ final)) _ _
        (Ensures-bind (λ _. Ready age fs) _ _
          (Ensures-call _ _ (λ a t p. Ready-cons age fs _ t refl p)
            (λ e t p. Ready-cons age fs _ t refl p))
          (λ token. Ensures-pure _ (λ s p. (
            p,
            record {
              account = account;
              linked = ha;
              product = product;
              priced = hp;
              same_person = refl;
              same_account = refl;
              same_product = refl;
              same_quantity = refl;
              same_amounts = hm;
              same_bundle = refl;
              same_key = refl;
            },
            refl,
          ))))
        (λ q.
          Ensures-bind
            (λ a t.
              Ready age fs t
              × ((before : Trail) × (t ≡ create_approval q ∷ before)
                  × Terms w r q
                  × (q.final_amount_paise ≡ final)
                  × (w.approval before q ≡ ok a)))
            _ _
            (Ensures-bind (λ _ t. Ready age fs t × Terms w r q × (q.final_amount_paise ≡ final)) _ _
              (Ensures-lift _ (λ e s p. p.0))
              (λ _.
                Ensures-answer _ _
                  (λ a t k p. (Ready-cons age fs _ t refl p.0, (t, refl, p.1, p.2, k)))
                  (λ e t p. Ready-cons age fs _ t refl p.0)))
            (λ approval. Ensures-pure _ (λ s p. (
              refl,
              p.0,
              λ _.
                  let (before, k, terms, same, stored) = p.1 in
                  (q, before, k, terms, same, (approval, stored, refl)),
            ))))
