-- ===== src/Shopping/Basket.antt =====
-- The basket and the amount of a result, against what the shop answered during the run.
use agent_mart.Prelude.{
  ◌≡◌, refl, ap, ◌⊎◌, inl, inr, true, Option, none, some, List, [], ◌∷◌, arith, Bool-cases, ◌∙◌,
}
use agent_mart.Prelude.Int.{ℤ, pos, leb_ℤ, ◌<ℤ◌}
use agent_mart.Prelude.Text.{Text, bytes, is_empty, trim_space, text_eq}
use agent_mart.Prelude.Result.{Result, ok, err, ◌>>=◌}
use agent_mart.Prelude.Ensures.{Ensures, Ensures-bind, Ensures-if, Ensures-from, Ensures-pure}
use agent_mart.Wallet.{is_blank}
use agent_mart.Shopping.World.{
  Wallet, PriorOption, Conversation, Shortlist, Proposal, Resolution, Selection, Pick, Assessment,
  OfferView, Event, Offer, prices, PricedGoods, Trail, Move, counter_offer, accept_offer,
  decline_offer, Shop,
}
use agent_mart.Shopping.Words.{brief_with_history}
use agent_mart.Shopping.Route.{shown_option}
use agent_mart.Shopping.State.{Run, record_priced, record_settled, record_merchant_answer, emit}
use agent_mart.Shopping.Nodes.{
  ask_shop, shown_or_refused, choose, choose_option, pick_from, picked, trimmed, fetch_offer, clock,
  bundled, judged, judgement, decide_offer, answered, selected, assess,
}
use agent_mart.Shopping.Settle.{heard, perform_move, perform}
use agent_mart.Shopping.Steps.{
  Kept, AnyError, Ensures-call, Ensures-called, Ensures-refuse, Ensures-fail, Ensures-emit,
  Ensures-note, Ensures-shown,
}

-- The merchant said, of some session, that a deal was accepted at this amount.
abbrev pub Confirmed : Shop → ℤ → Type 0
Confirmed shop amount =
    (t : Trail) × (session : Text) × (r : Resolution) × (((counter : ℤ) × (shop.counter t session
            counter
          ≡ ok r))
      ⊎ (shop.accept t session ≡ ok r))
    × (text_eq (trim_space r.status) (bytes "accepted") ≡ true)
    × (r.final_amount_paise ≡ amount)

-- No amount, or one that the merchant confirmed.
abbrev pub ConfirmedIfAny : Shop → ℤ → Type 0
ConfirmedIfAny shop amount = pos 0 <ℤ amount → Confirmed shop amount

heard_confirms :
    (shop : Shop) (answer : Result Resolution) (s : Run)
    → ((r : Resolution)
        → answer ≡ ok r
        → text_eq (trim_space r.status) (bytes "accepted") ≡ true
        → Confirmed shop r.final_amount_paise)
    → ConfirmedIfAny shop s.settled
    → ConfirmedIfAny shop (heard answer s).settled
unfolding record_merchant_answer record_settled
heard_confirms shop (err e) s h k = k
heard_confirms shop (ok r) s h k =
    elim (Bool-cases (text_eq (trim_space r.status) (bytes "accepted"))) [
      | inr n ↦ rw n k
      | inl a ↦ rw a (elim (Bool-cases (leb_ℤ r.final_amount_paise (pos 0))) [
        | inl z ↦ rw z k
        | inr z ↦ rw z (λ _. h r refl a)
      ])
    ]

perform_move_confirms :
    (shop : Shop) (m : Move) (s : Run)
    → ConfirmedIfAny shop s.settled
    → ConfirmedIfAny shop (perform_move shop m s).settled
unfolding perform_move
perform_move_confirms shop (counter_offer session amount) s h =
    heard_confirms shop (shop.counter s.trail session amount) _
      (λ r k a. (s.trail, session, r, inl (amount, k), a, refl)) h
perform_move_confirms shop (accept_offer session) s h =
    heard_confirms shop (shop.accept s.trail session) _
      (λ r k a. (s.trail, session, r, inr k, a, refl)) h
perform_move_confirms shop (decline_offer session reason) s h = h

heard-priced : (answer : Result Resolution) (s : Run) → (heard answer s).priced ≡ s.priced
unfolding record_merchant_answer record_settled
heard-priced (err e) s = refl
heard-priced (ok r) s = ground arith

perform_move-priced : (shop : Shop) (m : Move) (s : Run) → (perform_move shop m s).priced ≡ s.priced
unfolding perform_move
perform_move-priced shop (counter_offer session amount) s =
    heard-priced (shop.counter s.trail session amount) _
perform_move-priced shop (accept_offer session) s = heard-priced (shop.accept s.trail session) _
perform_move-priced shop (decline_offer session reason) s = refl

pub perform-priced :
    (shop : Shop) (ms : List Move) (s : Run) → (perform shop ms s).priced ≡ s.priced
unfolding perform
perform-priced shop [] s = refl
perform-priced shop (m ∷ ms) s =
    perform-priced shop ms (perform_move shop m s) ∙ perform_move-priced shop m s

-- Whatever the negotiating agent does, only the merchant's answers confirm an amount.
pub perform_confirms :
    (shop : Shop) (ms : List Move) (s : Run)
    → ConfirmedIfAny shop s.settled
    → ConfirmedIfAny shop (perform shop ms s).settled
unfolding perform
perform_confirms shop [] s h = h
perform_confirms shop (m ∷ ms) s h =
    perform_confirms shop ms (perform_move shop m s) (perform_move_confirms shop m s h)

module _ (shop : Shop) (wallet : Wallet) (prior : Conversation) where
  -- The shop showed this list.
  abbrev pub Browsed : Shortlist → Type 0
  Browsed shortlist =
      (t : Trail) × (brief : Text) × (shop.browse t brief wallet.spend_limit_paise wallet.account_id
        ≡ ok shortlist)

  -- The shop showed the product, in this run or before it.
  abbrev pub Shown : Text → Type 0
  Shown id =
      (shortlist : Shortlist) × (name : Text) × Browsed shortlist
      × (shown_option shortlist prior id ≡ some name)

  -- The shop quoted this offer for a product that it showed, and this is its basket, with the time
  -- at which the quote came.
  abbrev pub Quoted : Offer → PricedGoods → Type 0
  Quoted offer goods =
      (t : Trail) × (pick : Pick) × (p : Proposal) × Shown pick.selection.product_id
      × (shop.offers t pick.selection.product_id pick.selection.quantity wallet.account_id ≡ ok p)
      × (offer.session_id ≡ p.session_id)
      × (offer.final_paise ≡ p.final_amount_paise)
      × (goods.product_id ≡ p.product_id)
      × (goods.quantity ≡ p.quantity)
      × (goods.bundled_paise ≡ bundled p.bundle p.quantity)
      × (goods.quoted_at
          ≡ shop.now
              (prices pick.selection.product_id pick.selection.quantity wallet.account_id ∷ t))

  abbrev pub Opening : PricedGoods → ℤ → Type 0
  Opening goods amount = ConfirmedIfAny shop amount

  abbrev pub Priced : Offer → PricedGoods → ℤ → Type 0
  Priced offer goods amount = Quoted offer goods × ConfirmedIfAny shop amount

  abbrev pub Listed : Shortlist → PricedGoods → ℤ → Type 0
  Listed shortlist goods amount = Browsed shortlist × Opening goods amount

  shown_or_refused_ensures :
      (brief : Text) (shortlist : Shortlist) (options : List PriorOption)
      → Ensures
          (Kept (Listed shortlist))
          (shown_or_refused shop brief shortlist options)
          (λ l. Kept (Listed l))
          AnyError
  shown_or_refused_ensures brief shortlist [] = Ensures-refuse (Listed shortlist) _ _
  shown_or_refused_ensures brief shortlist (o ∷ os) =
      Ensures-bind _ _ _ (Ensures-shown (Listed shortlist) _)
        (λ _. Ensures-emit (Listed shortlist) Listed _ _ (λ g a h. h))

  pub ask_shop_ensures :
      (request : Text)
      → Ensures (Kept Opening) (ask_shop shop wallet prior request) (λ l. Kept (Listed l)) AnyError
  unfolding ask_shop
  ask_shop_ensures request =
      let brief = brief_with_history shop (trim_space request) prior in
      Ensures-if (is_blank request) _ _ (λ _. Ensures-fail Opening _)
        (λ _. Ensures-bind _ _ _ (Ensures-note Opening _) (λ _.
          Ensures-bind _ _ _ (Ensures-call Opening _ _) (λ l.
            Ensures-from (λ s p. ((p.0.0, brief, p.0.1), p.1))
              (shown_or_refused_ensures brief l l.options))))

  abbrev pub Chosen : Pick → PricedGoods → ℤ → Type 0
  Chosen pick goods amount = Shown pick.selection.product_id × Opening goods amount

  picked_ensures :
      (shortlist : Shortlist) (selection : Selection) (name : Option Text)
      → shown_option shortlist prior selection.product_id ≡ name
      → Ensures
          (Kept (Listed shortlist))
          (picked shop shortlist selection name)
          (λ pick. Kept (Chosen pick))
          AnyError
  picked_ensures shortlist selection none h = Ensures-fail (Listed shortlist) _
  picked_ensures shortlist selection (some name) h =
      Ensures-bind _ _ _ (Ensures-note (Listed shortlist) _)
        (λ _. Ensures-pure _ (λ s p. ((shortlist, name, p.0, h), p.1)))

  pick_from_ensures :
      (shortlist : Shortlist) (selection : Selection)
      → Ensures
          (Kept (Listed shortlist))
          (pick_from shop shortlist prior selection)
          (λ pick. Kept (Chosen pick))
          AnyError
  unfolding pick_from
  pick_from_ensures shortlist selection =
      Ensures-if (is_empty (trimmed selection).product_id) _ _
        (λ _. Ensures-refuse (Listed shortlist) _ _)
        (λ _. picked_ensures shortlist (trimmed selection) _ refl)

  selected_ensures :
      (shortlist : Shortlist) (selection : Option Selection)
      → Ensures
          (Kept (Listed shortlist))
          (selected selection)
          (λ _. Kept (Listed shortlist))
          AnyError
  selected_ensures shortlist none = Ensures-refuse (Listed shortlist) _ _
  selected_ensures shortlist (some s) = Ensures-pure s (λ _ p. p)

  answered_ensures :
      (shortlist : Shortlist) (answer : Option (Event Selection))
      → Ensures
          (Kept (Listed shortlist))
          (answered shop answer)
          (λ _. Kept (Listed shortlist))
          AnyError
  answered_ensures shortlist none = Ensures-fail (Listed shortlist) _
  answered_ensures shortlist (some ev) = selected_ensures shortlist _

  pub choose_option_ensures :
      (shortlist : Shortlist)
      → Ensures
          (Kept (Listed shortlist))
          (choose_option shop wallet prior shortlist)
          (λ pick. Kept (Chosen pick))
          AnyError
  unfolding choose_option choose
  choose_option_ensures shortlist = Ensures-bind _ _ _ (Ensures-note (Listed shortlist) _) (λ _.
      Ensures-bind (λ _. Kept (Listed shortlist)) _ _
        (Ensures-bind _ _ _ (Ensures-call (Listed shortlist) _ _)
          (λ answer. Ensures-from (λ s p. p.1) (answered_ensures shortlist answer)))
        (λ selection.
          Ensures-bind _ _ _ (pick_from_ensures shortlist selection)
            (λ pick. Ensures-emit (Chosen pick) Chosen _ _ (λ g a h. h))))

  pub fetch_offer_ensures :
      (pick : Pick)
      → Ensures
          (Kept (Chosen pick))
          (fetch_offer shop wallet prior pick)
          (λ view. Kept (Priced view.offer))
          AnyError
  unfolding fetch_offer clock record_priced emit ◌>>=◌
  fetch_offer_ensures pick = Ensures-bind _ _ _ (Ensures-note (Chosen pick) _) (λ _.
      Ensures-bind _ _ _ (Ensures-called (Chosen pick) _ _) (λ p. record {
        at = λ s h. (
          (h.0.0, pick, p, h.1.0, h.0.1, refl, refl, refl, refl, refl, ap shop.now h.0.2),
          h.1.1,
        );
      }))

  judgement_ensures :
      (offer : Offer) (answer : Result Assessment)
      → Ensures (Kept (Priced offer)) (judgement shop answer) (λ _. Kept (Priced offer)) AnyError
  judgement_ensures offer (ok a) = Ensures-pure a (λ _ p. p)
  judgement_ensures offer (err e) =
      Ensures-bind _ _ _ (Ensures-note (Priced offer) _) (λ _. Ensures-pure _ (λ _ p. p))

  judged_ensures :
      (view : OfferView)
      → Ensures
          (Kept (Priced view.offer))
          (judged shop view)
          (λ _. Kept (Priced view.offer))
          AnyError
  unfolding judged
  judged_ensures view = record {
    at = λ s p. (judgement_ensures view.offer (assess shop (shop.assess s.trail view))).at _ p;
  }

  pub decide_offer_ensures :
      (view : OfferView)
      → Ensures
          (Kept (Priced view.offer))
          (decide_offer shop wallet prior view)
          (λ d. Kept (Priced d.0))
          AnyError
  unfolding decide_offer
  decide_offer_ensures view =
      Ensures-if (is_empty view.offer.session_id) _ _ (λ _. Ensures-fail (Priced view.offer) _)
        (λ _. Ensures-bind _ _ _ (Ensures-note (Priced view.offer) _) (λ _.
          Ensures-bind _ _ _ (judged_ensures view) (λ a.
            Ensures-bind _ _ _ (Ensures-note (Priced view.offer) _)
              (λ _. Ensures-emit (Priced view.offer) (λ d. Priced d.0) _ _ (λ g a h. h)))))
