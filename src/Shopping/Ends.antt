-- ===== src/Shopping/Ends.antt =====
-- Properties of the results of runs of internal/shopgraph/builder.go.
use agent_mart.Prelude.{
  ◌≡◌, ◌≢◌, ◌⊎◌, refl, sym, inl, inr, true, false, ◌∷◌, arith, Bool-cases, ◌&&◌,
}
use agent_mart.Prelude.Int.{ℤ, pos, ◌<ℤ◌, ◌≤ℤ◌, eqb_ℤ}
use mathlib.Core.Path.{subst}
use agent_mart.Prelude.Text.{Text, is_empty}
use agent_mart.Prelude.Result.{Result, ok, err, lift}
use agent_mart.Prelude.Ensures.{Ensures, Ensures-bind, Outcome-of}
use agent_mart.Gate.Defs.{is_zero}
use agent_mart.Catalog.{Product}
use agent_mart.Shopping.World.{
  Wallet, Conversation, Offer, Resolution, Outcome, Settled, PricedGoods, Trail, Shop, gets,
}
use agent_mart.Shopping.Route.{
  Route, accept_route, negotiate_route, ask_human_route, decline_route, buy, ask_human, declined,
  outcome_from,
}
use agent_mart.Shopping.State.{Run, call, emit}
use agent_mart.Shopping.Settle.{
  accepted_outcome, accept, ask, decline, negotiate, settle_by, perform, fenced, outcome_from_any,
  look_up, verify_error, settled_goods, settled_amount, settled_with, verified, quoted_at,
  at_least_one, band_crossed, list_value, finalize,
}
use agent_mart.Shopping.Steps.{Kept, AnyError, Ensures-call}
use agent_mart.Shopping.Basket.{
  ConfirmedIfAny, Quoted, Opening, Priced, perform_confirms, perform-priced, ask_shop_ensures,
  choose_option_ensures, fetch_offer_ensures, decide_offer_ensures,
}
use agent_mart.Shopping.Run.{graph}

-- The result describes the quoted basket, in the catalog's words.
pub record Describes (shop : Shop) (goods : PricedGoods) (r : Settled) : Type 0 where
  pub product : Product
  pub looked_up : (t : Trail) × (shop.get t goods.product_id ≡ ok product)
  pub same_product : (r.product_id ≡ product.id) × (r.product_name ≡ product.name)
  pub same_quantity : r.quantity ≡ at_least_one goods.quantity
  pub same_bundle : r.bundled_paise ≡ goods.bundled_paise
  pub same_time : r.quoted_at ≡ goods.quoted_at
  pub asks_over_band :
      r.action ≡ buy → r.needs_approval ≡ band_crossed r.final_paise (list_value goods product)

-- The amount of an answer to an offer: what the merchant says on its acceptance, which is the
-- offer's own where it says none; or, of a negotiation, what the negotiating agent answers.
abbrev pub Answered : Shop → Offer → ℤ → Type 0
Answered shop offer paise =
    ((t : Trail) × (a : Resolution) × (shop.accept t offer.session_id ≡ ok a)
      × ((a.final_amount_paise ≡ pos 0) × (paise ≡ offer.final_paise)
          ⊎ (a.final_amount_paise ≢ pos 0) × (paise ≡ a.final_amount_paise)))
    ⊎ ((t : Trail) × (o : Outcome) × (shop.settle t offer ≡ ok o) × (paise ≡ o.final_paise))

-- The shop quoted the offer and its basket, and confirmed the amount if it confirmed one. Without
-- a confirmed amount, a result to buy has the amount of the answer to the offer.
pub record Backed (shop : Shop) (wallet : Wallet) (prior : Conversation) (r : Settled)
    (goods : PricedGoods) (amount : ℤ) : Type 0 where
  pub acts : is_empty r.action ≡ false
  pub offer : Offer
  pub quoted : Quoted shop wallet prior offer goods
  pub confirmed : ConfirmedIfAny shop amount
  pub pays_confirmed : pos 0 <ℤ amount → r.final_paise ≡ amount
  pub pays_agreed : r.action ≡ buy → amount ≤ℤ pos 0 → Answered shop offer r.final_paise
  pub describes : is_empty goods.product_id ≡ false → Describes shop goods r

verify_error-ok : (r : Result Product) (p : Product) → verify_error r ≡ ok p → r ≡ ok p
verify_error-ok (ok q) p h = h
verify_error-ok (err e) p h = absurd (ground arith)

settled_goods-priced :
    (s : Run) (o : Outcome) → is_empty s.priced.product_id ≡ false → settled_goods s o ≡ s.priced
unfolding settled_goods
settled_goods-priced s o h = rw h refl

verified-Describes :
    (shop : Shop) (o : Outcome) (goods : PricedGoods) (amount : ℤ) (p : Product) (t : Trail)
    → is_zero o.quoted_at ≡ true
    → shop.get t goods.product_id ≡ ok p
    → Describes shop goods (verified o goods amount p)
unfolding verified quoted_at
verified-Describes shop o goods amount p t z h = record {
  product = p;
  looked_up = (t, h);
  same_product = (refl, refl);
  same_quantity = refl;
  same_bundle = refl;
  same_time = rw z refl;
  asks_over_band = λ k. rw k refl;
}

verified_acts :
    (o : Outcome) (goods : PricedGoods) (amount : ℤ) (p : Product)
    → is_empty (verified o goods amount p).action ≡ false
unfolding verified
verified_acts o goods amount p = elim (Bool-cases (is_empty o.action)) [
  | inl e ↦ rw e refl
  | inr e ↦ rw e e
]

verified-paise :
    (s : Run) (o : Outcome) (goods : PricedGoods) (p : Product)
    → pos 0 <ℤ s.settled
    → (verified o goods (settled_amount s o) p).final_paise ≡ s.settled
unfolding verified settled_amount
verified-paise s o goods p h = ground arith

not_bought :
    (o : Outcome) (goods : PricedGoods) (amount : ℤ) (p : Product)
    → (o.action ≡ ask_human) ⊎ (o.action ≡ declined)
    → (verified o goods amount p).action ≢ buy
unfolding verified
not_bought o goods amount p (inl e) k = let q = rw e at k in ground arith
not_bought o goods amount p (inr e) k = let q = rw e at k in ground arith

accepted-Answered :
    (shop : Shop) (offer : Offer) (a : Resolution) (t : Trail)
    → shop.accept t offer.session_id ≡ ok a
    → Answered shop offer (accepted_outcome offer a).final_paise
unfolding outcome_from
accepted-Answered shop offer a t h = elim (Bool-cases (eqb_ℤ a.final_amount_paise (pos 0))) [
  | inl z ↦ inl (t, a, h, inl (ground arith, rw z refl))
  | inr z ↦ inl (t, a, h, inr (λ e. ground arith, rw z refl))
]

verified-agreed :
    (s : Run) (o : Outcome) (goods : PricedGoods) (p : Product)
    → s.settled ≤ℤ pos 0
    → (verified o goods (settled_amount s o) p).final_paise ≡ o.final_paise
unfolding verified settled_amount
verified-agreed s o goods p h = ground arith

-- The outcome does not buy, or has the amount of an answer to the offer.
abbrev Sourced : Shop → Offer → Outcome → Type 0
Sourced shop offer o =
    ((o.action ≡ ask_human) ⊎ (o.action ≡ declined)) ⊎ Answered shop offer o.final_paise

verified-Sourced :
    (shop : Shop) (offer : Offer) (s : Run) (o : Outcome) (goods : PricedGoods) (p : Product)
    → Sourced shop offer o
    → (verified o goods (settled_amount s o) p).action ≡ buy
    → s.settled ≤ℤ pos 0
    → Answered shop offer (verified o goods (settled_amount s o) p).final_paise
verified-Sourced shop offer s o goods p (inr a) k h =
    subst (Answered shop offer) (sym (verified-agreed s o goods p h)) a
verified-Sourced shop offer s o goods p (inl (inl e)) k h =
    absurd (not_bought o goods _ p (inl e) k)
verified-Sourced shop offer s o goods p (inl (inr e)) k h =
    absurd (not_bought o goods _ p (inr e) k)

module _ (shop : Shop) (wallet : Wallet) (prior : Conversation) where
  abbrev pub BackedIn : Settled → Run → Type 0
  BackedIn r s = Backed shop wallet prior r s.priced s.settled

  module _ (offer : Offer) where
    abbrev Standing : Run → Type 0
    Standing = Kept (Priced shop wallet prior offer)

    -- An outcome of this offer, and what stands.
    abbrev Ending : Outcome → Run → Type 0
    Ending o s = Sourced shop offer o × Standing s

    accept_ensures : Ensures Standing (accept shop offer) Ending AnyError
    unfolding accept emit
    accept_ensures =
        Ensures-bind _ _ _ (Ensures-call (Priced shop wallet prior offer) _ _)
          (λ r. record { at = λ s p. (inr (accepted-Answered shop offer r p.0.0 p.0.1), p.1) })

    ask_ensures : Ensures Standing (ask shop offer) Ending AnyError
    unfolding ask emit
    ask_ensures = record { at = λ s p. (inl (inl refl), p) }

    decline_ensures : Ensures Standing (decline shop offer) Ending AnyError
    unfolding decline
    decline_ensures = record { at = λ s p. (inl (inr refl), p) }

    negotiate_ensures : Ensures Standing (negotiate shop offer) Ending AnyError
    unfolding negotiate emit fenced
    negotiate_ensures = record {
      at = λ s p.
          (Ensures-bind _ _ _ (Ensures-call (Priced shop wallet prior offer) _ _)
              (λ o. record { at = λ s p. (inr (inr (p.0.0, o, p.0.1, refl)), p.1) })).at
            (perform shop (shop.moves s.trail offer) s)
            (
              rw (perform-priced shop (shop.moves s.trail offer) s) p.0,
              perform_confirms shop (shop.moves s.trail offer) s p.1,
            );
    }

    settle_by_ensures :
        (route : Route) → Ensures Standing (settle_by shop offer route) Ending AnyError
    settle_by_ensures accept_route = accept_ensures
    settle_by_ensures negotiate_route = negotiate_ensures
    settle_by_ensures ask_human_route = ask_ensures
    settle_by_ensures decline_route = decline_ensures

    abbrev Fenced : Outcome → Run → Type 0
    Fenced o s = (is_zero o.quoted_at ≡ true) × Ending o s

    outcome_ensures :
        (raw : Outcome) → Ensures (Ending raw) (lift (outcome_from_any raw)) Fenced AnyError
    unfolding outcome_from_any lift fenced
    outcome_ensures raw = record {
      at = λ s p. elim (Bool-cases (is_empty raw.action && is_empty raw.status)) [
        | inl b ↦ rw b tt
        | inr b ↦ rw b (refl, p)
      ];
    }

    look_up_ensures :
        (o : Outcome)
        → Ensures
            (Fenced o)
            (look_up shop o)
            (λ p s. ((t : Trail) × (shop.get t (settled_goods s o).product_id ≡ ok p)) × Fenced o s)
            AnyError
    unfolding look_up call settled_goods
    look_up_ensures o = record {
      at = λ s p.
          Outcome-of
            (λ p s'.
              ((t : Trail) × (shop.get t (settled_goods s' o).product_id ≡ ok p)) × Fenced o s')
            AnyError (verify_error (shop.get s.trail (settled_goods s o).product_id))
            (record s { trail = gets (settled_goods s o).product_id ∷ s.trail })
            (λ a k. ((s.trail, verify_error-ok _ a k), p)) (λ e k. tt);
    }

    settled_with_ensures :
        (o : Outcome) (p : Product)
        → Ensures
            (λ s. ((t : Trail) × (shop.get t (settled_goods s o).product_id ≡ ok p)) × Fenced o s)
            (settled_with o p)
            BackedIn
            AnyError
    settled_with_ensures o p = record {
      at = λ s h. record {
        acts = verified_acts o _ _ p;
        offer = offer;
        quoted = h.1.1.1.0;
        confirmed = h.1.1.1.1;
        pays_confirmed = verified-paise s o _ p;
        pays_agreed = verified-Sourced shop offer s o _ p h.1.1.0;
        describes = λ k. rw (settled_goods-priced s o k) (
            verified-Describes shop o s.priced (settled_amount s o) p h.0.0 h.1.0
              (rw (← settled_goods-priced s o k) h.0.1));
      };
    }

    finalize_ensures : (raw : Outcome) → Ensures (Ending raw) (finalize shop raw) BackedIn AnyError
    unfolding finalize
    finalize_ensures raw =
        Ensures-bind _ _ _ (outcome_ensures raw)
          (λ o. Ensures-bind _ _ _ (look_up_ensures o) (λ p. settled_with_ensures o p))

  pub graph_ensures :
      (request : Text)
      → Ensures
          (Kept (Opening shop wallet prior))
          (graph shop wallet prior request)
          BackedIn
          AnyError
  unfolding graph
  graph_ensures request = Ensures-bind _ _ _ (ask_shop_ensures shop wallet prior request) (λ l.
      Ensures-bind _ _ _ (choose_option_ensures shop wallet prior l) (λ pick.
        Ensures-bind _ _ _ (fetch_offer_ensures shop wallet prior pick) (λ view.
          Ensures-bind _ _ _ (decide_offer_ensures shop wallet prior view)
            (λ d. Ensures-bind _ _ _ (settle_by_ensures d.0 d.1) (λ o. finalize_ensures d.0 o)))))
