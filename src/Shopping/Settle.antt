-- ===== src/Shopping/Settle.antt =====
-- The four ways an offer is settled in internal/shopgraph/builder.go, and what is made of them.
use agent_mart.Prelude.{
  Bool, true, ◌&&◌, ◌||◌, ◌++◌, Option, none, some, List, [], ◌∷◌, if◌then◌else◌,
}
use agent_mart.Prelude.Int.{ℤ, pos, ltb_ℤ, leb_ℤ}
use agent_mart.Prelude.Int64.{◌+64◌, ◌*64◌}
use agent_mart.Prelude.Text.{Text, bytes, is_empty, text_eq}
use agent_mart.Prelude.Result.{Result, ok, err, Exec, ◌>>=◌, lift}
use agent_mart.Gate.Defs.{Time, is_zero}
use agent_mart.Catalog.{Product}
use agent_mart.Shopping.World.{
  Resolution, Offer, Outcome, Settled, PricedGoods, gets, counters, accepts, declines, negotiates,
  Move, counter_offer, accept_offer, decline_offer, Shop,
}
use agent_mart.Shopping.Words.{join_reason}
use agent_mart.Shopping.Route.{
  premium_over, Route, accept_route, negotiate_route, ask_human_route, decline_route, buy,
  ask_human, declined, outcome_from,
}
use agent_mart.Shopping.State.{reached, Run, call, record_merchant_answer, emit}
use agent_mart.Shopping.Nodes.{auto_buy_premium_max_pct}

-- What `Result{}` and `Resolution{}` hold.
abbrev pub no_resolution : Resolution
no_resolution = record {
  session_id = [];
  status = [];
  product_id = [];
  quantity = pos 0;
  base_amount_paise = pos 0;
  final_amount_paise = pos 0;
  bundled_paise = pos 0;
  transcript = [];
  quoted_at = pos 0;
}

-- The accept node's outcome.
abbrev pub accepted_outcome : Offer → Resolution → Outcome
accepted_outcome offer r = record (outcome_from offer r) {
  action = buy;
  accepted = true;
  rationale = join_reason (offer.reason ∷ bytes "buyer agent accepted the merchant's terms" ∷ []);
}

-- The ask-human node's outcome.
abbrev pub asked_outcome : Offer → Outcome
asked_outcome offer =
    let standing = record no_resolution {
      session_id = offer.session_id;
      final_amount_paise = offer.final_paise;
    } in
    record (outcome_from offer standing) {
      action = ask_human;
      status = bytes "needs_human";
      rationale =
          join_reason (offer.reason ∷ bytes "buyer agent escalated this offer to the human" ∷ []);
    }

abbrev decline_rationale : Option Text → Text
decline_rationale none = bytes "outside budget or wallet balance"
decline_rationale (some e) = bytes "decline failed: " ++ e

-- The declined node's outcome.
abbrev pub declined_outcome : Offer → Resolution × Option Text → Outcome
declined_outcome offer r = record (outcome_from offer r.0) {
  action = declined;
  rationale = decline_rationale r.1;
}

-- A merchant's answer to a counter or to an acceptance.
abbrev pub heard : Result Resolution → Run → Run
heard (ok r) s = record_merchant_answer r.status r.final_amount_paise s
heard (err e) s = s

-- `negotiationTools`. An error goes back to the agent.
unfoldable pub perform_move : Shop → Move → Run → Run
perform_move shop (counter_offer session amount) s =
    heard (shop.counter s.trail session amount)
      (record s { trail = counters session amount ∷ s.trail })
perform_move shop (accept_offer session) s =
    heard (shop.accept s.trail session) (record s { trail = accepts session ∷ s.trail })
perform_move shop (decline_offer session reason) s = record s {
  trail = declines session reason ∷ s.trail;
}

unfoldable pub perform : Shop → List Move → Run → Run
perform shop [] s = s
perform shop (m ∷ ms) s = perform shop ms (perform_move shop m s)

-- The fields of an outcome that travel as JSON: those of the basket do not.
unfoldable pub fenced : Outcome → Outcome
fenced o = record o { product_id = []; quantity = pos 0; bundled_paise = pos 0; quoted_at = pos 0 }

-- `outcomeFromAny` on the join's map, which holds one stage's outcome.
unfoldable pub outcome_from_any : Outcome → Result Outcome
outcome_from_any o =
    if is_empty o.action && is_empty o.status
    then err (bytes "finalize received map[string]interface {} instead of an Outcome")
    else ok (fenced o)

-- `settledAmount`
unfoldable pub settled_amount : Run → Outcome → ℤ
settled_amount s o = if ltb_ℤ (pos 0) s.settled then s.settled else o.final_paise

-- `settledGoods`
unfoldable pub settled_goods : Run → Outcome → PricedGoods
settled_goods s o =
    if is_empty s.priced.product_id
    then record {
      product_id = o.product_id;
      quantity = o.quantity;
      bundled_paise = o.bundled_paise;
      quoted_at = o.quoted_at;
    }
    else s.priced

-- `quotedAt`
unfoldable pub quoted_at : Outcome → PricedGoods → Time
quoted_at o goods = if is_zero o.quoted_at then goods.quoted_at else o.quoted_at

abbrev pub at_least_one : ℤ → ℤ
at_least_one n = if leb_ℤ n (pos 0) then pos 1 else n

abbrev pub list_value : PricedGoods → Product → ℤ
list_value goods p = p.price_paise *64 at_least_one goods.quantity +64 goods.bundled_paise

-- The ask adds more than the advisory band to the list value.
unfoldable pub band_crossed : ℤ → ℤ → Bool
band_crossed final_paise list_paise =
    let premium = (premium_over final_paise list_paise).0 in
    ltb_ℤ (pos 0) list_paise
    && (ltb_ℤ (pos 0) premium
        && ltb_ℤ (list_paise *64 auto_buy_premium_max_pct) (premium *64 pos 100))

-- The result of the last node.
unfoldable pub verified : Outcome → PricedGoods → ℤ → Product → Settled
verified o goods final_paise p =
    let action = if is_empty o.action then buy else o.action in
    record {
      action = action;
      product_id = p.id;
      product_name = p.name;
      quantity = at_least_one goods.quantity;
      final_paise = final_paise;
      rationale = o.rationale;
      steps = o.steps;
      session_id = o.session_id;
      transcript = o.transcript;
      accepted = o.accepted;
      needs_approval = text_eq action ask_human || band_crossed final_paise (list_value goods p);
      bundled_paise = goods.bundled_paise;
      quoted_at = quoted_at o goods;
      shown = [];
    }

abbrev pub verify_error : Result Product → Result Product
verify_error (ok p) = ok p
verify_error (err e) = err (bytes "verify candidate: " ++ e)

abbrev pub settled_with : Outcome → Product → Run → Result Settled × Run
settled_with o p s = (ok (verified o (settled_goods s o) (settled_amount s o) p), s)

module _ (shop : Shop) where
  -- `accept_offer`
  unfoldable pub accept : Offer → Exec Run Outcome
  accept offer = do
    r ← call (accepts offer.session_id) (λ t. shop.accept t offer.session_id)
    emit (reached (accepted_outcome offer r)) (accepted_outcome offer r)

  -- `ask_human`
  unfoldable pub ask : Offer → Exec Run Outcome
  ask offer = emit (reached (asked_outcome offer)) (asked_outcome offer)

  -- `declined_outcome`
  unfoldable pub decline : Offer → Exec Run Outcome
  decline offer s =
      let reason = bytes "outside my budget" in
      let o = declined_outcome offer (shop.decline s.trail offer.session_id reason) in
      (ok o, record s { trail = declines offer.session_id reason ∷ s.trail; last = reached o })

  -- The negotiating agent's node: its moves, and then its outcome.
  unfoldable pub negotiate : Offer → Exec Run Outcome
  negotiate offer s =
      (do o ← call negotiates (λ t. shop.settle t offer); emit (reached (fenced o)) (fenced o))
        (perform shop (shop.moves s.trail offer) s)

  abbrev pub settle_by : Offer → Route → Exec Run Outcome
  settle_by offer accept_route = accept offer
  settle_by offer negotiate_route = negotiate offer
  settle_by offer ask_human_route = ask offer
  settle_by offer decline_route = decline offer

  -- The product is looked up under the id of the basket.
  unfoldable pub look_up : Outcome → Exec Run Product
  look_up o s =
      call (gets (settled_goods s o).product_id)
        (λ t. verify_error (shop.get t (settled_goods s o).product_id)) s

  -- `finalize`
  unfoldable pub finalize : Outcome → Exec Run Settled
  finalize raw = do o ← lift (outcome_from_any raw); p ← look_up o; settled_with o p
