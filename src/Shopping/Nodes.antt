-- ===== src/Shopping/Nodes.antt =====
-- The nodes of internal/shopgraph/builder.go up to the buyer agent's decision.
use agent_mart.Prelude.{
  Option, none, some, List, [], ◌∷◌, ◌++◌, map, if◌then◌else◌, true, false, Bool,
}
use agent_mart.Prelude.Int.{ℤ, pos, leb_ℤ}
use agent_mart.Prelude.Int64.{◌+64◌, ◌*64◌}
use agent_mart.Prelude.Decimal.{rupees}
use agent_mart.Prelude.Text.{Text, bytes, is_empty, trim_space}
use agent_mart.Prelude.Result.{Result, ok, err, Exec, ◌>>=◌, ◌>>◌, pure, fail}
use agent_mart.Wallet.{is_blank}
use agent_mart.Gate.Defs.{Time}
use agent_mart.Shopping.World.{
  Wallet, PriorOption, Conversation, Shortlist, BundledItem, Proposal, Selection, Pick, Assessment,
  Offer, OfferView, PricedGoods, Output, typed, mapped, no_output, Event, Shop, browses, prices,
  chooses, assesses,
}
use agent_mart.Shopping.Words.{
  join, join_reason, first_line, is_empty_conversation, priced_name, brief_with_history,
}
use agent_mart.Shopping.Route.{
  premium_over, Route, accept_route, negotiate_route, ask_human_route, decline_route, route_for,
  shown_option,
}
use agent_mart.Shopping.State.{
  nothing_to_show, nothing_worth_buying, message, other, offered, Run, call, note_to, record_shown,
  record_priced, refuse, emit,
}

-- `AutoBuyPremiumMaxPct`
abbrev pub auto_buy_premium_max_pct : ℤ
auto_buy_premium_max_pct = pos 30

-- `earlierOrNil`
abbrev pub earlier_or_nil : Conversation → Option Conversation
earlier_or_nil prior = if is_empty_conversation prior then none else some prior

-- The decoded value if the test accepts it.
abbrev accepted_by : {A : Type 0} → (A → Bool) → Option A → Option A
accepted_by test none = none
accepted_by test (some a) = if test a then some a else none

abbrev first_of : {A : Type 0} → Option A → Option A → Option A
first_of (some a) _ = some a
first_of none x = x

-- The first part with a text that decodes to an accepted value.
abbrev pub from_parts :
    {A : Type 0} → (A → Bool) → (Text → Option A) → List (Option Text) → Option A
from_parts test read [] = none
from_parts test read (none ∷ parts) = from_parts test read parts
from_parts test read (some text ∷ parts) =
    let rest = from_parts test read parts in
    if is_blank text then rest else first_of (accepted_by test (read text)) rest

abbrev encoded : {A : Type 0} → Output A → Option A
encoded (typed a) = some a
encoded (mapped a) = a
encoded no_output = none

abbrev names_product : Selection → Bool
names_product s = if is_empty s.product_id then false else true

-- `selectionFrom`: `none` is `errNothingWorthBuying`.
unfoldable pub selection_from : Shop → Event Selection → Option Selection
selection_from shop ev =
    first_of (accepted_by names_product (encoded ev.output))
      (from_parts names_product shop.read_selection ev.parts)

abbrev has_decision : Assessment → Bool
has_decision a = if is_empty a.decision then false else true

abbrev as_assessment : Output Assessment → Option Assessment
as_assessment (typed a) = some a
as_assessment (mapped a) = accepted_by has_decision a
as_assessment no_output = none

abbrev or_error : {A : Type 0} → Option A → Text → Result A
or_error (some a) e = ok a
or_error none e = err e

-- `assess` and `assessmentFrom`
unfoldable pub assess : Shop → Result (Option (Event Assessment)) → Result Assessment
assess shop (err e) = err (bytes "assess offer: " ++ e)
assess shop (ok none) = err (bytes "assessing agent produced no answer")
assess shop (ok (some ev)) =
    or_error
      (first_of (as_assessment ev.output) (from_parts has_decision shop.read_assessment ev.parts))
      (bytes "assessing agent answered without a decision")

abbrev pub selected : Option Selection → Exec Run Selection
selected none = refuse nothing_worth_buying (message nothing_worth_buying)
selected (some s) = pure s

abbrev pub answered : Shop → Option (Event Selection) → Exec Run Selection
answered shop none = fail (bytes "choosing agent produced no answer")
answered shop (some ev) = selected (selection_from shop ev)

abbrev pub prefix_error : {A : Type 0} → Text → Result A → Result A
prefix_error p (ok a) = ok a
prefix_error p (err e) = err (p ++ e)

-- The selection with its id trimmed.
abbrev pub trimmed : Selection → Selection
trimmed s = record s { product_id = trim_space s.product_id }

abbrev counted : Selection → Selection
counted s = record s { quantity = if leb_ℤ s.quantity (pos 0) then pos 1 else s.quantity }

abbrev pub picked : Shop → Shortlist → Selection → Option Text → Exec Run Pick
picked shop shortlist s none = fail (
    bytes "buyer agent chose "
    ++ (shop.quoted s.product_id ++ bytes ", which the shop did not show"))
picked shop shortlist s (some name) =
    note_to (bytes "Chose " ++ (name ++ (bytes ": " ++ s.rationale)))
    >> pure (record { selection = counted s; shop_transcript = shortlist.transcript })

-- `pickFrom`
unfoldable pub pick_from : Shop → Shortlist → Conversation → Selection → Exec Run Pick
pick_from shop shortlist prior selection =
    if is_empty (trimmed selection).product_id
    then refuse nothing_worth_buying
        (message nothing_worth_buying ++ (bytes ": " ++ selection.rationale))
    else picked shop shortlist (trimmed selection)
        (shown_option shortlist prior (trimmed selection).product_id)

abbrev pub shown_or_refused : Shop → Text → Shortlist → List PriorOption → Exec Run Shortlist
shown_or_refused shop brief shortlist [] =
    refuse nothing_to_show (message nothing_to_show ++ (bytes " for " ++ shop.quoted brief))
shown_or_refused shop brief shortlist (o ∷ os) = record_shown (o ∷ os) >> emit other shortlist

abbrev pub bundled : Option BundledItem → ℤ → ℤ
bundled none n = pos 0
bundled (some b) n = b.price_paise *64 n

-- The offer of a proposal, received now.
abbrev pub offer_of : Pick → Proposal → ℤ → Offer
offer_of pick p now = record {
  session_id = p.session_id;
  product_id = p.product_id;
  product_name = p.name;
  quantity = p.quantity;
  base_paise = p.base_amount_paise;
  final_paise = p.final_amount_paise;
  bundled_paise = bundled p.bundle p.quantity;
  reason = p.reason;
  route = [];
  transcript = p.transcript;
  shop_turns = pick.shop_transcript;
  quoted_at = now;
}

abbrev pub basket_of : Offer → PricedGoods
basket_of offer = record {
  product_id = offer.product_id;
  quantity = offer.quantity;
  bundled_paise = offer.bundled_paise;
  quoted_at = offer.quoted_at;
}

abbrev pub view_of : Wallet → Offer → OfferView
view_of wallet offer =
    let premium = premium_over offer.final_paise (offer.base_paise +64 offer.bundled_paise) in
    record {
      offer = offer;
      wallet_balance_paise = wallet.balance_paise;
      spend_limit_paise = wallet.spend_limit_paise;
      budget_paise = wallet.budget_paise;
      premium_paise = premium.0;
      premium_pct = premium.1;
      advisory_band_pct = auto_buy_premium_max_pct;
    }

abbrev pub route_name : Route → Text
route_name accept_route = bytes "ACCEPT"
route_name negotiate_route = bytes "NEGOTIATE"
route_name ask_human_route = bytes "ASK_HUMAN"
route_name decline_route = bytes "DECLINE"

-- The judgement, or the person's call where there is none.
abbrev pub judgement : Shop → Result Assessment → Exec Run Assessment
judgement shop (ok a) = pure a
judgement shop (err e) =
    note_to (bytes "Could not judge this offer, so it goes to you. " ++ shop.explain e)
    >> pure (record {
      decision = bytes "ask_human";
      reason = bytes "the buyer agent could not judge this offer: " ++ first_line (shop.explain e);
    })

-- The agent's answer does not end the node with an error.
unfoldable pub judged : Shop → OfferView → Exec Run Assessment
judged shop view s =
    let answer = assess shop (shop.assess s.trail view) in
    judgement shop answer (record s { trail = assesses ∷ s.trail })

unfoldable pub clock : Shop → Exec Run Time
clock shop s = (ok (shop.now s.trail), s)

abbrev pub with_route : Offer → Assessment → Route × Text → Offer
with_route offer a r = record offer {
  route = route_name r.0;
  reason = join_reason (a.reason ∷ r.1 ∷ offer.reason ∷ []);
}

abbrev pub decided : Offer → Assessment → Route × Text → Exec Run (Offer × Route)
decided offer a r =
    note_to
      (bytes "Decision: " ++ (route_name r.0 ++ (bytes ". " ++ join_reason (a.reason ∷ r.1 ∷ []))))
    >> emit (offered (with_route offer a r)) (with_route offer a r, r.0)

module _ (shop : Shop) (wallet : Wallet) (prior : Conversation) where
  -- `ask_shop`
  unfoldable pub ask_shop : Text → Exec Run Shortlist
  ask_shop request =
      let budget = wallet.spend_limit_paise in
      let brief = brief_with_history shop (trim_space request) prior in
      if is_blank request then fail (bytes "nothing to ask the shop for") else (do
        _ ← note_to (
            bytes "Asking the shop about "
            ++ (shop.quoted brief ++ (bytes ", up to INR " ++ rupees budget)))
        shortlist ←
            call (browses brief budget wallet.account_id)
              (λ t. shop.browse t brief budget wallet.account_id)
        shown_or_refused shop brief shortlist shortlist.options)

  -- `choose`
  unfoldable pub choose : Shortlist → Exec Run Selection
  choose shortlist = do
    answer ← call chooses (λ t.
        prefix_error (bytes "choose an option: ") (shop.choose t shortlist (earlier_or_nil prior)))
    answered shop answer

  -- `choose_option`
  unfoldable pub choose_option : Shortlist → Exec Run Pick
  choose_option shortlist = do
    _ ← note_to (bytes "The shop showed: " ++ join (bytes "; ") (map priced_name shortlist.options))
    selection ← choose shortlist
    pick ← pick_from shop shortlist prior selection
    emit other pick

  -- `fetch_offer`
  unfoldable pub fetch_offer : Pick → Exec Run OfferView
  fetch_offer pick =
      let product = pick.selection.product_id in
      let quantity = pick.selection.quantity in
      do
        _ ← note_to (bytes "Asking the shop to price it")
        proposal ←
            call (prices product quantity wallet.account_id)
              (λ t. shop.offers t product quantity wallet.account_id)
        now ← clock shop
        _ ← record_priced (basket_of (offer_of pick proposal now))
        emit other (view_of wallet (offer_of pick proposal now))

  -- `decide_offer`
  unfoldable pub decide_offer : OfferView → Exec Run (Offer × Route)
  decide_offer view =
      let offer = view.offer in
      if is_empty offer.session_id
      then fail
          (bytes "merchant returned no negotiation session for " ++ shop.quoted offer.product_id)
      else (do
        _ ← note_to (
            bytes "The shop quoted "
            ++ (offer.product_name
                ++ (bytes " at INR "
                    ++ (rupees offer.final_paise ++ (bytes ": " ++ offer.reason)))))
        assessment ← judged shop view
        decided offer assessment (route_for shop assessment offer wallet))
