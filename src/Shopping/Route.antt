-- ===== src/Shopping/Route.antt =====
-- The decisions of internal/shopgraph/builder.go that need no run: routes, premiums, choices,
-- and the results that a caller can rely on.
use agent_mart.Prelude.{
  Bool, true, false, ◌&&◌, ◌||◌, ◌++◌, Option, none, some, List, [], ◌∷◌, if◌then◌else◌,
}
use agent_mart.Prelude.Int.{ℤ, pos, ltb_ℤ, leb_ℤ, eqb_ℤ}
use agent_mart.Prelude.Int64.{◌-64◌, ◌*64◌, ◌/64◌}
use agent_mart.Prelude.Text.{Text, bytes, is_empty, trim_space, text_eq}
use agent_mart.Prelude.Decimal.{rupees}
use agent_mart.Negotiation.Session.{Turn}
use agent_mart.Shopping.World.{
  Wallet, PriorOption, Conversation, Shortlist, Resolution, Assessment, Offer, Outcome, Settled,
  Shop,
}
use agent_mart.Shopping.Words.{to_lower, join_reason}

-- `premiumOver`
unfoldable pub premium_over : ℤ → ℤ → ℤ × ℤ
premium_over final_paise list_paise =
    let paise = final_paise -64 list_paise in
    (paise, if ltb_ℤ (pos 0) list_paise then paise *64 pos 100 /64 list_paise else pos 0)

-- The routes, as the source names them.
pub data Route : Type 0 where
  accept_route negotiate_route ask_human_route decline_route : Route

abbrev pub one_of : Text → List Text → Bool
one_of s [] = false
one_of s (w ∷ ws) = text_eq s w || one_of s ws

-- The words that mean a route, if any.
unfoldable pub named_route : Text → Option Route
named_route decision =
    let word = to_lower (trim_space decision) in
    if one_of word (bytes "accept" ∷ bytes "buy" ∷ bytes "accept_offer" ∷ [])
    then some accept_route
    else if one_of word (bytes "negotiate" ∷ bytes "counter" ∷ bytes "counter_offer" ∷ [])
    then some negotiate_route
    else if one_of word (
        bytes "ask_human"
        ∷ bytes "ask-human"
        ∷ bytes "askhuman"
        ∷ bytes "human"
        ∷ bytes "confirm"
        ∷ [])
    then some ask_human_route
    else if one_of word (bytes "decline" ∷ bytes "reject" ∷ bytes "skip" ∷ [])
    then some decline_route
    else none

-- The stated budget, or else the spend limit.
abbrev pub ceiling : Wallet → ℤ
ceiling w = if leb_ℤ w.budget_paise (pos 0) then w.spend_limit_paise else w.budget_paise

abbrev pub within_money : Offer → Wallet → Route × Text
within_money offer w =
    if ltb_ℤ w.balance_paise offer.final_paise
    then (
      ask_human_route,
      bytes "wallet holds INR "
          ++ (rupees w.balance_paise
              ++ (bytes " but the offer is INR "
                  ++ (rupees offer.final_paise ++ bytes ", so the human decides"))),
    )
    else if ltb_ℤ (pos 0) (ceiling w) && ltb_ℤ (ceiling w) offer.final_paise
    then (
      ask_human_route,
      bytes "offer INR "
          ++ (rupees offer.final_paise
              ++ (bytes " is above the stated limit INR "
                  ++ (rupees (ceiling w) ++ bytes ", so the human decides"))),
    )
    else (accept_route, [])

abbrev pub routed : Shop → Text → Option Route → Offer → Wallet → Route × Text
routed shop decision none offer w = (
  ask_human_route,
  bytes "agent returned an unclear decision "
      ++ (shop.quoted decision ++ bytes ", so the human decides"),
)
routed shop decision (some accept_route) offer w = within_money offer w
routed shop decision (some route) offer w = (route, [])

-- `routeFor`
unfoldable pub route_for : Shop → Assessment → Offer → Wallet → Route × Text
route_for shop a offer w = routed shop a.decision (named_route a.decision) offer w

-- The name of the first option with this id.
abbrev pub find_option : List PriorOption → Text → Option Text
find_option [] wanted = none
find_option (o ∷ os) wanted =
    let rest = find_option os wanted in
    if text_eq (trim_space o.product_id) wanted then some o.name else rest

abbrev or_else : Option Text → Option Text → Option Text
or_else (some x) y = some x
or_else none y = y

-- `shownOption`: the name that the person saw, if the product was shown.
unfoldable pub shown_option : Shortlist → Conversation → Text → Option Text
shown_option shortlist prior product_id =
    let wanted = trim_space product_id in
    or_else (find_option shortlist.options wanted) (find_option prior.options wanted)

abbrev pub buy : Text
buy = bytes "buy"

abbrev pub ask_human : Text
ask_human = bytes "ask_human"

abbrev pub declined : Text
declined = bytes "declined"

abbrev pub known_action : Text → Bool
known_action a = text_eq a buy || (text_eq a ask_human || text_eq a declined)

-- The action, closed to the three that a caller knows.
abbrev pub closed_action : Shop → Settled → Settled
closed_action shop r =
    if known_action r.action
    then r
    else if is_empty r.action
    then record r { action = buy }
    else record r {
      action = ask_human;
      rationale = join_reason (
          r.rationale
          ∷ (bytes "the agent answered with an action nobody defined ("
              ++ (shop.quoted r.action ++ bytes "), so this is your call"))
          ∷ []);
    }

abbrev pub asks_person : Settled → Settled
asks_person r = if text_eq r.action ask_human then record r { needs_approval = true } else r

-- `normalized`
unfoldable pub normalized : Shop → Settled → Settled
normalized shop r = asks_person (
    closed_action shop
      (record r { quantity = if leb_ℤ r.quantity (pos 0) then pos 1 else r.quantity }))

abbrev or_turns : List Turn → List Turn → List Turn
or_turns [] ts = ts
or_turns (t ∷ ts) _ = t ∷ ts

-- `outcomeFrom`
unfoldable pub outcome_from : Offer → Resolution → Outcome
outcome_from offer r = record {
  action = [];
  status = r.status;
  product_id = offer.product_id;
  product_name = offer.product_name;
  quantity = offer.quantity;
  final_paise =
      if eqb_ℤ r.final_amount_paise (pos 0) then offer.final_paise else r.final_amount_paise;
  bundled_paise = offer.bundled_paise;
  rationale = [];
  steps = [];
  session_id = if is_empty r.session_id then offer.session_id else r.session_id;
  accepted = false;
  transcript = offer.shop_turns ++ or_turns r.transcript offer.transcript;
  quoted_at = offer.quoted_at;
}

-- `escalate`
unfoldable pub escalate : Shop → Offer → Text → Settled
escalate shop offer why = normalized shop (record {
  action = ask_human;
  product_id = offer.product_id;
  product_name = offer.product_name;
  quantity = offer.quantity;
  final_paise = offer.final_paise;
  rationale = join_reason (offer.reason ∷ why ∷ []);
  steps = [];
  session_id = offer.session_id;
  transcript = offer.shop_turns;
  accepted = false;
  needs_approval = false;
  bundled_paise = offer.bundled_paise;
  quoted_at = offer.quoted_at;
  shown = [];
})
