-- ===== src/Negotiation/Server.antt =====
-- internal/negotiation/http.go: the handlers of a proposal, a counter, an acceptance and a
-- decline, for a server that reads the catalog. The readers, the negotiator, the random source
-- and the clock are arbitrary functions; one request reads the clock once. The session store is
-- an interface over a state of its own.
use agent_mart.Prelude.{Bool, Option, none, some, [], if◌then◌else◌}
use agent_mart.Prelude.Int.{ℤ, pos, ltb_ℤ}
use agent_mart.Prelude.Text.{Text, bytes, is_empty, trim_space}
use agent_mart.Prelude.Result.{Result, ok, err, Exec}
use agent_mart.Gate.Defs.{Time}
use agent_mart.Catalog.{Product}
use agent_mart.Wallet.{is_blank}
use agent_mart.Negotiation.Conditions.{TradingConditions, unobserved}
use agent_mart.Negotiation.Offer.{Priced, floor_for}
use agent_mart.Negotiation.Session.{Session}

pub record Request : Type 0 where
  pub is_acceptance : Bool
  pub session_id : Text
  pub product_id : Text
  pub quantity : ℤ
  pub reason : Text
  pub counter_amount_paise : ℤ
  pub account_id : Text

pub record CounterInput : Type 0 where
  pub session : Session
  pub product : Product
  pub partner : Option Product
  pub floor_paise : ℤ
  pub ask_paise : ℤ
  pub buyer_paise : ℤ
  pub min_acceptable_paise : ℤ
  pub buyer_account_id : Text

pub record CounterOutput : Type 0 where
  pub amount_paise : ℤ
  pub reason : Text

-- `Server`, but for its store.
pub record Server : Type 0 where
  pub get_product : Text → Result Product
  pub get_priced : Option (Text → Result (Product × ℤ))
  pub entitlement : Option (Text → Result ℤ)
  pub conditions : Option (Text → Result TradingConditions)
  pub negotiator : Option (CounterInput → Result CounterOutput)
  pub session_token : Result Text
  pub now : Time

-- `SessionStore`
pub record SessionStore (S : Type 0) : Type 0 where
  pub get : Text → Exec S (Option Session)
  pub put : Text → Session → Exec S (Unit {0})

abbrev pub funded : Result ℤ → ℤ
funded (ok pct) = if ltb_ℤ pct (pos 0) then pos 0 else pct
funded (err _) = pos 0

abbrev read_entitlement : Option (Text → Result ℤ) → Text → ℤ
read_entitlement none account = pos 0
read_entitlement (some reader) account = if is_blank account then pos 0 else funded (reader account)

-- `entitlementFor`
unfoldable pub entitlement_for : Server → Text → ℤ
entitlement_for s account = read_entitlement s.entitlement account

abbrev observed_or_nothing : Result TradingConditions → TradingConditions
observed_or_nothing (ok c) = c
observed_or_nothing (err _) = unobserved

abbrev read_conditions : Option (Text → Result TradingConditions) → Text → TradingConditions
read_conditions none product = unobserved
read_conditions (some reader) product =
    if is_blank product then unobserved else observed_or_nothing (reader product)

-- `conditionsFor`
unfoldable pub conditions_for : Server → Text → TradingConditions
conditions_for s product = read_conditions s.conditions product

abbrev pub product_not_found : Text
product_not_found = bytes "product not found"

abbrev without_cost : Result Product → Result (Product × ℤ)
without_cost (ok p) = ok (p, pos 0)
without_cost (err _) = err product_not_found

abbrev pub no_product : Product
no_product = record {
  id = [];
  name = [];
  category = [];
  price_paise = pos 0;
  stock = pos 0;
  warranty_years = pos 0;
  trust_score = pos 0;
  combo_with = none;
  combo_discount_pct = pos 0;
  cost_paise = pos 0;
}

abbrev priced_by :
    Option (Text → Result (Product × ℤ)) → Server → Text → Product → Result (Product × ℤ)
priced_by none s id fallback =
    if is_empty fallback.id then without_cost (s.get_product id) else ok (fallback, pos 0)
priced_by (some reader) s id fallback = reader id

-- `pricedProduct`
unfoldable pub priced_product : Server → Text → Product → Result (Product × ℤ)
priced_product s id fallback = priced_by s.get_priced s id fallback

abbrev to_option : {A : Type 0} → Result A → Option A
to_option (ok a) = some a
to_option (err _) = none

abbrev pub partner_of : Server → Option Text → ℤ → Option Product
partner_of s none pct = none
partner_of s (some id) pct = if ltb_ℤ (pos 0) pct then to_option (s.get_product id) else none

abbrev cost_of : Product → Product × ℤ → Priced
cost_of partner (_, cost) = record { product = partner; cost_paise = cost }

abbrev priced_cost : Option (Text → Result (Product × ℤ)) → Product → Result (Option Priced)
priced_cost none partner = ok (some (record { product = partner; cost_paise = pos 0 }))
priced_cost (some reader) partner = elim (reader partner.id) [
  | ok x ↦ ok (some (cost_of partner x))
  | err e ↦ err e
]

abbrev partner_cost : Server → Option Product → Result (Option Priced)
partner_cost s none = ok none
partner_cost s (some partner) = priced_cost s.get_priced partner

abbrev floor_from : ℤ → Product × ℤ → Result (Option Priced) → Result ℤ
floor_from quantity (main, cost) (ok partner) =
    floor_for (record { product = main; cost_paise = cost }) partner quantity
floor_from quantity main (err e) = err e

abbrev floor_priced : Server → ℤ → Option Text → ℤ → Result (Product × ℤ) → Result ℤ
floor_priced s quantity combo pct (err e) = err e
floor_priced s quantity combo pct (ok main) =
    floor_from quantity main (partner_cost s (partner_of s combo pct))

-- `floorFor`
unfoldable pub floor_of : Server → Text → ℤ → Option Text → ℤ → Result ℤ
floor_of s id quantity combo pct =
    floor_priced s quantity combo pct (priced_product s id no_product)

-- `clampCounter` and `maxInt64`
unfoldable pub clamp_counter : ℤ → ℤ → ℤ → ℤ
clamp_counter value low high =
    if ltb_ℤ value low then low else if ltb_ℤ high value then high else value

unfoldable pub max_int64_of : ℤ → ℤ → ℤ
max_int64_of a b = if ltb_ℤ b a then a else b

-- `buyerAccountFor`
abbrev pub buyer_account_for : Session → Request → Text
buyer_account_for s r =
    if is_blank s.buyer_account_id then trim_space r.account_id else trim_space s.buyer_account_id
