-- ===== src/Merchant/Graph.antt =====
-- internal/marketgraph/graph.go and nodes.go: one pass of the merchant graph, campaign node,
-- strategist and guard. The campaign and trading providers and the strategist are arbitrary
-- functions; the graph runtime, which runs the three nodes in this order, is not modelled.
use agent_mart.Prelude.{
  Bool, false, ◌&&◌, ◌++◌, Option, none, some, List, [], ◌∷◌, map, if◌then◌else◌,
}
use agent_mart.Prelude.Int.{ℤ, pos, ltb_ℤ, leb_ℤ}
use agent_mart.Prelude.Int64.{◌-64◌}
use agent_mart.Prelude.Text.{Text, bytes, is_empty, trim_space}
use agent_mart.Prelude.Decimal.{decimal}
use agent_mart.Prelude.Result.{Result, ok, err, Exec, pure, lift, ◌>>=◌, ◌>>◌}
use agent_mart.Catalog.{Product}
use agent_mart.Negotiation.Conditions.{TradingConditions}
use agent_mart.Negotiation.Session.{Turn, Actor, buyer, merchant, max_rounds}
use agent_mart.Negotiation.Server.{CounterInput, CounterOutput}

pub record Facts : Type 0 where
  pub ask_paise : ℤ
  pub floor_paise : ℤ
  pub buyer_paise : ℤ
  pub min_acceptable_paise : ℤ
  pub round : ℤ
  pub rounds : ℤ
  pub product_name : Text
  pub category : Text
  pub warranty_years : ℤ
  pub trust_score : ℤ
  pub stock : ℤ
  pub bundle_name : Text
  pub loyalty_tier : Text
  pub loyalty_discount_pct : ℤ
  pub campaign_notes : List Text
  pub trading_observed : Bool
  pub units_sold_recently : ℤ
  pub stock_cover_days : ℤ
  pub refund_rate_pct : ℤ
  pub refund_rate_known : Bool
  pub transcript : List Text

pub record StrategyChoice : Type 0 where
  pub strategy : Text
  pub amount_paise : ℤ
  pub reason : Text

pub record Decision : Type 0 where
  pub amount_paise : ℤ
  pub reason : Text
  pub strategy : Text
  pub guard_note : Text
  pub margin_paise : ℤ

-- What a campaign answers: a tier, a percentage and notes.
abbrev pub Campaign : Type 0
Campaign = Text × ℤ × List Text

-- `Negotiator`, but for its auditor.
pub record Merchant : Type 0 where
  pub campaigns : Option (CounterInput → Result Campaign)
  pub trading : Option (Text → Result TradingConditions)
  pub strategist : Facts → Result StrategyChoice

-- `Auditor`, on the state `S` that its store keeps.
abbrev pub Auditor : Type 0 → Type 0
Auditor S = CounterInput → Facts → Decision → Exec S (Unit {0})

-- A low bound and its name.
abbrev Bound : Type 0
Bound = ℤ × Text

abbrev raise_to : ℤ → Text → Bound → Bound
raise_to x name (low, bound) = if ltb_ℤ low x then (x, name) else (low, bound)

-- The low bound that `clampToRails` holds an amount to.
unfoldable pub low_bound : ℤ → ℤ → ℤ → ℤ → Bound
low_bound floor buyer_paise min_acceptable ask =
    let (low, bound) =
      raise_to min_acceptable (bytes "this round's concession floor")
        (raise_to buyer_paise (bytes "the buyer's own bid") (floor, bytes "the cost floor")) in
    if ltb_ℤ (pos 0) ask && ltb_ℤ ask low then (ask, bytes "the standing ask") else (low, bound)

-- `clampToRails`
unfoldable pub clamp_to_rails : ℤ → ℤ → ℤ → ℤ → ℤ → ℤ × Text
clamp_to_rails proposed floor buyer_paise min_acceptable ask =
    let (low, bound) = low_bound floor buyer_paise min_acceptable ask in
    if leb_ℤ ask (pos 0)
    then (low, bytes "no standing ask; held at " ++ bound)
    else if ltb_ℤ proposed low
    then (
      low,
      bytes "raised to " ++ (decimal low ++ (bytes ": strategy amount was below " ++ bound)),
    )
    else if ltb_ℤ ask proposed
    then (
      ask,
      bytes "lowered to " ++ (decimal ask ++ bytes ": strategy amount exceeded the standing ask"),
    )
    else (proposed, [])

abbrev actor_name : Actor → Text
actor_name buyer = bytes "buyer"
actor_name merchant = bytes "merchant"

abbrev name_of : Option Product → Text
name_of none = []
name_of (some p) = p.name

-- `factsFrom`
unfoldable pub facts_from : CounterInput → Facts
facts_from i = record {
  ask_paise = i.ask_paise;
  floor_paise = i.floor_paise;
  buyer_paise = i.buyer_paise;
  min_acceptable_paise = i.min_acceptable_paise;
  round = i.session.round;
  rounds = max_rounds;
  product_name = i.product.name;
  category = i.product.category;
  warranty_years = i.product.warranty_years;
  trust_score = i.product.trust_score;
  stock = i.product.stock;
  bundle_name = name_of i.partner;
  loyalty_tier = [];
  loyalty_discount_pct = pos 0;
  campaign_notes = [];
  trading_observed = false;
  units_sold_recently = pos 0;
  stock_cover_days = pos 0;
  refund_rate_pct = pos 0;
  refund_rate_known = false;
  transcript =
      map (λ (t : Turn). actor_name t.actor ++ (bytes ": " ++ t.message)) i.session.transcript;
}

abbrev campaign_or_standard : Result Campaign → Campaign
campaign_or_standard (ok c) = c
campaign_or_standard (err e) =
    (bytes "standard", pos 0, (bytes "campaign lookup failed: " ++ e) ∷ [])

abbrev read_campaign : Option (CounterInput → Result Campaign) → CounterInput → Campaign
read_campaign none i = (
  bytes "standard",
  pos 0,
  bytes "no campaign source is configured, so no discount is funded" ∷ [],
)
read_campaign (some reader) i = campaign_or_standard (reader i)

-- `eligibility`
unfoldable pub eligibility : Merchant → CounterInput → Campaign
eligibility m i = read_campaign m.campaigns i

abbrev pub observe : Result TradingConditions → Facts → Facts
observe (ok c) f = record f {
  trading_observed = c.observed;
  units_sold_recently = c.units_sold;
  stock_cover_days = c.stock_cover_days;
  refund_rate_pct = c.refund_rate_pct;
  refund_rate_known = c.refund_rate_known;
}
observe (err e) f = record f {
  campaign_notes = f.campaign_notes ++ ((bytes "trading conditions unavailable: " ++ e) ∷ []);
}

abbrev pub read_trading : Option (Text → Result TradingConditions) → Text → Facts → Facts
read_trading none product f = f
read_trading (some reader) product f = observe (reader product) f

-- `addTradingConditions`
unfoldable pub add_trading_conditions : Merchant → Facts → Text → Facts
add_trading_conditions m f product = read_trading m.trading product f

-- The campaign node.
unfoldable pub assemble : Merchant → CounterInput → Facts
assemble m i =
    let (tier, pct, notes) = eligibility m i in
    add_trading_conditions m
      (record (facts_from i) {
        loyalty_tier = tier;
        loyalty_discount_pct = pct;
        campaign_notes = notes;
      })
      i.product.id

-- The decision of the guard node, before its audit.
unfoldable pub guarded : Facts → StrategyChoice → Decision
guarded f choice =
    let (amount, note) =
      clamp_to_rails choice.amount_paise f.floor_paise f.buyer_paise f.min_acceptable_paise
        f.ask_paise in
    let reason = trim_space choice.reason in
    record {
      amount_paise = amount;
      reason =
          if is_empty reason
          then bytes "best price we can hold while keeping the quality guarantees"
          else reason;
      strategy = if is_empty choice.strategy then bytes "concede" else choice.strategy;
      guard_note = note;
      margin_paise = amount -64 f.floor_paise;
    }

abbrev pub audit_failed : Result (Unit {0}) → Result (Unit {0})
audit_failed (ok u) = ok u
audit_failed (err e) = err (bytes "audit merchant offer: " ++ e)

-- Without an auditor the offer goes out unrecorded.
abbrev pub audit_offer :
    {S : Type 0} → Option (Auditor S) → CounterInput → Facts → Decision → Exec S (Unit {0})
audit_offer none i f d s = (ok tt, s)
audit_offer (some auditor) i f d s = let (answer, s') = auditor i f d s in (audit_failed answer, s')

-- One pass: the campaign node, the strategist, the guard node.
unfoldable pub pass : {S : Type 0} → Merchant → Option (Auditor S) → CounterInput → Exec S Decision
pass m auditor i = do
  let facts = assemble m i
  choice ← lift (m.strategist facts)
  audit_offer auditor i facts (guarded facts choice)
  pure (guarded facts choice)

abbrev output_of : Result Decision → Result CounterOutput
output_of (ok d) = ok (record {
  amount_paise = d.amount_paise;
  reason =
      if is_empty d.guard_note
      then d.reason
      else d.reason ++ (bytes " (" ++ (d.guard_note ++ bytes ")"));
})
output_of (err e) = err (bytes "reasoning layer: " ++ e)

-- `Counter`; its error is one that no layer has claimed before.
unfoldable pub counter :
    {S : Type 0} → Merchant → Option (Auditor S) → CounterInput → Exec S CounterOutput
counter m auditor i s = let (answer, s') = pass m auditor i s in (output_of answer, s')
