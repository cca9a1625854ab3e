-- ===== src/Trading/Facts.antt =====
-- internal/trading/trading.go: the observed conditions and the cache of the gateway's figures; and
-- `Eligibility` of internal/campaigns/campaigns.go.
use agent_mart.Prelude.{
  Bool, true, not, ◌&&◌, ◌++◌, Option, none, some, List, [], ◌∷◌, if◌then◌else◌,
}
use agent_mart.Prelude.Int.{ℤ, pos, ltb_ℤ, ◌-ℤ◌}
use agent_mart.Prelude.Text.{Text, bytes, is_empty, trim_space}
use agent_mart.Prelude.Result.{Result, ok, err}
use agent_mart.Gate.Defs.{Time, Duration, is_zero, time_sub}
use agent_mart.Wallet.{is_blank}
use agent_mart.Negotiation.Conditions.{TradingConditions, unobserved}
use agent_mart.Trading.Sales.{SalesFacts}

-- `salesWindow` and `factsTTL`, in nanoseconds.
abbrev pub sales_window : Duration
sales_window = pos 2592000000000000

abbrev pub facts_ttl : Duration
facts_ttl = pos 300000000000

-- The cache of a `Provider`.
pub record Cache : Type 0 where
  pub facts : SalesFacts
  pub read_at : Time

-- The clock at the three places that read it.
pub record Clock : Type 0 where
  pub aged : Time
  pub asked : Time
  pub stored : Time

abbrev pub Gateway : Type 0
Gateway = Time → Result SalesFacts

abbrev pub store_read : Result SalesFacts → Time → Cache → Result SalesFacts × Cache
store_read (err e) now c = (err e, c)
store_read (ok f) now c = (ok f, record { facts = f; read_at = now })

abbrev pub fresh : Clock → Cache → Bool
fresh k c = not (is_zero c.read_at) && ltb_ℤ (time_sub k.aged c.read_at) facts_ttl

-- The cached figures while they are fresh, and a new read after that.
unfoldable pub read_facts : Gateway → Clock → Cache → Result SalesFacts × Cache
unfolding ◌-ℤ◌
read_facts gateway k c =
    if fresh k c then (ok c.facts, c) else store_read (gateway (k.asked -ℤ sales_window)) k.stored c

-- `salesFacts`
abbrev pub read_by : Option Gateway → Clock → Cache → Result SalesFacts × Cache
read_by none k c = (err (bytes "no gateway reader is configured"), c)
read_by (some gateway) k c = read_facts gateway k c

-- `tradingRow`
pub record TradingRow : Type 0 where
  pub product_id : Text
  pub stock : ℤ
  pub units_sold : ℤ
  pub stock_cover_days : ℤ

abbrev pub with_row : List TradingRow → TradingConditions → TradingConditions
with_row (r ∷ []) c = record c {
  units_sold = r.units_sold;
  stock_cover_days = r.stock_cover_days;
  observed = true;
}
with_row _ c = c

abbrev pub with_facts : Result SalesFacts → TradingConditions → TradingConditions
with_facts (ok f) c = record c { refund_rate_pct = f.refund_rate_pct; refund_rate_known = true }
with_facts (err e) c = c

abbrev pub of_rows :
    Result (List TradingRow) → Result SalesFacts × Cache → Cache → Result TradingConditions × Cache
of_rows (err e) read c = (err (bytes "read selling rate: " ++ e), c)
of_rows (ok rows) read c = (ok (with_facts read.0 (with_row rows unobserved)), read.1)

-- `Conditions`, over the rows of the view and the gateway, if there is one.
unfoldable pub conditions :
    (Text → Result (List TradingRow))
    → Option Gateway
    → Clock
    → Text
    → Cache
    → Result TradingConditions × Cache
conditions rows gateway k product c =
    if is_blank product
    then (err (bytes "trading conditions need a product"), c)
    else of_rows (rows (trim_space product)) (read_by gateway k c) c

-- The row that the database function answers with.
pub record Eligible : Type 0 where
  pub tier : Text
  pub discount_pct : ℤ
  pub campaign : Text
  pub notes : List Text

abbrev pub Eligibility : Type 0
Eligibility = (Text × ℤ × List Text) × Option Text

abbrev pub standard : Text
standard = bytes "standard"

abbrev pub tier_of : Eligible → Text
tier_of r = if is_empty r.tier then standard else r.tier

abbrev pub granted : (Text → Text) → Result Eligible → Eligibility
granted quoted (err e) = ((standard, pos 0, []), some (bytes "campaign lookup: " ++ e))
granted quoted (ok r) =
    let why =
      bytes "campaign " ++ (quoted r.campaign ++ (bytes " selected for tier " ++ tier_of r)) in
    (
      (tier_of r, r.discount_pct, if is_empty r.campaign then r.notes else r.notes ++ (why ∷ [])),
      none,
    )

-- `Eligibility`, over the database's answer for an account.
unfoldable pub eligibility : (Text → Text) → (Text → Result Eligible) → Text → Eligibility
eligibility quoted campaign account =
    if is_blank account
    then ((standard, pos 0, bytes "no buyer account supplied: campaigns not applied" ∷ []), none)
    else granted quoted (campaign (trim_space account))
