-- ===== src/Shopping/World.antt =====
-- The values that internal/shopgraph/graph.go and internal/negotiationclient pass on, and what a
-- run calls: the shop, the catalog, the agents and the clock, as arbitrary functions of the
-- calls made so far.
use agent_mart.Prelude.{Bool, Option, List}
use agent_mart.Prelude.Int.{ℤ}
use agent_mart.Prelude.Text.{Text}
use agent_mart.Prelude.Result.{Result}
use agent_mart.Gate.Defs.{Time}
use agent_mart.Catalog.{Product}
use agent_mart.Negotiation.Session.{Turn}

pub record Wallet : Type 0 where
  pub balance_paise : ℤ
  pub spend_limit_paise : ℤ
  pub budget_paise : ℤ
  pub account_id : Text

pub record PriorOption : Type 0 where
  pub product_id : Text
  pub name : Text
  pub price_paise : ℤ

pub record Conversation : Type 0 where
  pub brief : Text
  pub options : List PriorOption
  pub chosen : Text

-- internal/negotiationclient: the shop's answers. Of a shown option the run reads these fields.
pub record Shortlist : Type 0 where
  pub options : List PriorOption
  pub transcript : List Turn

pub record BundledItem : Type 0 where
  pub id : Text
  pub name : Text
  pub price_paise : ℤ
  pub discount_pct : ℤ

pub record Proposal : Type 0 where
  pub session_id : Text
  pub product_id : Text
  pub quantity : ℤ
  pub base_amount_paise : ℤ
  pub final_amount_paise : ℤ
  pub reason : Text
  pub name : Text
  pub bundle : Option BundledItem
  pub transcript : List Turn

pub record Resolution : Type 0 where
  pub session_id : Text
  pub status : Text
  pub product_id : Text
  pub quantity : ℤ
  pub base_amount_paise : ℤ
  pub final_amount_paise : ℤ
  pub bundled_paise : ℤ
  pub transcript : List Turn
  pub quoted_at : Time

pub record Selection : Type 0 where
  pub product_id : Text
  pub quantity : ℤ
  pub rationale : Text

pub record Pick : Type 0 where
  pub selection : Selection
  pub shop_transcript : List Turn

pub record Assessment : Type 0 where
  pub decision : Text
  pub reason : Text

pub record Offer : Type 0 where
  pub session_id : Text
  pub product_id : Text
  pub product_name : Text
  pub quantity : ℤ
  pub base_paise : ℤ
  pub final_paise : ℤ
  pub bundled_paise : ℤ
  pub reason : Text
  pub route : Text
  pub transcript : List Turn
  pub shop_turns : List Turn
  pub quoted_at : Time

pub record OfferView : Type 0 where
  pub offer : Offer
  pub wallet_balance_paise : ℤ
  pub spend_limit_paise : ℤ
  pub budget_paise : ℤ
  pub premium_paise : ℤ
  pub premium_pct : ℤ
  pub advisory_band_pct : ℤ

pub record Outcome : Type 0 where
  pub action : Text
  pub status : Text
  pub product_id : Text
  pub product_name : Text
  pub quantity : ℤ
  pub final_paise : ℤ
  pub bundled_paise : ℤ
  pub rationale : Text
  pub steps : List Text
  pub session_id : Text
  pub accepted : Bool
  pub transcript : List Turn
  pub quoted_at : Time

-- `Result` of the source.
pub record Settled : Type 0 where
  pub action : Text
  pub product_id : Text
  pub product_name : Text
  pub quantity : ℤ
  pub final_paise : ℤ
  pub rationale : Text
  pub steps : List Text
  pub session_id : Text
  pub transcript : List Turn
  pub accepted : Bool
  pub needs_approval : Bool
  pub bundled_paise : ℤ
  pub quoted_at : Time
  pub shown : List PriorOption

-- `pricedGoods`
pub record PricedGoods : Type 0 where
  pub product_id : Text
  pub quantity : ℤ
  pub bundled_paise : ℤ
  pub quoted_at : Time

-- A call of one of the run's tools, with its arguments.
pub data Call : Type 0 where
  browses : Text → ℤ → Text → Call
  gets : Text → Call
  prices : Text → ℤ → Text → Call
  counters : Text → ℤ → Call
  accepts : Text → Call
  declines : Text → Text → Call
  chooses assesses negotiates : Call

abbrev pub Trail : Type 0
Trail = List Call

-- A move of the negotiating agent, which names the session itself.
pub data Move : Type 0 where
  counter_offer : Text → ℤ → Move
  accept_offer : Text → Move
  decline_offer : Text → Text → Move

-- What an agent's last event carries: its output, as a value of the type or as decoded JSON (`none`
-- if it does not decode), and the texts of its content's parts, `none` for a nil part.
pub data Output {ℓ} (A : Type ℓ) : Type ℓ where
  typed : A → Output A
  mapped : Option A → Output A
  no_output : Output A

pub record Event {ℓ} (A : Type ℓ) : Type ℓ where
  pub output : Output A
  pub parts : List (Option Text)

-- `Tools`, the three agents, `failure.Explain`, `%q`, the clock, the JSON decoding of texts, the
-- number of events so far, and the runtime's wording of a node's error. A run of the choosing or
-- of the assessing agent ends with an error or with a last event, if any. The negotiating agent
-- makes some moves and writes an outcome. A decline answers with a resolution and an error, if any.
pub record Shop : Type 0 where
  pub browse : Trail → Text → ℤ → Text → Result Shortlist
  pub get : Trail → Text → Result Product
  pub offers : Trail → Text → ℤ → Text → Result Proposal
  pub counter : Trail → Text → ℤ → Result Resolution
  pub accept : Trail → Text → Result Resolution
  pub decline : Trail → Text → Text → Resolution × Option Text
  pub choose : Trail → Shortlist → Option Conversation → Result (Option (Event Selection))
  pub assess : Trail → OfferView → Result (Option (Event Assessment))
  pub moves : Trail → Offer → List Move
  pub settle : Trail → Offer → Result Outcome
  pub read_selection : Text → Option Selection
  pub read_assessment : Text → Option Assessment
  pub explain : Text → Text
  pub quoted : Text → Text
  pub now : Trail → Time
  pub events : Trail → Text
  pub raised : Text → Text
