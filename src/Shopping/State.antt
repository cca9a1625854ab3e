-- ===== src/Shopping/State.antt =====
-- The state of one run of internal/shopgraph/builder.go and the calls and notes that write it. An
-- error that wraps a sentinel leaves the sentinel's name in the state.
use agent_mart.Prelude.{Option, none, some, List, [], ◌∷◌}
use agent_mart.Prelude.Int.{ℤ, pos, leb_ℤ}
use agent_mart.Prelude.{if◌then◌else◌}
use agent_mart.Prelude.Text.{Text, bytes, text_eq, trim_space}
use agent_mart.Prelude.Result.{Result, ok, err, Exec}
use agent_mart.Shopping.World.{PriorOption, PricedGoods, Call, Trail, Offer, Outcome}

-- `errNothingToShow` and `errNothingWorthBuying`
pub data Sentinel : Type 0 where
  nothing_to_show nothing_worth_buying : Sentinel

abbrev pub message : Sentinel → Text
message nothing_to_show = bytes "the shop had nothing within the budget"
message nothing_worth_buying = bytes "nothing on the shelf was worth buying"

-- What the run's latest event carried.
pub data Last : Type 0 where
  nothing : Last
  other : Last
  offered : Offer → Last
  reached : Outcome → Last

-- `runState`, with what the loop over the events keeps. The wallet and what was said before do
-- not change during a run.
pub record Run : Type 0 where
  pub shown : List PriorOption
  pub priced : PricedGoods
  pub settled : ℤ
  pub notes : List Text
  pub trail : Trail
  pub last : Last
  pub refusal : Option Sentinel

-- `begin`
abbrev pub begin : Run
begin = record {
  shown = [];
  priced = record { product_id = []; quantity = pos 0; bundled_paise = pos 0; quoted_at = pos 0 };
  settled = pos 0;
  notes = [];
  trail = [];
  last = nothing;
  refusal = none;
}

-- A tool's answer to a call, which is on the trail from then on.
unfoldable pub call : {A : Type 0} → Call → (Trail → Result A) → Exec Run A
call c f s = (f s.trail, record s { trail = c ∷ s.trail })

-- `noteTo`
unfoldable pub note_to : Text → Exec Run Text
note_to line s = (ok line, record s { notes = line ∷ s.notes })

-- `recordShown`
unfoldable pub record_shown : List PriorOption → Exec Run (List PriorOption)
record_shown options s = (ok options, record s { shown = options })

-- `recordPriced`
unfoldable pub record_priced : PricedGoods → Exec Run PricedGoods
record_priced goods s = (ok goods, record s { priced = goods })

-- `recordSettled`
unfoldable pub record_settled : ℤ → Run → Run
record_settled amount s = record s { settled = if leb_ℤ amount (pos 0) then s.settled else amount }

-- `recordMerchantAnswer`
unfoldable pub record_merchant_answer : Text → ℤ → Run → Run
unfolding record_settled
record_merchant_answer status amount s =
    if text_eq (trim_space status) (bytes "accepted") then record_settled amount s else s

-- An error that wraps a sentinel.
unfoldable pub refuse : {A : Type 0} → Sentinel → Text → Exec Run A
refuse which e s = (err e, record s { refusal = some which })

-- A node's output is the run's latest.
unfoldable pub emit : {A : Type 0} → Last → A → Exec Run A
emit l a s = (ok a, record s { last = l })
