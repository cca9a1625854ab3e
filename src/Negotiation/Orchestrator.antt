-- ===== src/Negotiation/Orchestrator.antt =====
-- internal/negotiation/orchestrator.go: the merchant's answer to one counter of the buyer.
use agent_mart.Prelude.{zero, suc, Bool, true, false, ◌++◌, if◌then◌else◌}
use agent_mart.Prelude.Int.{ℤ, pos, negsuc, ltb_ℤ, leb_ℤ}
use agent_mart.Prelude.Int64.{◌+64◌, ◌-64◌}
use agent_mart.Prelude.Text.{Text, bytes}
use agent_mart.Prelude.Decimal.{decimal}
use agent_mart.Prelude.Float.{Constant, scale}
use agent_mart.Negotiation.Session.{Session, max_rounds}

pub record Decision : Type 0 where
  pub is_accepted : Bool
  pub final_paise : ℤ
  pub reason : Text
  pub is_exhausted : Bool

-- The float64 values of 1.0, 0.6, 0.15 and 0.5.
abbrev pub one : Constant
one = record { numerator = 1; denominator = 1 }

abbrev pub three_fifths : Constant
three_fifths = record { numerator = 5404319552844595; denominator = 9007199254740992 }

abbrev pub three_twentieths : Constant
three_twentieths = record { numerator = 5404319552844595; denominator = 36028797018963968 }

abbrev pub half : Constant
half = record { numerator = 1; denominator = 2 }

-- `concedeSchedule`, at the index of a round: below 1 counts as round 1, above 3 as round 3.
abbrev pub schedule : ℤ → Constant
schedule (negsuc _) = one
schedule (pos zero) = one
schedule (pos (suc zero)) = one
schedule (pos (suc (suc zero))) = three_fifths
schedule (pos (suc (suc (suc _)))) = three_twentieths

-- The least amount accepted in a round.
unfoldable pub minimum : ℤ → ℤ → ℤ → ℤ
minimum round ask floor = floor +64 scale (schedule round) (ask -64 floor)

abbrev refused : ℤ → Text → Bool → Decision
refused amount reason is_exhausted = record {
  is_accepted = false;
  final_paise = amount;
  reason = reason;
  is_exhausted = is_exhausted;
}

abbrev agreed : ℤ → Text → Decision
agreed amount reason = record {
  is_accepted = true;
  final_paise = amount;
  reason = reason;
  is_exhausted = false;
}

-- Half way from the buyer's amount to the least accepted one, and not below the floor.
unfoldable pub midway : ℤ → ℤ → ℤ → ℤ
midway buyer_paise least floor =
    let counter = buyer_paise +64 scale half (least -64 buyer_paise) in
    if ltb_ℤ counter floor then floor else counter

-- The rest of `Decide`, below the standing ask.
unfoldable pub answer : ℤ → ℤ → ℤ → ℤ → Decision
answer round ask buyer_paise floor =
    let least = minimum round ask floor in
    if leb_ℤ least buyer_paise
    then agreed buyer_paise (bytes "negotiated discount within margin")
    else if leb_ℤ max_rounds round
    then refused floor (bytes "below margin after all rounds; holding at cost floor") true
    else refused (midway buyer_paise least floor)
        (bytes "moving toward our best price; "
          ++ (decimal (max_rounds -64 round) ++ bytes " rounds left"))
        false

-- `Decide`
unfoldable pub decide : Session → ℤ → ℤ → Decision
decide s buyer_paise floor_paise =
    let ask = s.counter.final_amount_paise in
    let floor = if ltb_ℤ floor_paise (pos 0) then pos 0 else floor_paise in
    if leb_ℤ ask (pos 0)
    then refused floor_paise (bytes "session has no active offer") false
    else if leb_ℤ ask buyer_paise
    then agreed ask (bytes "buyer met the asking price")
    else answer s.round ask buyer_paise floor
