-- ===== src/Negotiation/Conditions.antt =====
-- internal/negotiation/conditions.go: what the shop observes, and the uplift that it justifies.
use agent_mart.Prelude.{Bool, false, ◌&&◌, List, [], ◌∷◌, ◌++◌, if◌then◌else◌}
use agent_mart.Prelude.Int.{ℤ, pos, ltb_ℤ, leb_ℤ}
use agent_mart.Prelude.Int64.{◌+64◌, ◌-64◌, ◌*64◌, ◌/64◌}
use agent_mart.Prelude.Text.{Text, bytes}

abbrev pub uplift_ceiling_bps : ℤ
uplift_ceiling_bps = pos 1200

abbrev pub warranty_bps_per_year : ℤ
warranty_bps_per_year = pos 150

abbrev pub warranty_ceiling_bps : ℤ
warranty_ceiling_bps = pos 600

abbrev pub trust_floor_score : ℤ
trust_floor_score = pos 80

abbrev pub trust_bps_per_point : ℤ
trust_bps_per_point = pos 10

abbrev pub trust_ceiling_bps : ℤ
trust_ceiling_bps = pos 300

abbrev pub scarcity_bps_when_tight : ℤ
scarcity_bps_when_tight = pos 300

abbrev pub scarcity_cover_days : ℤ
scarcity_cover_days = pos 7

pub record TradingConditions : Type 0 where
  pub refund_rate_pct : ℤ
  pub refund_rate_known : Bool
  pub units_sold : ℤ
  pub stock_cover_days : ℤ
  pub observed : Bool

-- `TradingConditions{}`
abbrev pub unobserved : TradingConditions
unobserved = record {
  refund_rate_pct = pos 0;
  refund_rate_known = false;
  units_sold = pos 0;
  stock_cover_days = pos 0;
  observed = false;
}

pub record UpliftReason : Type 0 where
  pub bps : ℤ
  pub cause : Text

-- The running total and the reasons, as each block of `UpliftBps` leaves them.
abbrev pub Uplift : Type 0
Uplift = ℤ × List UpliftReason

abbrev pub add_reason : ℤ → Text → Uplift → Uplift
add_reason bps cause (total, reasons) =
    (total +64 bps, reasons ++ (record { bps = bps; cause = cause } ∷ []))

abbrev pub at_most : ℤ → ℤ → ℤ
at_most ceiling bps = if ltb_ℤ ceiling bps then ceiling else bps

-- The share of a premium that the refund rate leaves.
unfoldable pub keep_share : ℤ → ℤ → ℤ
keep_share bps refund_rate_pct =
    let rest = pos 100 -64 refund_rate_pct in
    let keep = if ltb_ℤ rest (pos 0) then pos 0 else rest in
    if ltb_ℤ (pos 0) refund_rate_pct then bps *64 keep /64 pos 100 else bps

-- What one warranty may add, given the refund rate.
unfoldable pub cover_bps : ℤ → TradingConditions → ℤ
cover_bps warranty_years c =
    keep_share (at_most warranty_ceiling_bps (warranty_years *64 warranty_bps_per_year))
      c.refund_rate_pct

-- The first block, cover on the goods.
unfoldable pub add_cover : ℤ → TradingConditions → Uplift → Uplift
add_cover warranty_years c u =
    let bps = cover_bps warranty_years c in
    if ltb_ℤ (pos 0) warranty_years && c.refund_rate_known
    then if ltb_ℤ (pos 0) bps
      then add_reason bps (bytes "cover on the goods, priced against what comes back") u
      else u
    else u

-- The second block, the handling record.
unfoldable pub add_trust : ℤ → Uplift → Uplift
add_trust trust_score u =
    let bps =
      at_most trust_ceiling_bps ((trust_score -64 trust_floor_score) *64 trust_bps_per_point) in
    if ltb_ℤ trust_floor_score trust_score
    then add_reason bps (bytes "handling record above the shop's own floor") u
    else u

-- The third block, measured scarcity.
unfoldable pub add_scarcity : TradingConditions → Uplift → Uplift
add_scarcity c u =
    if c.observed
      && (leb_ℤ (pos 0) c.stock_cover_days
          && (leb_ℤ c.stock_cover_days scarcity_cover_days && ltb_ℤ (pos 0) c.units_sold))
    then add_reason scarcity_bps_when_tight
        (bytes "stock is inside a week of cover at the current rate") u
    else u

-- The last block, the ceiling on any uplift.
unfoldable pub cap_uplift : Uplift → Uplift
cap_uplift (total, reasons) =
    if ltb_ℤ uplift_ceiling_bps total
    then (
      uplift_ceiling_bps,
      reasons
          ++ (record { bps = pos 0; cause = bytes "held at the shop's own ceiling on any uplift" }
              ∷ []),
    )
    else (total, reasons)

-- `UpliftBps`
unfoldable pub uplift_bps : ℤ → ℤ → TradingConditions → Uplift
uplift_bps warranty_years trust_score c =
    cap_uplift (add_scarcity c (add_trust trust_score (add_cover warranty_years c (pos 0, []))))

-- `applyBps`
unfoldable pub apply_bps : ℤ → ℤ → ℤ
apply_bps base_paise bps =
    if leb_ℤ base_paise (pos 0)
    then pos 0
    else if leb_ℤ bps (pos 0)
    then pos 0
    else base_paise *64 bps /64 pos 10000

abbrev join_causes : List UpliftReason → Text
join_causes [] = []
join_causes (r ∷ []) = r.cause
join_causes (r ∷ s ∷ rs) = r.cause ++ (bytes ", and " ++ join_causes (s ∷ rs))

-- `reasonFrom`
abbrev pub reason_from : List UpliftReason → Text
reason_from [] = bytes "list price, nothing added"
reason_from (r ∷ rs) = join_causes (r ∷ rs)
