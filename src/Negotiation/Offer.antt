-- ===== src/Negotiation/Offer.antt =====
-- internal/negotiation/policy.go: the opening offer, the entitled floor and the cost floor.
use agent_mart.Prelude.{Bool, true, false, ◌&&◌, ◌||◌, ◌++◌, Option, none, some, if◌then◌else◌}
use agent_mart.Prelude.Int.{ℤ, pos, ltb_ℤ, leb_ℤ}
use agent_mart.Prelude.Int64.{max_int64, ◌+64◌, ◌-64◌, ◌*64◌, ◌/64◌}
use agent_mart.Prelude.Text.{Text, bytes}
use agent_mart.Prelude.Decimal.{decimal}
use agent_mart.Prelude.Result.{Result, ok, err}
use agent_mart.Catalog.{Product}
use agent_mart.Negotiation.Conditions.{TradingConditions, uplift_bps, apply_bps, reason_from}

pub data OfferKind : Type 0 where
  uplift discount combo : OfferKind

pub record BundleItem : Type 0 where
  pub id : Text
  pub name : Text
  pub price_paise : ℤ
  pub discount_pct : ℤ

pub record Offer : Type 0 where
  pub kind : OfferKind
  pub base_paise : ℤ
  pub final_paise : ℤ
  pub reason : Text
  pub bundle : Option BundleItem
  pub bundled_paise : ℤ

pub record Priced : Type 0 where
  pub product : Product
  pub cost_paise : ℤ

abbrev pub invalid_proposal : Text
invalid_proposal = bytes "invalid proposal"

abbrev pub is_some {ℓ} : {A : Type ℓ} → Option A → Bool
is_some none = false
is_some (some _) = true

-- The offer with goods attached, at a price for each.
abbrev pub attached : Product → ℤ → ℤ → ℤ → Offer → Offer
attached partner pct quantity unit offer =
    let bundled = unit *64 quantity in
    record {
      kind = combo;
      base_paise = offer.base_paise;
      final_paise = offer.final_paise +64 bundled;
      reason =
          offer.reason
          ++ (bytes " plus " ++ (partner.name ++ (bytes " at " ++ (decimal pct ++ bytes "% off"))));
      bundle =
          some (record {
            id = partner.id;
            name = partner.name;
            price_paise = unit;
            discount_pct = pct;
          });
      bundled_paise = bundled;
    }

-- The partner's branch, on the offer for the main product alone.
unfoldable pub attach : Product → ℤ → ℤ → Offer → Result Offer
attach partner pct quantity offer =
    let unit = partner.price_paise *64 (pos 100 -64 pct) /64 pos 100 in
    if leb_ℤ partner.price_paise (pos 0) || ltb_ℤ (max_int64 /64 quantity) partner.price_paise
    then err invalid_proposal
    else if ltb_ℤ (max_int64 -64 offer.final_paise) unit
    then err invalid_proposal
    else ok (attached partner pct quantity unit offer)

-- Whether the opening offer attaches a partner.
abbrev pub attaches : Product → Product → ℤ → Bool
attaches main partner quantity =
    (ltb_ℤ (pos 0) main.combo_discount_pct && ltb_ℤ main.combo_discount_pct (pos 100))
    && (is_some main.combo_with && leb_ℤ quantity partner.stock)

-- The quote for the main product.
unfoldable pub main_offer : Product → ℤ → TradingConditions → Offer
main_offer main quantity c =
    let base = main.price_paise *64 quantity in
    let (bps, reasons) = uplift_bps main.warranty_years main.trust_score c in
    record {
      kind = uplift;
      base_paise = base;
      final_paise = base +64 apply_bps base bps;
      reason = reason_from reasons;
      bundle = none;
      bundled_paise = pos 0;
    }

unfoldable pub with_partner : Product → Option Priced → ℤ → Offer → Result Offer
with_partner main none quantity offer = ok offer
with_partner main (some partner) quantity offer =
    if attaches main partner.product quantity
    then attach partner.product main.combo_discount_pct quantity offer
    else ok offer

-- `OpeningOffer`
unfoldable pub opening_offer : Priced → Option Priced → ℤ → TradingConditions → Result Offer
opening_offer main partner quantity c =
    if leb_ℤ quantity (pos 0)
      || (leb_ℤ main.product.price_paise (pos 0)
          || ltb_ℤ (max_int64 /64 quantity) main.product.price_paise)
    then err invalid_proposal
    else with_partner main.product partner quantity (main_offer main.product quantity c)

-- `EntitledFloor`
unfoldable pub entitled_floor : ℤ → ℤ → ℤ → ℤ
entitled_floor cost_floor_paise list_paise pct =
    let floor =
      if ltb_ℤ (pos 0) pct && (ltb_ℤ pct (pos 100) && ltb_ℤ (pos 0) list_paise)
      then list_paise -64 list_paise *64 pct /64 pos 100
      else list_paise in
    if ltb_ℤ floor cost_floor_paise then cost_floor_paise else floor

-- The partner's share of the cost floor.
unfoldable pub add_partner_cost : Product → Option Priced → ℤ → ℤ → Result ℤ
add_partner_cost main none quantity total = ok total
add_partner_cost main (some partner) quantity total =
    let bundle_cost = partner.cost_paise *64 (pos 100 -64 main.combo_discount_pct) /64 pos 100 in
    if ltb_ℤ (pos 0) main.combo_discount_pct
      && (is_some main.combo_with && ltb_ℤ (pos 0) partner.cost_paise)
    then if ltb_ℤ (max_int64 -64 total) bundle_cost
      then err invalid_proposal
      else ok (total +64 bundle_cost *64 quantity)
    else ok total

-- `FloorFor`
unfoldable pub floor_for : Priced → Option Priced → ℤ → Result ℤ
floor_for main partner quantity =
    if leb_ℤ quantity (pos 0)
      || (ltb_ℤ main.cost_paise (pos 0) || ltb_ℤ (max_int64 /64 quantity) main.product.price_paise)
    then err invalid_proposal
    else add_partner_cost main.product partner quantity (main.cost_paise *64 quantity)
