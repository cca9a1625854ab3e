-- ===== src/Negotiation/Quote.antt =====
-- What an opening quote of internal/negotiation/policy.go may ask.
use agent_mart.Prelude.{
  ℕ, zero, suc, ◌+◌, ◌-◌, ◌*◌, ◌/◌, ◌≤◌, ◌<◌, ◌≡◌, inl, inr, refl, true, false, ◌||◌, ◌∙◌, ap,
  arith, Bool-cases, le→ltb, lt→leb, some,
}
use Prim.Native.Nat.{min, zero-le}
use native.Mathlib.Nat.{
  mul-le-mul, mul-le-mul_left, mul-le-mul_right, mul-pos, le-div_iff_mul-le, div-le_self, add-zero,
}
use agent_mart.Prelude.Int.{pos, ◌≤ℤ◌, ltb_ℤ, leb_ℤ, ◌*ℤ◌, ◌+ℤ◌, *ℤ-pos, +ℤ-pos}
use agent_mart.Prelude.Int64.{max_int64, InRange, ◌/64◌, -64-pos, *64-pos, +64-pos, /64-pos}
use agent_mart.Prelude.Result.{ok}
use agent_mart.Catalog.{Product}
use agent_mart.Negotiation.Conditions.{TradingConditions, apply_bps}
use agent_mart.Negotiation.Offer.{
  Offer, Priced, attach, attached, attaches, main_offer, with_partner, opening_offer,
}
use agent_mart.Negotiation.Uplift.{signal_bound, full_uplift, uplift_bps-eq}

-- 2 ^ 52, the amounts that are priced without overflow.
abbrev pub amount_bound : ℕ
amount_bound = 4503599627370496

-- A product whose list total for a quantity is positive and within the bound.
pub record IsListed (p : Product) (unit q : ℕ) : Type 0 where
  pub priced : p.price_paise ≡ pos unit
  pub unit_pos : 0 < unit
  pub quantity_pos : 0 < q
  pub total_bounded : unit * q ≤ amount_bound

-- Figures that the uplift reads without overflow.
pub record IsMeasured (p : Product) (c : TradingConditions) : Type 0 where
  pub warranty_bounded : p.warranty_years ≤ℤ signal_bound
  pub trust_bounded : p.trust_score ≤ℤ signal_bound
  pub refund_range : InRange c.refund_rate_pct

apply_bps-eq :
    (b k : ℕ)
    → 0 < b
    → b ≤ amount_bound
    → k ≤ 1200
    → apply_bps (pos b) (pos k) ≡ pos (b * k / 10000)
unfolding apply_bps
apply_bps-eq b zero positive h le = ground arith
apply_bps-eq (suc b) (suc k) positive h le =
    let product = mul-le-mul h le in
    rw
      (
        lt→leb (suc b + 0) 0 (omega arith),
        lt→leb (suc k + 0) 0 (omega arith),
        *64-pos (suc b) (suc k) (omega (arith, product)),
      )
      (/64-pos (suc b * suc k) 10000 (omega (arith, product)))
apply_bps-eq zero (suc k) positive h le = absurd (omega arith)

capped : (n : ℕ) → min n 1200 ≤ 1200
capped n = omega arith

unit_le_total : (unit q : ℕ) → 0 < q → unit ≤ unit * q
unit_le_total unit q h = grind arith

below_hundred : (d : ℕ) → 100 - d ≤ 100
below_hundred d = omega arith

-- The quote for the main product: the list total, and at most twelve percent of it.
main_offer_bounds :
    (p : Product) (unit q : ℕ) (c : TradingConditions)
    → IsListed p unit q
    → IsMeasured p c
    → (u : ℕ) × ((main_offer p (pos q) c).base_paise ≡ pos (unit * q))
      × ((main_offer p (pos q) c).final_paise ≡ pos (unit * q + u))
      × (10000 * u ≤ 1200 * (unit * q))
unfolding main_offer
main_offer_bounds p unit q c listed measured =
    let (total, reasons) =
      uplift_bps-eq p.warranty_years p.trust_score c measured.warranty_bounded
        measured.trust_bounded measured.refund_range in
    let k : ℕ = min (full_uplift p.warranty_years p.trust_score c) 1200 in
    let base : ℕ = unit * q in
    let small = mul-le-mul_left base (capped (full_uplift p.warranty_years p.trust_score c)) in
    let some_total = mul-pos listed.unit_pos listed.quantity_pos in
    (
      base * k / 10000,
      rw listed.priced (*64-pos unit q (omega (arith, listed.total_bounded))),
      rw
          (
            listed.priced,
            *64-pos unit q (omega (arith, listed.total_bounded)),
            total,
            apply_bps-eq base k some_total listed.total_bounded (omega arith),
          )
          (+64-pos base (base * k / 10000) (omega (arith, small, listed.total_bounded))),
      omega (arith, small),
    )

div_below : (q : ℕ) → 9223372036854775807 / q < 9223372036854775808
div_below q = omega (arith, div-le_self 9223372036854775807 q)

-- The attached goods cost their list price at most, and are added to the quote.
attach_bounds :
    (p : Product) (unit d q f : ℕ) (o : Offer)
    → o.final_paise ≡ pos f
    → f ≤ 2 * amount_bound
    → IsListed p unit q
    → 0 < d
    → d < 100
    → (o' : Offer) × (b : ℕ) × (attach p (pos d) (pos q) o ≡ ok o')
      × (o'.base_paise ≡ o.base_paise)
      × (o'.final_paise ≡ pos (f + b))
      × (o'.bundled_paise ≡ pos b)
      × (b ≤ unit * q)
unfolding attach
attach_bounds p unit d q f o ef hf listed hd hd' =
    let price = unit_le_total unit q listed.quantity_pos in
    let share = mul-le-mul_left unit (below_hundred d) in
    let each : ℕ = unit * (100 - d) / 100 in
    let each_le : each ≤ unit = omega (arith, share) in
    let all = mul-le-mul_right q each_le in
    let guard =
      (le-div_iff_mul-le {k = q} {x = unit} {y = 9223372036854775807} listed.quantity_pos).1
        (omega (arith, listed.total_bounded)) in
    let bundled = *64-pos each q (omega (arith, all, listed.total_bounded)) in
    (
      attached p (pos d) (pos q) (pos each) o,
      each * q,
      rw (
        listed.priced,
        ef,
        -64-pos 100 d (omega arith) (omega arith),
        *64-pos unit (100 - d) (omega (arith, share, price, listed.total_bounded)),
        /64-pos (unit * (100 - d)) 100 (omega (arith, each_le, price, listed.total_bounded)),
        /64-pos 9223372036854775807 q (div_below q),
        -64-pos 9223372036854775807 f (omega arith) (omega arith),
        lt→leb (unit + 0) 0 (omega (arith, listed.unit_pos)),
        le→ltb (9223372036854775807 / q + 0) (unit + 0) (omega arith),
        le→ltb (9223372036854775807 - f + 0) (each + 0)
            (omega (arith, price, listed.total_bounded)),
      ),
      refl,
      rw (ef, bundled) (+64-pos f (each * q) (omega (arith, all, listed.total_bounded))),
      bundled,
      omega (arith, all),
    )

-- What a quote asks: the exact list total, an uplift u, and b for attached goods.
abbrev pub Asks : Product → ℕ → ℕ → ℕ → Offer → Type 0
Asks main q u b o =
    (o.base_paise ≡ main.price_paise *ℤ pos q)
    × (o.final_paise ≡ o.base_paise +ℤ pos u +ℤ pos b)
    × (o.bundled_paise ≡ pos b)

Asks-of_parts :
    (p : Product) (unit q u b : ℕ) (o : Offer)
    → p.price_paise ≡ pos unit
    → o.base_paise ≡ pos (unit * q)
    → o.final_paise ≡ pos (unit * q + u + b)
    → o.bundled_paise ≡ pos b
    → Asks p q u b o
Asks-of_parts p unit q u b o price base final bundled =
    (rw (price, *ℤ-pos) base, rw (base, +ℤ-pos, +ℤ-pos) final, bundled)

listed_guard :
    (p : Product) (unit q : ℕ)
    → IsListed p unit q
    → (leb_ℤ (pos q) (pos 0)
        || (leb_ℤ p.price_paise (pos 0) || ltb_ℤ (max_int64 /64 pos q) p.price_paise))
      ≡ false
listed_guard p unit q listed =
    let guard =
      (le-div_iff_mul-le {k = q} {x = unit} {y = 9223372036854775807} listed.quantity_pos).1
        (omega (arith, listed.total_bounded)) in
    rw (
      listed.priced,
      /64-pos 9223372036854775807 q (div_below q),
      lt→leb (q + 0) 0 (omega (arith, listed.quantity_pos)),
      lt→leb (unit + 0) 0 (omega (arith, listed.unit_pos)),
      le→ltb (9223372036854775807 / q + 0) (unit + 0) (omega arith),
    )

attaches_pct :
    (main partner : Product) (q d : ℕ)
    → main.combo_discount_pct ≡ pos d
    → attaches main partner (pos q) ≡ true
    → (0 < d) × (d < 100)
attaches_pct main partner q d e h = ground arith

-- A listed and measured product is quoted with its exact list total as the base, and an ask that
-- adds at most twelve percent of that and, where the partner is attached, at most the partner's
-- list total.
pub opening_offer_bounds :
    (main partner : Priced) (unit unit' d q : ℕ) (c : TradingConditions)
    → IsListed main.product unit q
    → IsMeasured main.product c
    → IsListed partner.product unit' q
    → main.product.combo_discount_pct ≡ pos d
    → (o : Offer) × (u b : ℕ) × (opening_offer main (some partner) (pos q) c ≡ ok o)
      × (o.base_paise ≡ main.product.price_paise *ℤ pos q)
      × (o.final_paise ≡ o.base_paise +ℤ pos u +ℤ pos b)
      × (o.bundled_paise ≡ pos b)
      × (10000 * u ≤ 1200 * (unit * q))
      × (b ≤ unit' * q)
      × (attaches main.product partner.product (pos q) ≡ false → b ≡ 0)
unfolding opening_offer with_partner
opening_offer_bounds main partner unit unit' d q c listed measured partner_listed pct =
    let (u, base, final, small) = main_offer_bounds main.product unit q c listed measured in
    let o = main_offer main.product (pos q) c in
    rw (listed_guard main.product unit q listed)
      (elim (Bool-cases (attaches main.product partner.product (pos q))) [
        | inl yes_attached ↦
            let (o', b, e, base', final', bundled, le) =
              attach_bounds partner.product unit' d q (unit * q + u) o final
                (omega (arith, small, listed.total_bounded)) partner_listed
                (attaches_pct main.product partner.product q d pct yes_attached).0
                (attaches_pct main.product partner.product q d pct yes_attached).1 in
            let asks =
              Asks-of_parts main.product unit q u b o' listed.priced (base' ∙ base) final'
                bundled in
            (
              o',
              u,
              b,
              rw yes_attached (ap (λ x. attach partner.product x (pos q) o) pct ∙ e),
              asks.0,
              asks.1,
              asks.2,
              small,
              le,
              λ n. cc,
            )
        | inr plain ↦
            let asks =
              Asks-of_parts main.product unit q u 0 o listed.priced base (rw add-zero final)
                (unfold main_offer in refl) in
            (o, u, 0, rw plain, asks.0, asks.1, asks.2, small, zero-le, λ _. refl)
      ])
