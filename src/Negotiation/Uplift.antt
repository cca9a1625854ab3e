-- ===== src/Negotiation/Uplift.antt =====
-- The uplift of internal/negotiation/conditions.go against a formula over the naturals.
use agent_mart.Prelude.{
  ℕ, zero, suc, ◌+◌, ◌-◌, ◌*◌, ◌/◌, ◌≤◌, ◌<◌, ◌≡◌, inl, inr, refl, Bool, true, false, ◌&&◌, List,
  [], ◌∷◌, ◌++◌, arith, Bool-cases, if◌then◌else◌, lt→ltb, le→ltb, ltb,
}
use Prim.Native.Nat.{min}
use native.Mathlib.Nat.{add-zero, zero-add}
use agent_mart.Prelude.Int.{ℤ, pos, negsuc, ◌≤ℤ◌, pos_part, ltb_ℤ, leb_ℤ}
use agent_mart.Prelude.Int64.{
  InRange, ◌*64◌, ◌/64◌, -64-pos, -64-truncated, *64-pos, +64-pos, /64-pos,
}
use agent_mart.Prelude.Text.{Text, bytes}
use agent_mart.Negotiation.Conditions.{
  TradingConditions, unobserved, UpliftReason, Uplift, add_reason, at_most, cover_bps, keep_share,
  add_cover, add_trust, add_scarcity, cap_uplift, uplift_bps,
}

-- Years and scores below this bound are priced without overflow.
abbrev pub signal_bound : ℤ
signal_bound = pos 36028797018963968

-- What each signal may add.
abbrev pub cover_part : ℤ → TradingConditions → ℕ
cover_part w c =
    if c.refund_rate_known
    then min (pos_part w * 150) 600 * (100 - pos_part c.refund_rate_pct) / 100
    else 0

abbrev pub trust_part : ℤ → ℕ
trust_part t = min ((pos_part t - 80) * 10) 300

abbrev pub scarcity_part : TradingConditions → ℕ
scarcity_part c =
    if c.observed
      && (leb_ℤ (pos 0) c.stock_cover_days
          && (leb_ℤ c.stock_cover_days (pos 7) && ltb_ℤ (pos 0) c.units_sold))
    then 300
    else 0

abbrev pub full_uplift : ℤ → ℤ → TradingConditions → ℕ
full_uplift w t c = cover_part w c + trust_part t + scarcity_part c

share_le : (m k : ℕ) → m ≤ 600 → k ≤ 100 → m * k / 100 ≤ 600
share_le m k small le = let product : m * k ≤ 600 * 100 = grind arith in omega arith

cover_part_le : (w : ℤ) (c : TradingConditions) → cover_part w c ≤ 600
cover_part_le w c =
    ground (arith, share_le (min (pos_part w * 150) 600) (100 - pos_part c.refund_rate_pct))

-- The sum of the amounts that the reasons name.
pub explained : List UpliftReason → ℕ
explained [] = 0
explained (r ∷ rs) = pos_part r.bps + explained rs

explained-append : (rs ss : List UpliftReason) → explained (rs ++ ss) ≡ explained rs + explained ss
unfolding explained
explained-append [] ss = omega arith
explained-append (r ∷ rs) ss = omega (arith, explained-append rs ss)

at_most-pos : (c n : ℕ) → at_most (pos c) (pos n) ≡ pos (min n c)
at_most-pos c n = ground arith

-- A total of n, all of it explained.
abbrev Explains : ℕ → Uplift → Type 0
Explains n (total, reasons) = (total ≡ pos n) × (explained reasons ≡ n)

add_reason-Explains :
    (n k : ℕ) (cause : Text) (u : Uplift)
    → n + k < 1000000
    → Explains n u
    → Explains (n + k) (add_reason (pos k) cause u)
unfolding explained
add_reason-Explains n k cause (total, reasons) small (e, f) =
    (rw e (+64-pos n k (omega arith)), rw explained-append (omega arith))

kept : (m k : ℕ) → m ≤ 600 → k ≤ 100 → pos m *64 pos k /64 pos 100 ≡ pos (m * k / 100)
kept m k small le =
    let product : m * k ≤ 600 * 100 = grind arith in
    rw (*64-pos m k (omega arith)) (/64-pos (m * k) 100 (omega arith))

keep_share-eq :
    (m : ℕ) (r : ℤ)
    → m ≤ 600
    → InRange r
    → keep_share (pos m) r ≡ pos (m * (100 - pos_part r) / 100)
unfolding keep_share
keep_share-eq m (negsuc r) small h = ground arith
keep_share-eq m (pos zero) small h = ground arith
keep_share-eq m (pos (suc r)) small h =
    rw (-64-truncated 100 (suc r) (omega arith) (omega arith), lt→ltb 0 (suc r + 0) (omega arith))
      (kept m (100 - suc r) small (omega arith))

cover_bps-eq :
    (w : ℕ) (c : TradingConditions)
    → w ≤ 36028797018963968
    → InRange c.refund_rate_pct
    → cover_bps (pos w) c ≡ pos (min (w * 150) 600 * (100 - pos_part c.refund_rate_pct) / 100)
unfolding cover_bps
cover_bps-eq w c small range =
    rw (*64-pos w 150 (omega arith), at_most-pos 600 (w * 150))
      (keep_share-eq (min (w * 150) 600) c.refund_rate_pct (omega arith) range)

-- The blocks add their parts to a total of n.
module _ (n : ℕ) (u : Uplift) (small : n < 10000) (h : Explains n u) where
  skip-Explains : {k : ℕ} → k ≡ 0 → Explains (n + k) u
  skip-Explains e = rw (e, add-zero) h

  -- A block that adds k where its test holds, and k > 0.
  add_positive-Explains :
      (b : Bool) (k : ℕ) (cause : Text)
      → k ≤ 600
      → Explains
          (n + (if b then k else 0))
          (if b then if ltb_ℤ (pos 0) (pos k) then add_reason (pos k) cause u else u else u)
  add_positive-Explains true zero cause le = skip-Explains refl
  add_positive-Explains true (suc k) cause le =
      rw (lt→ltb 0 (suc k + 0) (omega arith))
        (add_reason-Explains n (suc k) cause u (omega arith) h)
  add_positive-Explains false k cause le = skip-Explains refl

  add_cover-Explains :
      (w : ℤ) (c : TradingConditions)
      → w ≤ℤ signal_bound
      → InRange c.refund_rate_pct
      → Explains (n + cover_part w c) (add_cover w c u)
  unfolding add_cover
  add_cover-Explains (negsuc w) c low range =
      rw (le→ltb (0 + suc w) (0 + 0) (omega arith))
        (skip-Explains {k = cover_part (negsuc w) c} (ground arith))
  add_cover-Explains (pos zero) c low range =
      skip-Explains {k = cover_part (pos zero) c} (ground arith)
  add_cover-Explains (pos (suc w)) c low range =
      rw (cover_bps-eq (suc w) c (omega arith) range, lt→ltb 0 (suc w + 0) (omega arith))
        (add_positive-Explains c.refund_rate_known
          (min (suc w * 150) 600 * (100 - pos_part c.refund_rate_pct) / 100)
          (bytes "cover on the goods, priced against what comes back")
          (share_le (min (suc w * 150) 600) (100 - pos_part c.refund_rate_pct) (omega arith)
            (omega arith)))

  add_trust-Explains : (t : ℤ) → t ≤ℤ signal_bound → Explains (n + trust_part t) (add_trust t u)
  unfolding add_trust
  add_trust-Explains (negsuc t) low =
      rw (le→ltb (80 + suc t) (0 + 0) (omega arith))
        (skip-Explains {k = trust_part (negsuc t)} (omega arith))
  add_trust-Explains (pos t) low = elim (Bool-cases (ltb (80 + 0) (t + 0))) [
    | inl above ↦
        rw
          (
            above,
            -64-pos t 80 (ground arith) (omega arith),
            *64-pos (t - 80) 10 (omega arith),
            at_most-pos 300 ((t - 80) * 10),
          )
          (add_reason-Explains n (min ((t - 80) * 10) 300)
            (bytes "handling record above the shop's own floor") u (omega arith) h)
    | inr below ↦ rw below (skip-Explains {k = trust_part (pos t)} (ground arith))
  ]

  add_scarcity-Explains :
      (c : TradingConditions) → Explains (n + scarcity_part c) (add_scarcity c u)
  unfolding add_scarcity
  add_scarcity-Explains c =
      add_positive-Explains
        (c.observed
          && (leb_ℤ (pos 0) c.stock_cover_days
              && (leb_ℤ c.stock_cover_days (pos 7) && ltb_ℤ (pos 0) c.units_sold)))
        300 (bytes "stock is inside a week of cover at the current rate") (omega arith)

cap_uplift-Explains :
    (n : ℕ) (u : Uplift)
    → Explains n u
    → ((cap_uplift u).0 ≡ pos (min n 1200)) × (explained (cap_uplift u).1 ≡ n)
unfolding cap_uplift
cap_uplift-Explains n (total, reasons) (e, f) = rw e (elim (Bool-cases (ltb (1200 + 0) (n + 0))) [
  | inl above ↦ rw above (ground arith, rw explained-append (unfold explained in omega arith))
  | inr below ↦ rw below (ground arith, f)
])

-- For signals up to the bound, the uplift is the sum of the parts that cover, trust and scarcity
-- may each add, cut at 1200 basis points, and the reasons name amounts that make up that sum.
pub uplift_bps-eq :
    (w t : ℤ) (c : TradingConditions)
    → w ≤ℤ signal_bound
    → t ≤ℤ signal_bound
    → InRange c.refund_rate_pct
    → ((uplift_bps w t c).0 ≡ pos (min (full_uplift w t c) 1200))
      × (explained (uplift_bps w t c).1 ≡ full_uplift w t c)
unfolding uplift_bps
uplift_bps-eq w t c hw ht range =
    let start : Explains 0 (pos 0, []) = (refl, unfold explained in refl) in
    let low = cover_part_le w c in
    let cover = add_cover-Explains 0 (pos 0, []) (omega arith) start w c hw range in
    let trust =
      add_trust-Explains (0 + cover_part w c) (add_cover w c (pos 0, [])) (omega arith) cover t
        ht in
    let scarcity =
      add_scarcity-Explains (0 + cover_part w c + trust_part t)
        (add_trust t (add_cover w c (pos 0, []))) (omega arith) trust c in
    let capped =
      cap_uplift-Explains (0 + cover_part w c + trust_part t + scarcity_part c)
        (add_scarcity c (add_trust t (add_cover w c (pos 0, [])))) scarcity in
    rw zero-add at capped

-- Without a known refund rate and without an observed velocity the uplift and its reasons are
-- those of the trust score alone: they do not depend on the warranty or on the other figures.
pub uplift_bps_unproven :
    (w t : ℤ) (c : TradingConditions)
    → c.refund_rate_known ≡ false
    → c.observed ≡ false
    → uplift_bps w t c ≡ uplift_bps (pos 0) t unobserved
unfolding uplift_bps add_cover add_scarcity
uplift_bps_unproven w t c unknown unseen = ground arith
