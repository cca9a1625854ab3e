-- ===== src/Prelude/Float.antt =====
-- The float64 arithmetic of the source: `int64(float64(n) * c)` for a constant c, with the
-- rounding of IEEE 754. A finite float64 is a number of at most 53 bits times a power of 2, so
-- each step of the product is exact on numbers, but for one rounding.
use agent_mart.Prelude.Tests.{ltb, if◌then◌else◌, Bool-cases}
use agent_mart.Prelude.Int.{ℤ, pos, negsuc, sub_ℕ}
use agent_mart.Prelude.Int64.{wrap, wrap-eq}
use Prim.Native.Nat.{ℕ, zero, suc, ◌+◌, ◌*◌, ◌/◌, ◌%◌, ◌≤◌, ◌<◌}
use mathlib.Core.Path.{◌≡◌, refl}
use mathlib.Core.Logic.{◌⊎◌, inl, inr}
use native.Mathlib.Omega.{arith}
use native.Mathlib.Nat.{
  div-div-eq-div-mul, div-mul-le_self, div-le_of_le-mul, mul-one, mul-le-mul_right,
}

-- 2 ^ 53, as a numeral.
abbrev pub exact_bound : ℕ
exact_bound = 9007199254740992

-- The weight of the last bit that 53 bits leave of a number: a power of 2.
unit : ℕ → ℕ → ℕ
unit zero n = 1
unit (suc f) n = let rest = unit f (n / 2) in if ltb n exact_bound then 1 else 2 * rest

-- To the nearest multiple of u, and to an even one in the middle.
nearest : ℕ → ℕ → ℕ
nearest u n =
    let q = n / u in
    let r = n % u in (if ltb (2 * r) u then q else if ltb u (2 * r) then q + 1 else q + q % 2) * u

-- The rounding to 53 bits of a number below 2 ^ 181.
unfoldable pub round53 : ℕ → ℕ
unfolding unit nearest
round53 n = nearest (unit 128 n) n

-- A float64 constant m / d, d a power of 2.
pub record Constant : Type 0 where
  pub numerator : ℕ
  pub denominator : ℕ

unfoldable pub scale_ℕ : Constant → ℕ → ℕ
scale_ℕ c n = round53 (round53 n * c.numerator) / c.denominator

-- `int64(float64(z) * c)`. The conversion truncates toward zero; at the one value it cannot
-- hold, 2 ^ 63, it is the wrapped value of amd64.
unfoldable pub scale : Constant → ℤ → ℤ
scale c (pos n) = wrap (pos (scale_ℕ c n))
scale c (negsuc n) = wrap (sub_ℕ 0 (scale_ℕ c (suc n)))

halved :
    (f n : ℕ)
    → exact_bound ≤ n
    → (unit f (n / 2) ≡ 1) ⊎ ((3 ≤ n / 2 / unit f (n / 2)) × (0 < unit f (n / 2)))
    → (3 ≤ n / (2 * unit f (n / 2))) × (0 < 2 * unit f (n / 2))
halved f n h (inl e) = rw e (omega arith)
halved f n h (inr (big, positive)) = (rw div-div-eq-div-mul at big, omega arith)

-- A number above the bound keeps 52 bits.
unit_cases : (f n : ℕ) → (unit f n ≡ 1) ⊎ ((3 ≤ n / unit f n) × (0 < unit f n))
unfolding unit
unit_cases zero n = inl refl
unit_cases (suc f) n = elim (Bool-cases (ltb n exact_bound)) [
  | inl below ↦ inl (rw below)
  | inr above ↦ rw above (inr (halved f n (ground arith) (unit_cases f (n / 2))))
]

unit_exact : (f n : ℕ) → n < exact_bound → unit f n ≡ 1
unfolding unit
unit_exact zero n h = refl
unit_exact (suc f) n h = ground arith

-- Numbers below 2 ^ 53 are exact.
pub round53-eq : (n : ℕ) → n < exact_bound → round53 n ≡ n
unfolding round53
round53-eq n h = rw (unit_exact 128 n h) (ground arith)

mul_one_more : (q u : ℕ) → (q + 1) * u ≡ q * u + u
mul_one_more q u = omega arith

rounded_product : (x n m d : ℕ) → 3 * x ≤ 4 * (n * m) → 4 * m ≤ 3 * d → x ≤ d * n
rounded_product x n m d h k = let scaled = mul-le-mul_right n k in omega arith

-- Rounding moves a number by a third of it at most.
nearest-le : (u n : ℕ) → (u ≡ 1) ⊎ ((3 ≤ n / u) × (0 < u)) → 3 * nearest u n ≤ 4 * n
unfolding nearest
nearest-le u n (inl e) = rw e (ground arith)
nearest-le u n (inr (big, positive)) =
    let below = div-mul-le_self n u in
    let three : 3 * u ≤ n / u * u = grind arith in
    ground (arith, mul_one_more (n / u) u, below, three)

round53-le : (n : ℕ) → 3 * round53 n ≤ 4 * n
unfolding round53
round53-le n = nearest-le (unit 128 n) n (unit_cases 128 n)

-- Scaling by three quarters or less does not enlarge an exact number, rounding included.
pub scale_ℕ-le :
    (c : Constant) (n : ℕ)
    → 0 < c.denominator
    → 4 * c.numerator ≤ 3 * c.denominator
    → n < exact_bound
    → scale_ℕ c n ≤ n
unfolding scale_ℕ
scale_ℕ-le c n positive small h = rw (round53-eq n h) (
    div-le_of_le-mul c.denominator (
      rounded_product (round53 (n * c.numerator)) n c.numerator c.denominator
        (round53-le (n * c.numerator)) small))

-- Scaling by one keeps an exact number.
pub scale_ℕ_one :
    (n : ℕ) → n < exact_bound → scale_ℕ (record { numerator = 1; denominator = 1 }) n ≡ n
unfolding scale_ℕ
scale_ℕ_one n h = rw (round53-eq n h) (rw (mul-one, round53-eq n h) (omega arith))

module _ (c : Constant) (n : ℕ) (small : n < exact_bound) where
  -- Between 0 and the number scaled.
  pub scale_bounds :
      0 < c.denominator
      → 4 * c.numerator ≤ 3 * c.denominator
      → (k : ℕ) × (scale c (pos n) ≡ pos k) × (k ≤ n)
  unfolding scale
  scale_bounds positive le =
      let below = scale_ℕ-le c n positive le small in
      (scale_ℕ c n, wrap-eq (pos (scale_ℕ c n)) (omega arith), below)

pub scale_one :
    (n : ℕ) → n < exact_bound → scale (record { numerator = 1; denominator = 1 }) (pos n) ≡ pos n
unfolding scale
scale_one n h = rw (scale_ℕ_one n h) (wrap-eq (pos n) (omega arith))
