-- ===== src/Prelude/Int64.antt =====
-- Go's `int64`, and `int` on a 64-bit platform: integers whose sums, differences, products and
-- quotients wrap to two's complement.
use agent_mart.Prelude.Tests.{ltb, if◌then◌else◌}
use agent_mart.Prelude.Int.{
  ℤ, pos, negsuc, pos_part, neg_part, ◌+ℤ◌, ◌-ℤ◌, ◌*ℤ◌, quot, *ℤ-pos, ltb_ℤ,
}
use Prim.Native.Nat.{ℕ, ◌+◌, ◌-◌, ◌*◌, ◌/◌, ◌%◌, ◌^◌, ◌≤◌, ◌<◌}
use mathlib.Core.Path.{◌≡◌}
use native.Mathlib.Omega.{arith}

-- The bit pattern of an integer, and the integer that a pattern stands for.
abbrev to_bits : ℤ → ℕ
to_bits (pos n) = n % 2 ^ 64
to_bits (negsuc n) = 2 ^ 64 - 1 - n % 2 ^ 64

abbrev of_bits : ℕ → ℤ
of_bits n = if ltb n (2 ^ 63) then pos n else negsuc (2 ^ 64 - 1 - n)

unfoldable pub wrap : ℤ → ℤ
wrap z = of_bits (to_bits z)

abbrev pub max_int64 : ℤ
max_int64 = pos 9223372036854775807

infixl 65 ◌+64◌ ◌-64◌
infixl 70 ◌*64◌ ◌/64◌
unfoldable pub ◌+64◌ : ℤ → ℤ → ℤ
unfolding wrap ◌+ℤ◌
a +64 b = wrap (a +ℤ b)

unfoldable pub ◌-64◌ : ℤ → ℤ → ℤ
unfolding wrap ◌-ℤ◌
a -64 b = wrap (a -ℤ b)

unfoldable pub ◌*64◌ : ℤ → ℤ → ℤ
unfolding wrap ◌*ℤ◌
a *64 b = wrap (a *ℤ b)

-- Go panics on a zero divisor: every division of the source is by a constant or behind a guard.
unfoldable pub ◌/64◌ : ℤ → ℤ → ℤ
unfolding wrap quot
a /64 b = wrap (quot a b)

-- The values that the type holds.
abbrev pub InRange : ℤ → Type 0
InRange z = (pos_part z < 2 ^ 63) × (neg_part z ≤ 2 ^ 63)

pub wrap-InRange : (z : ℤ) → InRange (wrap z)
unfolding wrap
wrap-InRange z = ground arith

pub wrap-eq : (z : ℤ) → InRange z → wrap z ≡ z
unfolding wrap
wrap-eq z h = ground arith

pub +64-eq : (a b : ℤ) → InRange (a +ℤ b) → a +64 b ≡ a +ℤ b
unfolding ◌+64◌
+64-eq a b h = wrap-eq (a +ℤ b) h

pub -64-eq : (a b : ℤ) → InRange (a -ℤ b) → a -64 b ≡ a -ℤ b
unfolding ◌-64◌
-64-eq a b h = wrap-eq (a -ℤ b) h

pub *64-eq : (a b : ℤ) → InRange (a *ℤ b) → a *64 b ≡ a *ℤ b
unfolding ◌*64◌
*64-eq a b h = wrap-eq (a *ℤ b) h

pub /64-eq : (a b : ℤ) → InRange (quot a b) → a /64 b ≡ quot a b
unfolding ◌/64◌
/64-eq a b h = wrap-eq (quot a b) h

-- On numbers that do not overflow the operations are those of the naturals.
pub +64-pos : (a b : ℕ) → a + b < 2 ^ 63 → pos a +64 pos b ≡ pos (a + b)
unfolding ◌+64◌
+64-pos a b h = ground arith

pub *64-pos : (a b : ℕ) → a * b < 2 ^ 63 → pos a *64 pos b ≡ pos (a * b)
*64-pos a b h = rw (← *ℤ-pos a b) (*64-eq (pos a) (pos b) (rw *ℤ-pos (omega arith)))

pub /64-pos : (a b : ℕ) → a / b < 2 ^ 63 → pos a /64 pos b ≡ pos (a / b)
unfolding ◌/64◌
/64-pos a b h = ground arith

pub -64-pos : (a b : ℕ) → b ≤ a → a < 2 ^ 63 → pos a -64 pos b ≡ pos (a - b)
unfolding ◌-64◌
-64-pos a b h k = ground arith

-- Counting down to 0: what is left of a number under a larger one is negative.
pub -64-truncated :
    (a b : ℕ)
    → a < 2 ^ 63
    → b < 2 ^ 63
    → (if ltb_ℤ (pos a -64 pos b) (pos 0) then pos 0 else (pos a -64 pos b)) ≡ pos (a - b)
unfolding ◌-64◌
-64-truncated a b h k = ground arith
