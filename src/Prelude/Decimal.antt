-- ===== src/Prelude/Decimal.antt =====
-- How `fmt` prints an integer by `%d`, and an amount of paise as rupees by `%.2f`.
use agent_mart.Prelude.Tests.{ltb, if◌then◌else◌}
use agent_mart.Prelude.Int.{ℤ, pos, negsuc}
use agent_mart.Prelude.Text.{Text, bytes}
use Prim.Native.Nat.{ℕ, zero, suc, ◌+◌, ◌*◌, ◌/◌, ◌%◌}
use mathlib.Core.Path.{◌≡◌, refl}
use mathlib.Core.List.{[], ◌∷◌, ◌++◌}

-- The first argument bounds the number of digits.
unfoldable pub digits : ℕ → ℕ → Text
digits zero n = []
digits (suc f) n =
    let rest = digits f (n / 10) in if ltb n 10 then (n + 48) ∷ [] else rest ++ ((n % 10 + 48) ∷ [])

-- Twenty digits hold every 64-bit number.
unfoldable pub decimal_ℕ : ℕ → Text
unfolding digits
decimal_ℕ n = digits 20 n

unfoldable pub decimal : ℤ → Text
unfolding decimal_ℕ
decimal (pos n) = decimal_ℕ n
decimal (negsuc n) = bytes "-" ++ decimal_ℕ (suc n)

two_digits : ℕ → Text
two_digits n = (n / 10 + 48) ∷ (n % 10 + 48) ∷ []

-- `fmt.Sprintf("%.2f", float64(paise)/100)`, for amounts below 2 ^ 53, which a float64 holds.
unfoldable pub rupees : ℤ → Text
unfolding decimal_ℕ two_digits
rupees (pos n) = decimal_ℕ (n / 100) ++ (bytes "." ++ two_digits (n % 100))
rupees (negsuc n) =
    bytes "-" ++ (decimal_ℕ (suc n / 100) ++ (bytes "." ++ two_digits (suc n % 100)))

-- The number that digits stand for.
value : ℕ → Text → ℕ
value acc [] = acc
value acc (c ∷ s) = value (acc * 10 + c % 48) s

rupees_test : rupees (pos 181339) ≡ bytes "1813.39"
unfolding rupees
rupees_test = refl

decimal_test : decimal (negsuc 1204) ≡ bytes "-1205"
unfolding decimal
decimal_test = refl
