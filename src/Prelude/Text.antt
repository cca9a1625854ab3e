-- ===== src/Prelude/Text.antt =====
-- Go's strings: sequences of bytes. A literal is given by its characters, all ASCII here.
pub mod Visible
use agent_mart.Prelude.Tests.{leb, ◌==◌, if◌then◌else◌}
use Prim.Native.Nat.{ℕ, zero, suc, ◌≤◌}
use Prim.Native.Char.{code}
use Prim.Native.String.{String}
use mathlib.Core.Path.{◌≡◌, refl}
use mathlib.Core.Bool.{Bool, true, false, ◌&&◌, ◌||◌}
use mathlib.Core.List.{List, [], ◌∷◌, reverse}
use mathlib.Core.Option.{Option, some, none}
use native.Mathlib.Omega.{arith}

abbrev pub Text : Type 0
Text = List ℕ

abbrev pub bytes : String → Text
bytes String.[] = []
bytes (String.◌∷◌ c s) = code c ∷ bytes s

abbrev pub is_empty : Text → Bool
is_empty [] = true
is_empty (_ ∷ _) = false

abbrev pub length : Text → ℕ
length [] = 0
length (_ ∷ s) = suc (length s)

-- `s[:n]`, for `n` at most the length.
abbrev pub take : ℕ → Text → Text
take zero s = []
take (suc n) [] = []
take (suc n) (c ∷ s) = c ∷ take n s

-- The bytes at which two strings agree, one by one.
abbrev pub text_eq : Text → Text → Bool
text_eq [] [] = true
text_eq [] (_ ∷ _) = false
text_eq (_ ∷ _) [] = false
text_eq (a ∷ s) (b ∷ t) = (a == b) && text_eq s t

-- `unicode.IsSpace`, on the one, two or three bytes of UTF-8 that a space takes.
is_space : ℕ → Bool
is_space c = (leb 9 c && leb c 13) || (c == 32)

is_space_pair : ℕ → ℕ → Bool
is_space_pair a b = (a == 0xc2) && ((b == 0x85) || (b == 0xa0))

is_space_triple : ℕ → ℕ → ℕ → Bool
is_space_triple a b c =
    ((a == 0xe1) && ((b == 0x9a) && (c == 0x80)))
    || (((a == 0xe2)
          && ((b == 0x80)
              && ((leb 0x80 c && leb c 0x8a) || ((c == 0xa8) || ((c == 0xa9) || (c == 0xaf))))))
        || (((a == 0xe2) && ((b == 0x81) && (c == 0x9f)))
            || ((a == 0xe3) && ((b == 0x80) && (c == 0x80)))))

-- Drops the spaces that a string begins with; the tests take the bytes in the order read.
strip : (ℕ → ℕ → Bool) → (ℕ → ℕ → ℕ → Bool) → Text → Text
unfolding is_space
strip two three [] = []
strip two three (a ∷ []) = if is_space a then [] else a ∷ []
strip two three (a ∷ b ∷ []) =
    let rest = strip two three (b ∷ []) in
    if is_space a then rest else if two a b then [] else a ∷ b ∷ []
strip two three (a ∷ b ∷ c ∷ s) =
    let rest1 = strip two three (b ∷ c ∷ s) in
    let rest2 = strip two three (c ∷ s) in
    let rest3 = strip two three s in
    if is_space a
    then rest1
    else if two a b
    then rest2
    else if three a b c
    then rest3
    else a ∷ b ∷ c ∷ s

-- `strings.TrimSpace`.
unfoldable pub trim_space : Text → Text
unfolding strip is_space_pair is_space_triple
trim_space s = reverse (
    strip (λ a b. is_space_pair b a) (λ a b c. is_space_triple c b a)
      (reverse (strip is_space_pair is_space_triple s)))

-- A word that was begun, and the words after it.
begun : Text × List Text → List Text
begun ([], ws) = ws
begun (c ∷ w, ws) = (c ∷ w) ∷ ws

longer : ℕ → Text × List Text → Text × List Text
longer c (w, ws) = (c ∷ w, ws)

words : Text → Text × List Text
unfolding is_space is_space_pair is_space_triple begun longer
words [] = ([], [])
words (a ∷ []) = if is_space a then ([], []) else (a ∷ [], [])
words (a ∷ b ∷ []) =
    let rest = words (b ∷ []) in
    if is_space a then ([], begun rest) else if is_space_pair a b then ([], []) else longer a rest
words (a ∷ b ∷ c ∷ s) =
    let rest1 = words (b ∷ c ∷ s) in
    let rest2 = words (c ∷ s) in
    let rest3 = words s in
    if is_space a
    then ([], begun rest1)
    else if is_space_pair a b
    then ([], begun rest2)
    else if is_space_triple a b c
    then ([], begun rest3)
    else longer a rest1

-- `strings.Fields`.
unfoldable pub fields : Text → List Text
unfolding begun words
fields s = begun (words s)

fields_spaces : fields (bytes "  /buy  lamp 2 ") ≡ bytes "/buy" ∷ bytes "lamp" ∷ bytes "2" ∷ []
unfolding fields
fields_spaces = refl

abbrev pub or_later : Option Text → Option Text → Option Text
or_later (some s) t = some s
or_later none t = t

-- `strings.CutPrefix`, `none` without the prefix.
abbrev pub cut_prefix : Text → Text → Option Text
cut_prefix [] s = some s
cut_prefix (c ∷ p) [] = none
cut_prefix (c ∷ p) (d ∷ s) = if c == d then cut_prefix p s else none

-- What follows the first occurrence of a marker, `none` without one.
abbrev pub after : Text → Text → Option Text
after m [] = cut_prefix m []
after m (c ∷ s) = or_later (cut_prefix m (c ∷ s)) (after m s)

trim_space_spaces : trim_space (bytes "  ab c ") ≡ bytes "ab c"
unfolding trim_space
trim_space_spaces = refl

pub text_eq_refl : (s : Text) → text_eq s s ≡ true
text_eq_refl [] = refl
text_eq_refl (a ∷ s) = ground (arith, text_eq_refl s)

pub eq_of_text_eq : (s t : Text) → text_eq s t ≡ true → s ≡ t
eq_of_text_eq [] [] h = refl
eq_of_text_eq [] (b ∷ t) h = ground arith
eq_of_text_eq (a ∷ s) [] h = ground arith
eq_of_text_eq (a ∷ s) (b ∷ t) h = ground (arith, eq_of_text_eq s t)

pub length-take : (n : ℕ) (s : Text) → length (take n s) ≤ n
length-take zero s = omega arith
length-take (suc n) [] = omega arith
length-take (suc n) (c ∷ s) = omega (arith, length-take n s)
