-- ===== src/Prelude/Text/Visible.antt =====
-- Visible ASCII under `strings.TrimSpace` and `strings.Fields`.
use Prim.Native.Nat.{ℕ, ◌≤◌}
use mathlib.Core.Path.{◌≡◌, refl, sym, ap, ◌∙◌}
use mathlib.Core.Bool.{Bool, false}
use mathlib.Core.List.{[], ◌∷◌, ◌++◌, reverse, reverse-append, reverse-reverse}
use native.Mathlib.Omega.{arith}
use agent_mart.Prelude.Text.{
  Text, trim_space, fields, strip, is_space, is_space_pair, is_space_triple, begun, longer, words,
}

-- Only visible ASCII.
abbrev pub Visible : Text → Type 0
Visible [] = Unit {0}
Visible (c ∷ s) = (33 ≤ c) × (c ≤ 126) × Visible s

strip_whole :
    (two : ℕ → ℕ → Bool) (three : ℕ → ℕ → ℕ → Bool) (a : ℕ)
    → is_space a ≡ false
    → ((b : ℕ) → two a b ≡ false)
    → ((b c : ℕ) → three a b c ≡ false)
    → (s : Text) → strip two three (a ∷ s) ≡ a ∷ s
unfolding strip
strip_whole two three a h k l [] = rw h refl
strip_whole two three a h k l (b ∷ []) = rw (h, k b) refl
strip_whole two three a h k l (b ∷ c ∷ s) = rw (h, k b, l b c) refl

first_byte :
    (a : ℕ)
    → 33 ≤ a
    → a ≤ 126
    → (is_space a ≡ false)
      × ((b : ℕ) → is_space_pair a b ≡ false)
      × ((b c : ℕ) → is_space_triple a b c ≡ false)
      × ((b : ℕ) → is_space_pair b a ≡ false)
      × ((b c : ℕ) → is_space_triple c b a ≡ false)
unfolding is_space is_space_pair is_space_triple
first_byte a h k =
    (ground arith, λ b. ground arith, λ b c. ground arith, λ b. ground arith, λ b c. ground arith)

-- A text that begins and ends visibly is not trimmed.
pub trim_space_whole :
    (a b : ℕ) (s t : Text)
    → (33 ≤ a) × (a ≤ 126)
    → (33 ≤ b) × (b ≤ 126)
    → a ∷ s ≡ t ++ (b ∷ [])
    → trim_space (a ∷ s) ≡ a ∷ s
unfolding trim_space
trim_space_whole a b s t ha hb e =
    let (a1, a2, a3, _, _) = first_byte a ha.0 ha.1 in
    let (b1, _, _, b2, b3) = first_byte b hb.0 hb.1 in
    ap
      (λ x. reverse (strip (λ a b. is_space_pair b a) (λ a b c. is_space_triple c b a) (reverse x)))
      (strip_whole is_space_pair is_space_triple a a1 a2 a3 s)
    ∙ ap
        (λ x.
          reverse (strip (λ a b. is_space_pair b a) (λ a b c. is_space_triple c b a) (reverse x)))
        e
    ∙ ap (λ x. reverse (strip (λ a b. is_space_pair b a) (λ a b c. is_space_triple c b a) x))
        (reverse-append t (b ∷ []))
    ∙ ap reverse (
        strip_whole (λ a b. is_space_pair b a) (λ a b c. is_space_triple c b a) b b1 b2 b3
          (reverse t))
    ∙ ap reverse (sym (reverse-append t (b ∷ [])))
    ∙ reverse-reverse (t ++ (b ∷ []))
    ∙ sym e

words_one : (s : Text) → Visible s → words s ≡ (s, [])
unfolding words longer
words_one [] h = refl
words_one (a ∷ []) h = rw (first_byte a h.0 h.1).0 refl
words_one (a ∷ b ∷ []) h =
    let v = first_byte a h.0 h.1 in rw (v.0, v.1 b) (ap (longer a) (words_one (b ∷ []) h.2))
words_one (a ∷ b ∷ c ∷ s) h =
    let v = first_byte a h.0 h.1 in
    rw (v.0, v.1 b, v.2 b c) (ap (longer a) (words_one (b ∷ c ∷ s) h.2))

words_word : (u rest : Text) → Visible u → words (u ++ (32 ∷ rest)) ≡ (u, begun (words rest))
unfolding words longer is_space is_space_pair is_space_triple
words_word [] [] h = refl
words_word [] (c ∷ []) h = refl
words_word [] (c ∷ d ∷ s) h = refl
words_word (a ∷ []) [] h =
    let v = first_byte a h.0 h.1 in rw (v.0, v.1 32) (ap (longer a) (words_word [] [] tt))
words_word (a ∷ []) (c ∷ s) h =
    let v = first_byte a h.0 h.1 in
    rw (v.0, v.1 32, v.2 32 c) (ap (longer a) (words_word [] (c ∷ s) tt))
words_word (a ∷ b ∷ []) rest h =
    let v = first_byte a h.0 h.1 in
    rw (v.0, v.1 b, v.2 b 32) (ap (longer a) (words_word (b ∷ []) rest h.2))
words_word (a ∷ b ∷ c ∷ u) rest h =
    let v = first_byte a h.0 h.1 in
    rw (v.0, v.1 b, v.2 b c) (ap (longer a) (words_word (b ∷ c ∷ u) rest h.2))

-- Two visible words with a space between them.
pub fields_two :
    (a b : ℕ) (u v : Text)
    → Visible (a ∷ u)
    → Visible (b ∷ v)
    → fields ((a ∷ u) ++ (32 ∷ b ∷ v)) ≡ (a ∷ u) ∷ (b ∷ v) ∷ []
unfolding fields begun
fields_two a b u v hu hv =
    ap begun (words_word (a ∷ u) (b ∷ v) hu) ∙ ap (λ x. (a ∷ u) ∷ begun x) (words_one (b ∷ v) hv)

-- The last byte of a visible text.
pub last_byte :
    (c : ℕ) (s : Text)
    → Visible (c ∷ s)
    → (t : Text) × (b : ℕ) × (c ∷ s ≡ t ++ (b ∷ [])) × (33 ≤ b) × (b ≤ 126)
last_byte c [] h = ([], c, refl, h.0, h.1)
last_byte c (d ∷ s) h =
    let (t, b, e, low, high) = last_byte d s h.2 in (c ∷ t, b, ap (λ x. c ∷ x) e, low, high)
