-- ===== src/Updates/Offset.antt =====
-- Properties of `redisOffsetStore` of cmd/user/offset_store.go.
use agent_mart.Prelude.{
  ℕ, zero, suc, ◌+◌, ◌*◌, ◌/◌, ◌%◌, ◌^◌, ◌≤◌, ◌<◌, true, false, Option, none, some, [], ◌∷◌, ◌++◌,
  ◌≡◌, refl, sym, ap, ◌∙◌, inl, inr, arith, Bool-cases, ltb, leb, ◌==◌, ◌||◌,
}
use agent_mart.Prelude.Int.{pos}
use agent_mart.Prelude.Text.{Text, is_empty}
use agent_mart.Prelude.Decimal.{digits, decimal_ℕ, decimal}
use agent_mart.Prelude.Result.{ok}
use agent_mart.Chat.Words.{digit, number, max_int, within}
use agent_mart.Updates.Intake.{save_offset, load_offset, scan_int, scanned, digits_of, natural}

-- One digit more.
abbrev shifted : ℕ → Option ℕ → Option ℕ
shifted c none = none
shifted c (some n) = some (n * 10 + c)

number-snoc :
    (s : Text) (acc c : ℕ) → c < 10 → number acc (s ++ ((c + 48) ∷ [])) ≡ shifted c (number acc s)
number-snoc [] acc c h = ground arith
number-snoc (d ∷ s) acc c h = elim (Bool-cases (digit d)) [
  | inl b ↦ rw b (number-snoc s (acc * 10 + d % 48) c h)
  | inr b ↦ rw b refl
]

-- What is printed is read back, with enough digits.
number-digits : (f n : ℕ) → n < 10 ^ f → number 0 (digits f n) ≡ some n
unfolding digits
number-digits zero n h = ground arith
number-digits (suc f) n h = elim (Bool-cases (ltb n 10)) [
  | inl b ↦ rw b (ground arith)
  | inr b ↦ rw b (
      number-snoc (digits f (n / 10)) 0 (n % 10) (omega arith)
      ∙ ap (shifted (n % 10)) (number-digits f (n / 10) (omega arith))
      ∙ ap some (omega arith))
]

is_empty-snoc : (s : Text) (c : ℕ) → is_empty (s ++ (c ∷ [])) ≡ false
is_empty-snoc [] c = refl
is_empty-snoc (d ∷ s) c = refl

is_empty-digits : (f n : ℕ) → is_empty (digits (suc f) n) ≡ false
unfolding digits
is_empty-digits f n = elim (Bool-cases (ltb n 10)) [
  | inl b ↦ rw b refl
  | inr b ↦ rw b (is_empty-snoc (digits f (n / 10)) _)
]

-- A text that reads as a number is digits to its end.
digits_of-number : (s : Text) (acc n : ℕ) → number acc s ≡ some n → digits_of s ≡ s
digits_of-number [] acc n h = refl
digits_of-number (c ∷ s) acc n h = elim (Bool-cases (digit c)) [
  | inl b ↦ let k = rw b at h in rw (b, digits_of-number s _ n k) refl
  | inr b ↦ absurd (let k = rw b at h in ground arith)
]

scan_int-number :
    (s : Text) (n : ℕ)
    → is_empty s ≡ false
    → number 0 s ≡ some n
    → n ≤ max_int
    → scan_int s ≡ some (pos n)
unfolding scan_int
scan_int-number [] n e h k = absurd (ground arith)
scan_int-number (c ∷ s) n e h k = elim (Bool-cases (digit c)) [
  | inr b ↦ absurd (let q = rw b at h in ground arith)
  | inl b ↦
      let sp : ((c == 32) || ((c == 9) || ((c == 11) || ((c == 12) || (c == 13))))) ≡ false =
        ground arith in
      let m : (c == 45) ≡ false = ground arith in
      let p : (c == 43) ≡ false = ground arith in
      let top : leb n max_int ≡ true = ground arith in
      rw (sp, m, p)
        (ap (λ x. within max_int (λ y. pos y) (natural x)) (digits_of-number (c ∷ s) 0 n h)
          ∙ ap (within max_int (λ y. pos y)) h
          ∙ rw top refl)
]

scanned-pos : (n : ℕ) → scanned (some (pos n)) ≡ ok (pos n)
scanned-pos n = ground arith

ok_injective : {A : Type 0} {a b : A} → ok a ≡ ok b → a ≡ b
ok_injective h = ground arith

-- An offset of at most the largest int that is saved is loaded again as it was.
pub load_offset-save_offset :
    (n : ℕ) (text : Text)
    → n ≤ max_int
    → save_offset (pos n) ≡ ok text
    → load_offset (ok (some text)) ≡ ok (pos n)
unfolding load_offset save_offset decimal decimal_ℕ
load_offset-save_offset n text h k =
    let e : digits 20 n ≡ text = ok_injective k in
    let r =
      scan_int-number (digits 20 n) n (is_empty-digits 19 n) (number-digits 20 n (omega arith)) h in
    ap (λ x. scanned (scan_int x)) (sym e) ∙ ap scanned r ∙ scanned-pos n
