-- ===== src/Trading/Totals.antt =====
-- Properties of `SalesFacts` of internal/razorpay/sales.go.
use agent_mart.Prelude.{
  ℕ, suc, ◌+◌, ◌*◌, ◌/◌, ◌^◌, ◌<◌, ◌≡◌, refl, ap, ◌∙◌, inl, inr, Bool, true, false, List, [], ◌∷◌,
  arith, Bool-cases, if◌then◌else◌, not, ltb,
}
use native.Mathlib.Nat.{div-le_self}
use agent_mart.Prelude.Int.{ℤ, pos, pos_part, ◌≤ℤ◌, ltb_ℤ}
use agent_mart.Prelude.Int64.{+64-pos, *64-pos, /64-pos}
use agent_mart.Prelude.Result.{ok}
use agent_mart.Trading.Sales.{
  SalesFacts, Entry, no_facts, is_captured, is_processed, count_payment, count_payments,
  count_refund, count_refunds, with_average, with_rate, sales_facts,
}

-- How many entries pass the test, and what they sum up to.
abbrev pub how_many : (Entry → Bool) → List Entry → ℕ
how_many test [] = 0
how_many test (e ∷ es) = if test e then suc (how_many test es) else how_many test es

abbrev pub total : (Entry → Bool) → List Entry → ℕ
total test [] = 0
total test (e ∷ es) = if test e then pos_part e.amount + total test es else total test es

-- No amount is negative.
abbrev pub NonNegative : List Entry → Type 0
NonNegative [] = Unit {0}
NonNegative (e ∷ es) = (pos 0 ≤ℤ e.amount) × NonNegative es

abbrev not_captured : Entry → Bool
not_captured e = not (is_captured e)

-- The figures that the entries alone determine.
abbrev pub reference : List Entry → List Entry → SalesFacts
reference ps rs = record {
  captured_count = pos (how_many is_captured ps);
  captured_paise = pos (total is_captured ps);
  refunded_count = pos (how_many is_processed rs);
  refunded_paise = pos (total is_processed rs);
  ignored_count = pos (how_many not_captured ps);
  refund_rate_pct =
      if ltb 0 (total is_captured ps)
      then pos (total is_processed rs * 100 / total is_captured ps)
      else pos 0;
  average_capture =
      if ltb 0 (how_many is_captured ps)
      then pos (total is_captured ps / how_many is_captured ps)
      else pos 0;
}

abbrev pub length : List Entry → ℕ
length [] = 0
length (_ ∷ es) = suc (length es)

abbrev counted : ℕ → ℕ → ℕ → SalesFacts
counted n s i = record no_facts {
  captured_count = pos n;
  captured_paise = pos s;
  ignored_count = pos i;
}

counted-eq : {n n' s s' i i' : ℕ} → n ≡ n' → s ≡ s' → i ≡ i' → counted n s i ≡ counted n' s' i'
counted-eq a b c = rw (a, b, c) refl

nonnegative : (z : ℤ) → pos 0 ≤ℤ z → z ≡ pos (pos_part z)
nonnegative z h = ground arith

capture :
    (p : Entry) (n s i : ℕ)
    → is_captured p ≡ true
    → pos 0 ≤ℤ p.amount
    → n + 1 < 2 ^ 63
    → s + pos_part p.amount < 2 ^ 63
    → count_payment p (counted n s i) ≡ counted (n + 1) (s + pos_part p.amount) i
capture p n s i c h a b =
    rw (c, nonnegative p.amount h, +64-pos n 1 a, +64-pos s (pos_part p.amount) b) refl

ignore :
    (p : Entry) (n s i : ℕ)
    → is_captured p ≡ false
    → i + 1 < 2 ^ 63
    → count_payment p (counted n s i) ≡ counted n s (i + 1)
ignore p n s i c a = rw (c, +64-pos i 1 a) refl

count_payments-eq :
    (ps : List Entry) (n s i : ℕ)
    → NonNegative ps
    → s + total is_captured ps < 2 ^ 63
    → n + i + length ps < 2 ^ 63
    → count_payments ps (counted n s i)
      ≡ counted
          (n + how_many is_captured ps)
          (s + total is_captured ps)
          (i + how_many not_captured ps)
unfolding count_payments
count_payments-eq [] n s i h a b = counted-eq (omega arith) (omega arith) (omega arith)
count_payments-eq (p ∷ ps) n s i h a b = elim (Bool-cases (is_captured p)) [
  | inl c ↦
      let k = rw c at a in
      ap (count_payments ps) (capture p n s i c h.0 (omega arith) (omega arith))
      ∙ count_payments-eq ps (n + 1) (s + pos_part p.amount) i h.1 (omega arith) (omega arith)
      ∙ counted-eq (rw c (omega arith)) (rw c (omega arith)) (rw c refl)
  | inr c ↦
      let k = rw c at a in
      ap (count_payments ps) (ignore p n s i c (omega arith))
      ∙ count_payments-eq ps n s (i + 1) h.1 (omega arith) (omega arith)
      ∙ counted-eq (rw c refl) (rw c refl) (rw c (omega arith))
]

abbrev refunded : SalesFacts → ℕ → ℕ → SalesFacts
refunded f n s = record f { refunded_count = pos n; refunded_paise = pos s }

refunded-eq : {n n' s s' : ℕ} (f : SalesFacts) → n ≡ n' → s ≡ s' → refunded f n s ≡ refunded f n' s'
refunded-eq f a b = rw (a, b) refl

refund_one :
    (f : SalesFacts) (r : Entry) (n s : ℕ)
    → is_processed r ≡ true
    → pos 0 ≤ℤ r.amount
    → n + 1 < 2 ^ 63
    → s + pos_part r.amount < 2 ^ 63
    → count_refund r (refunded f n s) ≡ refunded f (n + 1) (s + pos_part r.amount)
refund_one f r n s c h a b =
    rw (c, nonnegative r.amount h, +64-pos n 1 a, +64-pos s (pos_part r.amount) b) refl

count_refunds-eq :
    (f : SalesFacts) (rs : List Entry) (n s : ℕ)
    → NonNegative rs
    → s + total is_processed rs < 2 ^ 63
    → n + length rs < 2 ^ 63
    → count_refunds rs (refunded f n s)
      ≡ refunded f (n + how_many is_processed rs) (s + total is_processed rs)
unfolding count_refunds
count_refunds-eq f [] n s h a b = refunded-eq f (omega arith) (omega arith)
count_refunds-eq f (r ∷ rs) n s h a b = elim (Bool-cases (is_processed r)) [
  | inl c ↦
      let k = rw c at a in
      ap (count_refunds rs) (refund_one f r n s c h.0 (omega arith) (omega arith))
      ∙ count_refunds-eq f rs (n + 1) (s + pos_part r.amount) h.1 (omega arith) (omega arith)
      ∙ refunded-eq f (rw c (omega arith)) (rw c (omega arith))
  | inr c ↦ let k = rw c at a in rw c (count_refunds-eq f rs n s h.1 (omega arith) (omega arith))
]

quotient_small : (a b : ℕ) → a < 2 ^ 63 → a / b < 2 ^ 63
quotient_small a b h = let k = div-le_self a b in omega arith

positive : (n : ℕ) → ltb_ℤ (pos 0) (pos n) ≡ ltb 0 n
positive n = ground arith

averages :
    (f : SalesFacts) (c s : ℕ)
    → s < 2 ^ 63
    → with_average
        (record f { captured_count = pos c; captured_paise = pos s; average_capture = pos 0 })
      ≡ record f {
        captured_count = pos c;
        captured_paise = pos s;
        average_capture = if ltb 0 c then pos (s / c) else pos 0;
      }
averages f c s h = elim (Bool-cases (ltb 0 c)) [
  | inl k ↦ rw (k, positive c ∙ k, /64-pos s c (quotient_small s c h)) refl
  | inr k ↦ rw (k, positive c ∙ k) refl
]

rates :
    (f : SalesFacts) (r s : ℕ)
    → r * 100 < 2 ^ 63
    → with_rate
        (record f { captured_paise = pos s; refunded_paise = pos r; refund_rate_pct = pos 0 })
      ≡ record f {
        captured_paise = pos s;
        refunded_paise = pos r;
        refund_rate_pct = if ltb 0 s then pos (r * 100 / s) else pos 0;
      }
rates f r s h = elim (Bool-cases (ltb 0 s)) [
  | inl k ↦
      rw (k, positive s ∙ k, *64-pos r 100 h, /64-pos (r * 100) s (quotient_small (r * 100) s h))
        refl
  | inr k ↦ rw (k, positive s ∙ k) refl
]

-- For amounts that are not negative and totals and counts that an int64 holds, the refunds a
-- hundredfold, the figures are the numbers and the sums of the captured payments and of the
-- processed refunds, the number of the other payments, the refunded share of the captured money in
-- percent and the average captured payment, each rounded down, and zero where nothing was
-- captured.
pub sales_facts-eq :
    (ps rs : List Entry)
    → NonNegative ps
    → NonNegative rs
    → total is_captured ps < 2 ^ 63
    → total is_processed rs * 100 < 2 ^ 63
    → length ps < 2 ^ 63
    → length rs < 2 ^ 63
    → sales_facts (ok ps) (ok rs) ≡ ok (reference ps rs)
unfolding sales_facts
sales_facts-eq ps rs hp hr a b c d =
    let n = how_many is_captured ps in
    let s = total is_captured ps in
    let i = how_many not_captured ps in
    let m = how_many is_processed rs in
    let r = total is_processed rs in
    ap ok (
      ap (λ f. with_rate (with_average (count_refunds rs f)))
        (count_payments-eq ps 0 0 0 hp (omega arith) (omega arith)
          ∙ counted-eq (omega arith) (omega arith) (omega arith))
      ∙ ap (λ f. with_rate (with_average f))
          (count_refunds-eq (counted n s i) rs 0 0 hr (omega arith) (omega arith)
            ∙ refunded-eq (counted n s i) (omega arith) (omega arith))
      ∙ ap with_rate (averages (refunded (counted n s i) m r) n s a)
      ∙ rates
          (record (refunded (counted n s i) m r) {
            average_capture = if ltb 0 n then pos (s / n) else pos 0;
          })
          r s b)
