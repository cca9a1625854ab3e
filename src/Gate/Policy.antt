-- ===== src/Gate/Policy.antt =====
-- What the policy of internal/gate/gate.go authorises, in the arithmetic of the integers.
use agent_mart.Prelude.{
  ℕ, ◌+◌, ◌*◌, ◌/◌, ◌≤◌, ◌<◌, ◌≡◌, ◌≢◌, ◌↔◌, ◌⊎◌, inl, inr, true, false, ◌&&◌, ◌||◌, not, sym,
  arith, [], ◌∙◌,
}
use agent_mart.Prelude.Int.{
  ℤ, pos, negsuc, ◌+ℤ◌, ◌*ℤ◌, ◌≤ℤ◌, ◌<ℤ◌, ltb_ℤ, leb_ℤ, eqb_ℤ, *ℤ-pos, eq_of_parts, +ℤ_parts,
  -ℤ_parts,
}
use agent_mart.Prelude.Int64.{max_int64, ◌*64◌, ◌/64◌, *64-pos, /64-pos}
use agent_mart.Prelude.Text.{is_empty}
use agent_mart.Gate.Defs.{
  Time, Duration, time_sub, Request, approved, is_zero, rejection_reason, human_approval_required,
  stale_price,
}

-- Seen at a known time, at most the given age ago and not in the future.
abbrev pub IsFresh : Request → Duration → Type 0
IsFresh r age =
    (r.now ≢ pos 0)
    × (r.price_observed_at ≢ pos 0)
    × (r.now ≤ℤ r.price_observed_at +ℤ age)
    × (r.price_observed_at ≤ℤ r.now)

-- The purchases that the policy describes, without machine arithmetic.
pub record IsAuthorised (r : Request) (age : Duration) : Type 0 where
  pub account_named : r.account_id ≢ []
  pub product_named : r.product_id ≢ []
  pub quantity_pos : pos 0 <ℤ r.quantity
  pub price_pos : pos 0 <ℤ r.unit_price_paise
  pub final_pos : pos 0 <ℤ r.final_amount_paise
  pub base_exact : r.base_amount_paise ≡ r.unit_price_paise *ℤ r.quantity
  pub base_fits : r.base_amount_paise ≤ℤ max_int64
  pub in_stock : r.quantity ≤ℤ r.stock
  pub within_limit :
      (r.human_approved ≡ true)
      ⊎ (pos 0 <ℤ r.spend_limit_paise) × (r.final_amount_paise ≤ℤ r.spend_limit_paise)
  pub affordable : r.final_amount_paise ≤ℤ r.wallet_balance_paise
  pub fresh : (r.human_approved ≡ true) ⊎ IsFresh r age

-- The overflow guard `a > max / b` and the product.
mul-le_of_le-div : (a b m : ℕ) → 0 < b → a ≤ m / b → a * b ≤ m
mul-le_of_le-div a b m h k = grind arith

le-div_of_mul-le : (a b m : ℕ) → 0 < b → a * b ≤ m → a ≤ m / b
le-div_of_mul-le a b m h k = grind arith

-- The guards of the amounts, and the product that they protect.
mul_fits :
    (u q : ℤ)
    → pos 0 <ℤ u
    → pos 0 <ℤ q
    → u ≤ℤ (max_int64 /64 q)
    → (u *64 q ≡ u *ℤ q) × (u *ℤ q ≤ℤ max_int64)
mul_fits (pos u) (pos q) hu hq h =
    let guard : u + 0 ≤ 9223372036854775807 / q + 0 =
      rw (/64-pos 9223372036854775807 q (omega arith)) at h in
    let fits = mul-le_of_le-div u q 9223372036854775807 (omega arith) (omega arith) in
    (rw (*64-pos u q (omega arith), *ℤ-pos), rw *ℤ-pos (omega (arith, fits)))
mul_fits (pos u) (negsuc q) hu hq h = absurd (omega arith)
mul_fits (negsuc u) q hu hq h = absurd (omega arith)

fits_guard :
    (u q : ℤ)
    → pos 0 <ℤ u
    → pos 0 <ℤ q
    → u *ℤ q ≤ℤ max_int64
    → (u *64 q ≡ u *ℤ q) × (u ≤ℤ (max_int64 /64 q)) × (pos 0 <ℤ u *ℤ q)
fits_guard (pos u) (pos q) hu hq h =
    let fits : u * q + 0 ≤ 9223372036854775807 + 0 = rw *ℤ-pos at h in
    let guard = le-div_of_mul-le u q 9223372036854775807 (omega arith) (omega arith) in
    (
      rw (*64-pos u q (omega arith), *ℤ-pos),
      rw (/64-pos 9223372036854775807 q (omega arith)) (omega (arith, guard)),
      rw *ℤ-pos (grind arith),
    )
fits_guard (pos u) (negsuc q) hu hq h = absurd (omega arith)
fits_guard (negsuc u) q hu hq h = absurd (omega arith)

-- `time_sub` keeps the order to every age below the largest duration.
time_sub-le_iff :
    (t u : Time) (age : Duration)
    → age <ℤ max_int64
    → u ≤ℤ t
    → (time_sub t u ≤ℤ age) ↔ (t ≤ℤ u +ℤ age)
unfolding time_sub
time_sub-le_iff t u age h k = (
  λ a. ground (arith, -ℤ_parts t u, +ℤ_parts u age),
  λ a. ground (arith, -ℤ_parts t u, +ℤ_parts u age),
)

module _ (r : Request) (age : Duration) (h : rejection_reason r age ≡ approved) where
  approved_identity : (r.account_id ≢ []) × (r.product_id ≢ [])
  unfolding rejection_reason
  approved_identity = ground arith

  approved_positive :
      (pos 0 <ℤ r.quantity) × (pos 0 <ℤ r.unit_price_paise) × (pos 0 <ℤ r.final_amount_paise)
  unfolding rejection_reason
  approved_positive = ground arith

  approved_guard : r.unit_price_paise ≤ℤ (max_int64 /64 r.quantity)
  unfolding rejection_reason
  approved_guard = ground arith

  approved_base : r.base_amount_paise ≡ r.unit_price_paise *64 r.quantity
  unfolding rejection_reason
  approved_base =
      ground (arith, eq_of_parts r.base_amount_paise (r.unit_price_paise *64 r.quantity))

  approved_stock : r.quantity ≤ℤ r.stock
  unfolding rejection_reason
  approved_stock = ground arith

  approved_limit :
      (r.human_approved ≡ true)
      ⊎ (pos 0 <ℤ r.spend_limit_paise) × (r.final_amount_paise ≤ℤ r.spend_limit_paise)
  unfolding rejection_reason
  approved_limit = ground arith

  approved_balance : r.final_amount_paise ≤ℤ r.wallet_balance_paise
  unfolding rejection_reason
  approved_balance = ground arith

  approved_age :
      (r.human_approved ≡ true)
      ⊎ (r.now ≢ pos 0)
        × (r.price_observed_at ≢ pos 0)
        × (time_sub r.now r.price_observed_at ≤ℤ age)
        × (r.price_observed_at ≤ℤ r.now)
  unfolding rejection_reason
  approved_age = ground arith

  approved-IsAuthorised : age <ℤ max_int64 → IsAuthorised r age
  approved-IsAuthorised k =
      let (priced, fits) =
        mul_fits r.unit_price_paise r.quantity approved_positive.1 approved_positive.0
          approved_guard in
      let base = approved_base ∙ priced in
      record {
        account_named = approved_identity.0;
        product_named = approved_identity.1;
        quantity_pos = approved_positive.0;
        price_pos = approved_positive.1;
        final_pos = approved_positive.2;
        base_exact = base;
        base_fits = rw base fits;
        in_stock = approved_stock;
        within_limit = approved_limit;
        affordable = approved_balance;
        fresh = elim approved_age [
          | inl a ↦ inl a
          | inr f ↦ inr (f.0, f.1, (time_sub-le_iff r.now r.price_observed_at age k f.3).0 f.2, f.3)
        ];
      }

module _ (r : Request) (age : Duration) (k : age <ℤ max_int64) (h : IsAuthorised r age) where
  authorised_amounts :
      (r.base_amount_paise ≡ r.unit_price_paise *64 r.quantity)
      × (r.unit_price_paise ≤ℤ (max_int64 /64 r.quantity))
      × (pos 0 <ℤ r.base_amount_paise)
  authorised_amounts =
      let (priced, guard, positive) =
        fits_guard r.unit_price_paise r.quantity h.price_pos h.quantity_pos
          (rw (← h.base_exact) h.base_fits) in
      (h.base_exact ∙ sym priced, guard, rw h.base_exact positive)

  named_test : (is_empty r.account_id || is_empty r.product_id) ≡ false
  named_test = ground (arith, h.account_named, h.product_named)

  amounts_test :
      (leb_ℤ r.unit_price_paise (pos 0)
        || (leb_ℤ r.base_amount_paise (pos 0) || leb_ℤ r.final_amount_paise (pos 0)))
      ≡ false
  amounts_test = let p = authorised_amounts in ground (arith, h.price_pos, h.final_pos)

  base_test : not (eqb_ℤ r.base_amount_paise (r.unit_price_paise *64 r.quantity)) ≡ false
  base_test = let p = authorised_amounts.0 in ground arith

  limit_test :
      ((leb_ℤ r.spend_limit_paise (pos 0) || ltb_ℤ r.spend_limit_paise r.final_amount_paise)
        && not r.human_approved)
      ≡ false
  limit_test = let p = h.within_limit in ground arith

  age_test :
      ((is_zero r.now
          || (is_zero r.price_observed_at
              || (ltb_ℤ age (time_sub r.now r.price_observed_at)
                  || ltb_ℤ r.now r.price_observed_at)))
        && not r.human_approved)
      ≡ false
  age_test = elim h.fresh [
    | inl a ↦ ground arith
    | inr f ↦
        let q = (time_sub-le_iff r.now r.price_observed_at age k f.3).1 f.2 in
        ground (arith, eq_of_parts r.now (pos 0), eq_of_parts r.price_observed_at (pos 0))
  ]

  IsAuthorised-approved : rejection_reason r age ≡ approved
  unfolding rejection_reason
  IsAuthorised-approved =
      rw (named_test, amounts_test, base_test, limit_test, age_test)
        (ground (arith, authorised_amounts, h.quantity_pos, h.in_stock, h.affordable))

-- The policy approves exactly the purchases that IsAuthorised describes in the arithmetic of the
-- integers, for every age bound below the largest duration.
pub rejection_reason-IsAuthorised :
    (r : Request) (age : Duration)
    → age <ℤ max_int64
    → (rejection_reason r age ≡ approved) ↔ IsAuthorised r age
rejection_reason-IsAuthorised r age k =
    (λ h. approved-IsAuthorised r age h k, λ h. IsAuthorised-approved r age k h)

abbrev pub with_approval : Request → Request
with_approval r = record r { human_approved = true }

-- A person's approval never causes a refusal, and changes the answer only where that was a
-- request for approval or a stale price; with it neither of these is the answer.
pub with_approval_effect :
    (r : Request) (age : Duration)
    → ((rejection_reason (with_approval r) age ≡ rejection_reason r age)
        ⊎ (rejection_reason r age ≡ human_approval_required)
        ⊎ (rejection_reason r age ≡ stale_price))
      × (rejection_reason (with_approval r) age ≢ human_approval_required)
      × (rejection_reason (with_approval r) age ≢ stale_price)
unfolding rejection_reason
with_approval_effect r age = ground arith
