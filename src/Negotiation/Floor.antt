-- ===== src/Negotiation/Floor.antt =====
-- The floors of internal/negotiation/policy.go.
use agent_mart.Prelude.{
  ℕ, zero, suc, ◌+◌, ◌-◌, ◌*◌, ◌/◌, ◌≤◌, ◌<◌, ◌≡◌, true, ◌&&◌, arith, Bool-cases, if◌then◌else◌,
  ltb, lt→ltb, inl, inr,
}
use Prim.Native.Nat.{max}
use native.Mathlib.Nat.{mul-le-mul_left}
use agent_mart.Prelude.Int.{ℤ, pos, negsuc, pos_part, ltb_ℤ}
use agent_mart.Prelude.Int64.{◌-64◌, ◌*64◌, ◌/64◌, -64-pos, *64-pos, /64-pos}
use agent_mart.Negotiation.Offer.{entitled_floor}
use agent_mart.Negotiation.Quote.{amount_bound}

-- The discount that an entitlement funds.
abbrev pub funded : ℤ → ℕ → ℕ
funded pct list = if ltb_ℤ (pos 0) pct && ltb_ℤ pct (pos 100) then list * pos_part pct / 100 else 0

discounted :
    (list pct : ℕ)
    → list ≤ amount_bound
    → pct < 100
    → pos list -64 pos list *64 pos pct /64 pos 100 ≡ pos (list - list * pct / 100)
discounted list pct small le =
    let product = mul-le-mul_left list (below pct le) in
    rw
      (*64-pos list pct (omega (arith, product)), /64-pos (list * pct) 100 (omega (arith, product)))
      (-64-pos list (list * pct / 100) (omega (arith, product)) (omega arith))
  where
    below : (k : ℕ) → k < 100 → k ≤ 100
    below k h = omega arith

percentage : (k : ℕ) → (ltb (0 + 0) (k + 0) && ltb (k + 0) (100 + 0)) ≡ true → (0 < k) × (k < 100)
percentage k h = ground arith

-- For amounts within the bound the entitled floor is the list total less the discount that a
-- percentage from 1 to 99 funds, raised to the cost floor; any other percentage funds nothing.
pub entitled_floor-eq :
    (cost list : ℕ) (pct : ℤ)
    → list ≤ amount_bound
    → entitled_floor (pos cost) (pos list) pct ≡ pos (max cost (list - funded pct list))
unfolding entitled_floor
entitled_floor-eq cost zero (pos pct) small = ground arith
entitled_floor-eq cost (suc list) (pos pct) small =
    elim (Bool-cases (ltb (0 + 0) (pct + 0) && ltb (pct + 0) (100 + 0))) [
      | inl e ↦
          let (low, high) = percentage pct e in
          rw
            (
              lt→ltb (0 + 0) (pct + 0) (omega arith),
              lt→ltb (pct + 0) (100 + 0) (omega arith),
              lt→ltb 0 (suc list + 0) (omega arith),
              discounted (suc list) pct small high,
            )
            (ground arith)
      | inr e ↦ ground arith
    ]
entitled_floor-eq cost list (negsuc pct) small = ground arith
