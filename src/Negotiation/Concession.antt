-- ===== src/Negotiation/Concession.antt =====
-- The concessions of internal/negotiation/orchestrator.go.
use agent_mart.Prelude.{
  ℕ, zero, suc, ◌+◌, ◌-◌, ◌≤◌, ◌<◌, ◌≡◌, ◌↔◌, inl, inr, refl, true, false, arith, Bool-cases, leb,
  le→ltb, lt→leb, leb→le,
}
use agent_mart.Prelude.Int.{ℤ, pos, negsuc, ◌≤ℤ◌, pos_part, neg_part}
use agent_mart.Prelude.Int64.{+64-pos, -64-pos}
use Prim.Native.Nat.{min, max}
use native.Mathlib.Nat.{le_refl}
use agent_mart.Prelude.Float.{exact_bound, scale, scale_bounds, scale_one}
use agent_mart.Negotiation.Session.{Session}
use agent_mart.Negotiation.Orchestrator.{
  Decision, three_fifths, three_twentieths, half, schedule, minimum, midway, answer, decide,
}

-- What the schedule still demands of a span, in any round: part of it.
schedule_bounds :
    (round : ℤ) (n : ℕ)
    → n < exact_bound
    → (k : ℕ) × (scale (schedule round) (pos n) ≡ pos k) × (k ≤ n)
schedule_bounds (negsuc _) n h = (n, scale_one n h, le_refl n)
schedule_bounds (pos zero) n h = (n, scale_one n h, le_refl n)
schedule_bounds (pos (suc zero)) n h = (n, scale_one n h, le_refl n)
schedule_bounds (pos (suc (suc zero))) n h =
    scale_bounds three_fifths n h (omega arith) (omega arith)
schedule_bounds (pos (suc (suc (suc _)))) n h =
    scale_bounds three_twentieths n h (omega arith) (omega arith)

-- The least amount of a round lies between the floor and the ask.
minimum_bounds :
    (round : ℤ) (ask floor : ℕ)
    → floor ≤ ask
    → ask < exact_bound
    → (m : ℕ) × (minimum round (pos ask) (pos floor) ≡ pos m) × (floor ≤ m) × (m ≤ ask)
unfolding minimum
minimum_bounds round ask floor le small =
    let (k, e, below) = schedule_bounds round (ask - floor) (omega arith) in
    let sum = +64-pos floor k (omega (arith, below)) in
    (floor + k, rw (-64-pos ask floor le (omega arith), e) sum, omega arith, omega (arith, below))

-- A counter half way lies between the buyer's amount and the least one, not below the floor.
midway_bounds :
    (b m floor : ℕ)
    → b < m
    → floor ≤ m
    → m < exact_bound
    → (k : ℕ) × (midway (pos b) (pos m) (pos floor) ≡ pos k) × (floor ≤ k) × (b ≤ k) × (k ≤ m)
unfolding midway
midway_bounds b m floor lt le small =
    let (k, e, below) = scale_bounds half (m - b) (omega arith) (omega arith) (omega arith) in
    let sum = +64-pos b k (omega (arith, below)) in
    (
      max (b + k) floor,
      rw (-64-pos m b (omega arith) (omega arith), e, sum) (ground arith),
      omega arith,
      omega arith,
      omega (arith, below),
    )

-- The answer below the standing ask.
abbrev Answers : ℤ → ℕ → ℕ → ℕ → Decision → Type 0
Answers round ask b floor d =
    (k : ℕ) × (d.final_paise ≡ pos k)
    × (floor ≤ k)
    × (k ≤ ask)
    × (d.is_accepted ≡ true → k ≡ min b ask)
    × (d.is_accepted ≡ false → b < ask)
    × (d.is_exhausted ≡ false → min b ask ≤ k)
    × (d.is_exhausted ≡ true → (k ≡ floor) × (d.is_accepted ≡ false) × (pos 3 ≤ℤ round))

answer_bounds :
    (round : ℤ) (ask b floor : ℕ)
    → floor ≤ ask
    → b < ask
    → ask < exact_bound
    → Answers round ask b floor (answer round (pos ask) (pos b) (pos floor))
unfolding answer
answer_bounds round ask b floor le lt small =
    let (m, e, low, high) = minimum_bounds round ask floor le small in
    rw e (elim (Bool-cases (leb (m + 0) (b + 0))) [
      | inl enough ↦ rw enough (
        b,
        refl,
        ground arith,
        omega arith,
        λ _. omega arith,
        λ _. lt,
        λ _. omega arith,
        λ h. absurd (cc),
      )
      | inr short ↦ rw short (elim (Bool-cases (leb (3 + neg_part round) (pos_part round + 0))) [
        | inl spent ↦ rw spent (
          floor,
          refl,
          le_refl floor,
          le,
          λ h. absurd (cc),
          λ _. lt,
          λ h. absurd (cc),
          λ _. (refl, refl, leb→le _ _ spent),
        )
        | inr open_round ↦
            let (k, e', above, keeps, under) =
              midway_bounds b m floor (ground arith) low (omega arith) in
            rw (open_round, e')
              (
                k,
                refl,
                above,
                omega arith,
                λ h. absurd (cc),
                λ _. lt,
                λ _. omega arith,
                λ h. absurd (cc),
              )
      ])
    ])

-- For a floor within the standing ask, and an ask below 2 ^ 53, the answer names an amount k
-- between the floor and the ask. An acceptance settles at the buyer's amount, cut at the ask; a
-- refusal is only of an amount below the ask. While rounds are left k is not below the buyer's
-- amount; a session is exhausted only in round 3 or later, without acceptance and at the floor.
pub decide_bounds :
    (s : Session) (ask b floor : ℕ)
    → s.counter.final_amount_paise ≡ pos ask
    → 0 < ask
    → floor ≤ ask
    → ask < exact_bound
    → (k : ℕ) × ((decide s (pos b) (pos floor)).final_paise ≡ pos k)
      × (floor ≤ k)
      × (k ≤ ask)
      × ((decide s (pos b) (pos floor)).is_accepted ≡ true → k ≡ min b ask)
      × ((decide s (pos b) (pos floor)).is_accepted ≡ false → b < ask)
      × ((decide s (pos b) (pos floor)).is_exhausted ≡ false → min b ask ≤ k)
      × ((decide s (pos b) (pos floor)).is_exhausted ≡ true
          → (k ≡ floor) × ((decide s (pos b) (pos floor)).is_accepted ≡ false) × (pos 3 ≤ℤ s.round))
unfolding decide
decide_bounds s ask b floor e positive le small =
    rw (e, le→ltb (floor + 0) (0 + 0) (omega arith), lt→leb (ask + 0) (0 + 0) (omega arith))
      (elim (Bool-cases (leb (ask + 0) (b + 0))) [
        | inl met ↦ rw met (
          ask,
          refl,
          le,
          le_refl ask,
          λ _. ground arith,
          λ h. absurd (cc),
          λ _. omega arith,
          λ h. absurd (cc),
        )
        | inr under ↦ rw under (answer_bounds s.round ask b floor le (ground arith) small)
      ])

first_minimum :
    (ask floor : ℕ)
    → floor ≤ ask
    → ask < exact_bound
    → minimum (pos 1) (pos ask) (pos floor) ≡ pos ask
unfolding minimum
first_minimum ask floor le small =
    rw
      (
        -64-pos ask floor le (omega arith),
        scale_one (ask - floor) (omega arith),
        +64-pos floor (ask - floor) (omega arith),
      )
      (ground arith)

-- The first round holds firm: for a positive ask below the bound of exact numbers and a floor
-- within it, an amount is accepted exactly when it meets the ask.
pub decide_first_round :
    (s : Session) (ask b floor : ℕ)
    → s.counter.final_amount_paise ≡ pos ask
    → 0 < ask
    → floor ≤ ask
    → ask < exact_bound
    → s.round ≡ pos 1
    → ((decide s (pos b) (pos floor)).is_accepted ≡ true) ↔ (ask ≤ b)
unfolding decide answer
decide_first_round s ask b floor e positive le small r =
    rw (e, r, le→ltb (floor + 0) (0 + 0) (omega arith), first_minimum ask floor le small)
      (ground arith)
