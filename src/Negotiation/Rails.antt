-- ===== src/Negotiation/Rails.antt =====
-- The handler of a counter in internal/negotiation/http.go, and the orchestrator's rails.
use agent_mart.Prelude.{
  ℕ, ◌≤◌, ◌<◌, ◌≡◌, refl, true, Option, none, some, arith, inl, inr, Bool-cases,
}
use Prim.Native.Nat.{min}
use mathlib.Core.Path.{subst}
use agent_mart.Prelude.Int.{ℤ, pos, negsuc, ltb_ℤ, leb_ℤ}
use agent_mart.Prelude.Float.{exact_bound}
use agent_mart.Prelude.Result.{Result, ok, err}
use agent_mart.Catalog.{Product}
use agent_mart.Negotiation.Session.{Session, accepted, countered}
use agent_mart.Negotiation.Orchestrator.{Decision, decide}
use agent_mart.Negotiation.Concession.{decide_bounds}
use agent_mart.Negotiation.Lifecycle.{accepted_from, declined_from, renegotiated_from}
use agent_mart.Negotiation.Server.{
  Request, CounterInput, CounterOutput, Server, clamp_counter, max_int64_of,
}
use agent_mart.Negotiation.Handlers.{railed, chosen_by, counter_input, settled_at, next_session}

-- A number between two others.
abbrev pub Within : ℤ → ℕ → ℕ → Type 0
Within x low high = (k : ℕ) × (x ≡ pos k) × (low ≤ k) × (k ≤ high)

clamp_counter-Within :
    (value : ℤ) (low high : ℕ)
    → low ≤ high
    → Within (clamp_counter value (pos low) (pos high)) low high
unfolding clamp_counter
clamp_counter-Within (pos n) low high h = elim (Bool-cases (ltb_ℤ (pos n) (pos low))) [
  | inl b ↦ (low, rw b refl, ground arith, h)
  | inr b ↦ elim (Bool-cases (ltb_ℤ (pos high) (pos n))) [
    | inl c ↦ (high, rw (b, c) refl, h, ground arith)
    | inr c ↦ (n, rw (b, c) refl, ground arith, ground arith)
  ]
]
clamp_counter-Within (negsuc n) low high h =
    let negative : ltb_ℤ (negsuc n) (pos low) ≡ true = ground arith in
    (low, rw negative refl, omega arith, h)

max_int64_of-Within :
    (a b high : ℕ)
    → a ≤ high
    → b ≤ high
    → (m : ℕ) × (max_int64_of (pos a) (pos b) ≡ pos m) × (a ≤ m) × (b ≤ m) × (m ≤ high)
unfolding max_int64_of
max_int64_of-Within a b high h k = elim (Bool-cases (ltb_ℤ (pos b) (pos a))) [
  | inl c ↦ (a, rw c refl, ground arith, ground arith, h)
  | inr c ↦ (b, rw c refl, ground arith, ground arith, k)
]

-- What an answer of the negotiator, if there is one, is cut to.
railed-Within :
    (session : Session) (d : Decision) (out : Result CounterOutput) (buyer floor_paise : ℤ)
    (ask b floor k : ℕ)
    → session.counter.final_amount_paise ≡ pos ask
    → buyer ≡ pos b
    → floor_paise ≡ pos floor
    → d.final_paise ≡ pos k
    → (floor ≤ k) × (b ≤ k) × (k ≤ ask)
    → (m : ℕ) × ((railed session buyer floor_paise d out).0 ≡ pos m)
      × (floor ≤ m)
      × (b ≤ m)
      × (m ≤ ask)
railed-Within session d (err e) buyer floor_paise ask b floor k hs hi hj hd h =
    (k, hd, h.0, h.1, h.2)
railed-Within session d (ok out) buyer floor_paise ask b floor k hs hi hj hd h =
    elim (Bool-cases (leb_ℤ out.amount_paise (pos 0))) [
      | inl c ↦ (k, rw c hd, h.0, h.1, h.2)
      | inr c ↦
          let (low, same, f, g, u) = max_int64_of-Within floor b ask (omega arith) (omega arith) in
          let (m, e, l, v) = clamp_counter-Within out.amount_paise low ask u in
          (m, rw (c, hi, hj, same, hs) e, omega arith, omega arith, v)
    ]

chosen-Within :
    (negotiator : Option (CounterInput → Result CounterOutput)) (input : CounterInput)
    (d : Decision) (ask b floor k : ℕ)
    → input.session.counter.final_amount_paise ≡ pos ask
    → input.buyer_paise ≡ pos b
    → input.floor_paise ≡ pos floor
    → d.final_paise ≡ pos k
    → (floor ≤ k) × (b ≤ k) × (k ≤ ask)
    → (m : ℕ) × ((chosen_by negotiator input d).0 ≡ pos m) × (floor ≤ m) × (b ≤ m) × (m ≤ ask)
chosen-Within none input d ask b floor k hs hi hj hd h = (k, hd, h.0, h.1, h.2)
chosen-Within (some negotiator) input d ask b floor k hs hi hj hd h =
    railed-Within input.session d (negotiator input) input.buyer_paise input.floor_paise ask b floor
      k hs hi hj hd h

abbrev pub Lands : ℕ → ℕ → ℕ → Session → Type 0
Lands ask b floor next =
    (k : ℕ) × (next.counter.final_amount_paise ≡ pos k)
    × (floor ≤ k)
    × (k ≤ ask)
    × (next.status ≡ countered → (b ≤ k) × (b < ask))
    × (next.status ≡ accepted → k ≡ min b ask)
    × (next.floor_paise ≡ pos floor)

-- For a floor within a positive standing ask below 2 ^ 53, every session that a counter leads to
-- stands at an amount k between the floor and the ask, whatever the negotiator answers: if the
-- bargaining goes on, k is not below the buyer's amount, which is below the ask; if the counter
-- is accepted, k is the buyer's amount, cut at the ask.
pub next_session-Within :
    (s : Server) (r : Request) (product : Product) (session next : Session) (ask b floor : ℕ)
    → session.counter.final_amount_paise ≡ pos ask
    → session.floor_paise ≡ pos floor
    → r.counter_amount_paise ≡ pos b
    → 0 < ask
    → floor ≤ ask
    → ask < exact_bound
    → next_session s r product session (decide session (pos b) (pos floor)) ≡ ok next
    → Lands ask b floor next
unfolding next_session decide
next_session-Within s r product session next ask b floor hs hf hb positive within small h =
    let d = decide session (pos b) (pos floor) in
    let (k, same, low, high, agreed, below, going, over) =
      decide_bounds session ask b floor hs positive within small in
    elim (Bool-cases d.is_accepted) [
      | inl a ↦
          let (st, e) = accepted_from (settled_at session d) next s.now (rw a at h) in
          subst (Lands ask b floor) e
            (k, same, low, high, λ q. absurd (ground arith), λ _. agreed a, hf)
      | inr a ↦ elim (Bool-cases d.is_exhausted) [
        | inl x ↦
            let (st, e) = declined_from session next d.reason s.now (rw (a, x) at h) in
            subst (Lands ask b floor) e (
              ask,
              hs,
              within,
              omega arith,
              λ q. absurd (ground arith),
              λ q. absurd (ground arith),
              hf,
            )
        | inr x ↦
            let (m, e, f, g, u) =
              chosen-Within s.negotiator (counter_input s r product session d) d ask b floor k hs hb
                hf same (low, omega (arith, going x, below a), high) in
            let (st, v, w, z) = renegotiated_from session next _ s.now (rw (a, x) at h) in
            subst (Lands ask b floor) z
              (m, e, f, u, λ _. (g, below a), λ q. absurd (ground arith), hf)
      ]
    ]
