-- ===== src/Shopping/Steps.antt =====
-- Rules for the calls and the notes of a run, for what they keep: the basket and the confirmed
-- amount.
use agent_mart.Prelude.{◌≡◌, refl, List, ◌∷◌}
use agent_mart.Prelude.Int.{ℤ}
use agent_mart.Prelude.Text.{Text}
use agent_mart.Prelude.Result.{Result, ok, fail}
use agent_mart.Prelude.Ensures.{Ensures, Outcome-of}
use agent_mart.Shopping.World.{PriorOption, PricedGoods, Call, Trail}
use agent_mart.Shopping.State.{Sentinel, Last, Run, call, note_to, record_shown, refuse, emit}

-- A condition on the basket and the confirmed amount.
abbrev pub Kept : (PricedGoods → ℤ → Type 0) → Run → Type 0
Kept K s = K s.priced s.settled

-- Nothing is said of an error.
abbrev pub AnyError : Text → Run → Type 0
AnyError e s = Unit {0}

module _ {A : Type 0} (K : PricedGoods → ℤ → Type 0) where
  pub Ensures-call :
      (c : Call) (answer : Trail → Result A)
      → Ensures
          (Kept K)
          (call c answer)
          (λ a s. ((t : Trail) × (answer t ≡ ok a)) × Kept K s)
          AnyError
  unfolding call
  Ensures-call c answer = record {
    at = λ s p.
        Outcome-of (λ a s'. ((t : Trail) × (answer t ≡ ok a)) × Kept K s') AnyError (answer s.trail)
          (record s { trail = c ∷ s.trail }) (λ a k. ((s.trail, k), p)) (λ e k. tt);
  }

  -- The same, with the trail that the call left.
  pub Ensures-called :
      (c : Call) (answer : Trail → Result A)
      → Ensures
          (Kept K)
          (call c answer)
          (λ a s. ((t : Trail) × (answer t ≡ ok a) × (s.trail ≡ c ∷ t)) × Kept K s)
          AnyError
  unfolding call
  Ensures-called c answer = record {
    at = λ s p.
        Outcome-of (λ a s'. ((t : Trail) × (answer t ≡ ok a) × (s'.trail ≡ c ∷ t)) × Kept K s')
          AnyError (answer s.trail) (record s { trail = c ∷ s.trail })
          (λ a k. ((s.trail, k, refl), p)) (λ e k. tt);
  }

  pub Ensures-refuse :
      {Q : A → Run → Type 0} (which : Sentinel) (e : Text)
      → Ensures (Kept K) (refuse which e) Q AnyError
  unfolding refuse
  Ensures-refuse which e = record { at = λ s p. tt }

  pub Ensures-fail : {Q : A → Run → Type 0} (e : Text) → Ensures (Kept K) (fail e) Q AnyError
  unfolding fail
  Ensures-fail e = record { at = λ s p. tt }

  -- What holds of the emitted value.
  pub Ensures-emit :
      (Q : A → PricedGoods → ℤ → Type 0) (l : Last) (a : A)
      → ((goods : PricedGoods) (amount : ℤ) → K goods amount → Q a goods amount)
      → Ensures (Kept K) (emit l a) (λ x. Kept (Q x)) AnyError
  unfolding emit
  Ensures-emit Q l a h = record { at = λ s p. h s.priced s.settled p }

module _ (K : PricedGoods → ℤ → Type 0) where
  pub Ensures-note : (line : Text) → Ensures (Kept K) (note_to line) (λ _. Kept K) AnyError
  unfolding note_to
  Ensures-note line = record { at = λ s p. p }

  pub Ensures-shown :
      (options : List PriorOption) → Ensures (Kept K) (record_shown options) (λ _. Kept K) AnyError
  unfolding record_shown
  Ensures-shown options = record { at = λ s p. p }
