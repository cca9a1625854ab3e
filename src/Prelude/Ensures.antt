-- ===== src/Prelude/Ensures.antt =====
-- Postconditions of the calls of Prelude/Result: one for a result, one for an error.
use agent_mart.Prelude.Text.{Text}
use agent_mart.Prelude.Result.{Result, ok, err, Exec, refuse_if, pure, lift, continue, ◌>>=◌}
use mathlib.Core.Path.{◌≡◌, refl}
use mathlib.Core.Bool.{Bool, true, false}
use agent_mart.Prelude.Tests.{if◌then◌else◌}

abbrev pub Outcome : {S A : Type 0} → (A → S → Type 0) → (Text → S → Type 0) → Result A → S → Type 0
Outcome Q E (ok a) s = Q a s
Outcome Q E (err e) s = E e s

-- From a state with `P` the call leaves `Q` with its result or `E` with its error.
pub record Ensures {S A : Type 0} (P : S → Type 0) (m : Exec S A) (Q : A → S → Type 0)
    (E : Text → S → Type 0) : Type 0 where
  pub at : (s : S) → P s → Outcome Q E (m s).0 (m s).1

Outcome-continue :
    {S A B : Type 0} (R : A → S → Type 0) (Q : B → S → Type 0) (E : Text → S → Type 0)
    (r : Result A) (s : S) (k : A → Exec S B)
    → Outcome R E r s
    → ((a : A) → Ensures (R a) (k a) Q E)
    → Outcome Q E (continue r k s).0 (continue r k s).1
Outcome-continue R Q E (ok a) s k hr hk = (hk a).at s hr
Outcome-continue R Q E (err e) s k hr hk = hr

module _ {S A B : Type 0} {P : S → Type 0} {Q : B → S → Type 0} {E : Text → S → Type 0} where
  pub Ensures-bind :
      (R : A → S → Type 0) (m : Exec S A) (k : A → Exec S B)
      → Ensures P m R E
      → ((a : A) → Ensures (R a) (k a) Q E)
      → Ensures P (m >>= k) Q E
  unfolding ◌>>=◌
  Ensures-bind R m k hm hk = record {
    at = λ s p. Outcome-continue R Q E (m s).0 (m s).1 k (hm.at s p) hk;
  }

module _ {S : Type 0} {P : S → Type 0} where
  pub Ensures-refuse_if :
      {E : Text → S → Type 0} (b : Bool) (e : Text)
      → ((s : S) → P s → E e s)
      → Ensures P (refuse_if b e) (λ _. P) E
  unfolding refuse_if
  Ensures-refuse_if true e h = record { at = λ s p. h s p }
  Ensures-refuse_if false e h = record { at = λ s p. p }

  pub Ensures-lift :
      {A : Type 0} {E : Text → S → Type 0} (r : Result A)
      → ((e : Text) (s : S) → P s → E e s)
      → Ensures P (lift r) (λ _. P) E
  unfolding lift
  Ensures-lift (ok a) h = record { at = λ s p. p }
  Ensures-lift (err e) h = record { at = λ s p. h e s p }

  -- The same, where the rest needs to know what the value is.
  pub Ensures-lifted :
      {A : Type 0} {E : Text → S → Type 0} (r : Result A)
      → ((e : Text) (s : S) → P s → E e s)
      → Ensures P (lift r) (λ a s. P s × (r ≡ ok a)) E
  unfolding lift
  Ensures-lifted (ok a) h = record { at = λ s p. (p, refl) }
  Ensures-lifted (err e) h = record { at = λ s p. h e s p }

  pub Ensures-pure :
      {A : Type 0} {Q : A → S → Type 0} {E : Text → S → Type 0} (a : A)
      → ((s : S) → P s → Q a s)
      → Ensures P (pure a) Q E
  unfolding pure
  Ensures-pure a h = record { at = λ s p. h s p }

-- An answer and the state it is left in.
pub Outcome-of :
    {S A : Type 0} (Q : A → S → Type 0) (E : Text → S → Type 0) (r : Result A) (s : S)
    → ((a : A) → r ≡ ok a → Q a s)
    → ((e : Text) → r ≡ err e → E e s)
    → Outcome Q E r s
Outcome-of Q E (ok a) s hq he = hq a refl
Outcome-of Q E (err e) s hq he = he e refl

pub Outcome-to :
    {S A : Type 0} (Q : A → S → Type 0) (E : Text → S → Type 0) (Q' : A → S → Type 0)
    (E' : Text → S → Type 0)
    → ((a : A) (s : S) → Q a s → Q' a s)
    → ((e : Text) (s : S) → E e s → E' e s)
    → (r : Result A) (s : S) → Outcome Q E r s
    → Outcome Q' E' r s
Outcome-to Q E Q' E' hq he (ok a) s h = hq a s h
Outcome-to Q E Q' E' hq he (err e) s h = he e s h

module _ {S A : Type 0} {P : S → Type 0} {Q : A → S → Type 0} {E : Text → S → Type 0} where
  pub Ensures-if :
      (b : Bool) (m n : Exec S A)
      → (b ≡ true → Ensures P m Q E)
      → (b ≡ false → Ensures P n Q E)
      → Ensures P (if b then m else n) Q E
  Ensures-if true m n hm hn = hm refl
  Ensures-if false m n hm hn = hn refl

  -- A weaker state suffices where a stronger one is given.
  pub Ensures-from :
      {R : S → Type 0} {m : Exec S A} → ((s : S) → P s → R s) → Ensures R m Q E → Ensures P m Q E
  Ensures-from h k = record { at = λ s p. k.at s (h s p) }

  -- A fact that the state carries along.
  pub Ensures-known :
      {R : S → Type 0} {K : Type 0} {m : Exec S A}
      → ((s : S) → P s → R s × K)
      → (K → Ensures R m Q E)
      → Ensures P m Q E
  Ensures-known h k = record { at = λ s p. (k (h s p).1).at s (h s p).0 }

  pub Ensures-to :
      {Q' : A → S → Type 0} {E' : Text → S → Type 0} {m : Exec S A}
      → ((a : A) (s : S) → Q a s → Q' a s)
      → ((e : Text) (s : S) → E e s → E' e s)
      → Ensures P m Q E
      → Ensures P m Q' E'
  Ensures-to {Q' = Q'} {E' = E'} {m = m} hq he k = record {
    at = λ s p. Outcome-to Q E Q' E' hq he (m s).0 (m s).1 (k.at s p);
  }

pub Outcome-if :
    {S A : Type 0} (Q : A → S → Type 0) (E : Text → S → Type 0) (b : Bool) (x y : Result A × S)
    → (b ≡ true → Outcome Q E x.0 x.1)
    → (b ≡ false → Outcome Q E y.0 y.1)
    → Outcome Q E (if b then x else y).0 (if b then x else y).1
Outcome-if Q E true x y hx hy = hx refl
Outcome-if Q E false x y hx hy = hy refl
