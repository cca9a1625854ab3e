-- ===== src/Trading/Reads.antt =====
-- Properties of the cache of internal/trading/trading.go.
use agent_mart.Prelude.{◌≡◌, refl, sym, ◌∙◌, ◌⊎◌, inl, inr, true, List, [], ◌∷◌, arith, Bool-cases}
use mathlib.Core.Path.{subst}
use agent_mart.Prelude.Int.{pos, ◌<ℤ◌, ◌-ℤ◌}
use agent_mart.Prelude.Result.{Result, ok, err}
use agent_mart.Gate.Defs.{Time, is_zero, time_sub}
use agent_mart.Trading.Sales.{SalesFacts, no_facts}
use agent_mart.Trading.Facts.{
  sales_window, facts_ttl, Cache, Clock, Gateway, store_read, fresh, read_facts,
}

-- A read: what the gateway would have answered then, and the clock.
abbrev pub Read : Type 0
Read = Gateway × Clock

-- The cache of a new provider, after these reads, the latest first.
unfoldable pub after : List Read → Cache
after [] = record { facts = no_facts; read_at = pos 0 }
after (r ∷ rs) = (read_facts r.0 r.1 (after rs)).1

-- The gateway's own answer to the read.
abbrev pub Answered : SalesFacts → Read → Type 0
Answered f r = r.0 (r.1.asked -ℤ sales_window) ≡ ok f

-- Some earlier read was answered with these figures, and stored at this time.
abbrev pub StoredAt : SalesFacts → Time → List Read → Type 0
StoredAt f t [] = ⊥
StoredAt f t (r ∷ rs) = (Answered f r × (r.1.stored ≡ t)) ⊎ StoredAt f t rs

-- A cache that was never filled, or that holds what one of the reads stored.
abbrev Holds : Cache → List Read → Type 0
Holds c rs = (is_zero c.read_at ≡ true) ⊎ StoredAt c.facts c.read_at rs

store_read-StoredAt :
    (r : Read) (answer : Result SalesFacts) (c : Cache) (rs : List Read)
    → r.0 (r.1.asked -ℤ sales_window) ≡ answer
    → (is_zero c.read_at ≡ true) ⊎ StoredAt c.facts c.read_at rs
    → (is_zero (store_read answer r.1.stored c).1.read_at ≡ true)
      ⊎ StoredAt
          (store_read answer r.1.stored c).1.facts
          (store_read answer r.1.stored c).1.read_at
          (r ∷ rs)
store_read-StoredAt r (err e) c rs h (inl z) = inl z
store_read-StoredAt r (err e) c rs h (inr s) = inr (inr s)
store_read-StoredAt r (ok f) c rs h k = inr (inl (h, refl))

later :
    (c : Cache) (r : Read) (rs : List Read)
    → (is_zero c.read_at ≡ true) ⊎ StoredAt c.facts c.read_at rs
    → (is_zero c.read_at ≡ true) ⊎ StoredAt c.facts c.read_at (r ∷ rs)
later c r rs (inl z) = inl z
later c r rs (inr s) = inr (inr s)

read_facts-StoredAt :
    (r : Read) (c : Cache) (rs : List Read)
    → (is_zero c.read_at ≡ true) ⊎ StoredAt c.facts c.read_at rs
    → (is_zero (read_facts r.0 r.1 c).1.read_at ≡ true)
      ⊎ StoredAt (read_facts r.0 r.1 c).1.facts (read_facts r.0 r.1 c).1.read_at (r ∷ rs)
unfolding read_facts
read_facts-StoredAt r c rs h = elim (Bool-cases (fresh r.1 c)) [
  | inl b ↦
      let e : read_facts r.0 r.1 c ≡ (ok c.facts, c) = rw b refl in
      subst (λ x. Holds x.1 (r ∷ rs)) (sym e) (later c r rs h)
  | inr b ↦
      let e : read_facts r.0 r.1 c ≡ store_read (r.0 (r.1.asked -ℤ sales_window)) r.1.stored c =
        rw b refl in
      subst (λ x. Holds x.1 (r ∷ rs)) (sym e) (store_read-StoredAt r _ c rs refl h)
]

-- What the cache holds was stored by one of the reads.
after-StoredAt :
    (rs : List Read)
    → (is_zero (after rs).read_at ≡ true) ⊎ StoredAt (after rs).facts (after rs).read_at rs
unfolding after
after-StoredAt [] = inl refl
after-StoredAt (r ∷ rs) = read_facts-StoredAt r (after rs) rs (after-StoredAt rs)

-- The figures are the gateway's answer to this read, or to an earlier one that was stored less than
-- five minutes ago.
abbrev pub Recent : SalesFacts → Read → List Read → Type 0
Recent f r rs = Answered f r ⊎ ((t : Time) × StoredAt f t rs × (time_sub r.1.aged t <ℤ facts_ttl))

ok_injective : {A : Type 0} {a b : A} → ok a ≡ ok b → a ≡ b
ok_injective h = ground arith

store_read-Answered :
    (r : Read) (answer : Result SalesFacts) (c : Cache) (f : SalesFacts)
    → r.0 (r.1.asked -ℤ sales_window) ≡ answer
    → (store_read answer r.1.stored c).0 ≡ ok f
    → Answered f r
store_read-Answered r (err e) c f h k = absurd (ground arith)
store_read-Answered r (ok g) c f h k = h ∙ k

cached-Recent :
    (r : Read) (c : Cache) (rs : List Read) (f : SalesFacts)
    → fresh r.1 c ≡ true
    → (is_zero c.read_at ≡ true) ⊎ StoredAt c.facts c.read_at rs
    → ok c.facts ≡ ok f
    → Recent f r rs
cached-Recent r c rs f h (inl z) e = absurd (ground arith)
cached-Recent r c rs f h (inr s) e =
    inr (c.read_at, subst (λ x. StoredAt x c.read_at rs) (ok_injective e) s, ground arith)

-- Whatever was read before, the figures that a provider gives are the gateway's own: its answer to
-- this read, or its answer to an earlier one that was stored less than five minutes ago.
pub read_facts-Recent :
    (rs : List Read) (r : Read) (f : SalesFacts)
    → (read_facts r.0 r.1 (after rs)).0 ≡ ok f
    → Recent f r rs
unfolding read_facts
read_facts-Recent rs r f h = elim (Bool-cases (fresh r.1 (after rs))) [
  | inl b ↦ cached-Recent r (after rs) rs f b (after-StoredAt rs) (let k = rw b at h in k)
  | inr b ↦ inl (store_read-Answered r _ (after rs) f refl (let k = rw b at h in k))
]
