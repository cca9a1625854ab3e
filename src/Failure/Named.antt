-- ===== src/Failure/Named.antt =====
-- Which layer a text names, by the places at which the name stands in it.
use agent_mart.Prelude.{
  ◌≡◌, refl, ap, ◌⊎◌, inl, inr, true, ◌++◌, Option, none, some, List, [], ◌∷◌, arith, Bool-cases,
  ◌==◌,
}
use agent_mart.Prelude.Text.{Text, bytes, cut_prefix, after, or_later}
use agent_mart.Shopping.Words.{to_lower}
use agent_mart.Failure.Hints.{Layer, reasoning, catalog, payment, ledger, gate, records, layer_name}
use agent_mart.Failure.Explain.{embedded_layer, has, first_named, found}

-- The word stands somewhere in the text.
abbrev pub Occurs : Text → Text → Type 0
Occurs word text = (before : Text) × (rest : Text) × (text ≡ before ++ (word ++ rest))

cut_prefix-some : (word text rest : Text) → cut_prefix word text ≡ some rest → text ≡ word ++ rest
cut_prefix-some [] text rest h = ground arith
cut_prefix-some (c ∷ w) [] rest h = absurd (ground arith)
cut_prefix-some (c ∷ w) (d ∷ s) rest h = elim (Bool-cases (c == d)) [
  | inl e ↦
      let k = rw e at h in
      let same : c ≡ d = ground arith in rw (cut_prefix-some w s rest k, same) refl
  | inr e ↦ absurd (let k = rw e at h in ground arith)
]

cut_prefix-append : (word rest : Text) → cut_prefix word (word ++ rest) ≡ some rest
cut_prefix-append [] rest = refl
cut_prefix-append (c ∷ w) rest =
    let e : (c == c) ≡ true = ground arith in rw e (cut_prefix-append w rest)

or_later-found :
    (a b : Option Text) → found (or_later a b) ≡ true → (found a ≡ true) ⊎ (found b ≡ true)
or_later-found (some x) b h = inl refl
or_later-found none b h = inr h

found-or_later : (a b : Option Text) → found b ≡ true → found (or_later a b) ≡ true
found-or_later (some x) b h = refl
found-or_later none b h = h

found-some : (a : Option Text) → found a ≡ true → (x : Text) × (a ≡ some x)
found-some (some x) h = (x, refl)
found-some none h = absurd (ground arith)

some-found : (a : Option Text) (x : Text) → a ≡ some x → found a ≡ true
some-found a x h = rw h refl

prefix-Occurs : (word text : Text) → found (cut_prefix word text) ≡ true → Occurs word text
prefix-Occurs word text h =
    let (rest, e) = found-some (cut_prefix word text) h in
    ([], rest, cut_prefix-some word text rest e)

pub has-Occurs : (text word : Text) → has text word ≡ true → Occurs word text
has-Occurs [] word h = prefix-Occurs word [] h
has-Occurs (c ∷ s) word h = elim (or_later-found (cut_prefix word (c ∷ s)) (after word s) h) [
  | inl k ↦ prefix-Occurs word (c ∷ s) k
  | inr k ↦ let (before, rest, e) = has-Occurs s word k in (c ∷ before, rest, ap (λ x. c ∷ x) e)
]

found-cut : (word : Text) (s : Text) → found (cut_prefix word s) ≡ true → has s word ≡ true
found-cut word [] h = h
found-cut word (c ∷ s) h = let (x, e) = found-some (cut_prefix word (c ∷ s)) h in rw e refl

has_at : (word before rest : Text) → has (before ++ (word ++ rest)) word ≡ true
has_at word [] rest =
    found-cut word (word ++ rest) (some-found _ rest (cut_prefix-append word rest))
has_at word (c ∷ before) rest =
    found-or_later (cut_prefix word (c ∷ (before ++ (word ++ rest)))) _ (has_at word before rest)

pub Occurs-has : (text word : Text) → Occurs word text → has text word ≡ true
Occurs-has text word (before, rest, e) = rw e (has_at word before rest)

-- The text, in lower case, has this layer's name with a colon.
abbrev pub Mentions : Text → Layer → Type 0
Mentions text l = Occurs (layer_name l ++ bytes ":") (to_lower text)

-- The first of these layers that the text mentions, if any.
abbrev pub First : Text → List Layer → Option Layer → Type 0
First text [] o = o ≡ none
First text (l ∷ ls) o = (Mentions text l × (o ≡ some l)) ⊎ ((Mentions text l → ⊥) × First text ls o)

first_named-First : (text : Text) (ls : List Layer) → First text ls (first_named (to_lower text) ls)
first_named-First text [] = refl
first_named-First text (l ∷ ls) =
    elim (Bool-cases (has (to_lower text) (layer_name l ++ bytes ":"))) [
      | inl k ↦ inl (has-Occurs (to_lower text) (layer_name l ++ bytes ":") k, rw k refl)
      | inr k ↦ inr (
        λ m.
            absurd
              (let q = Occurs-has (to_lower text) (layer_name l ++ bytes ":") m in ground arith),
        rw k (first_named-First text ls),
      )
    ]

-- The layers that a far side may name, in the order in which they are looked for.
abbrev pub layers : List Layer
layers = reasoning ∷ payment ∷ ledger ∷ gate ∷ records ∷ catalog ∷ []

pub embedded_layer-First : (text : Text) → First text layers (embedded_layer text)
unfolding embedded_layer
embedded_layer-First text = first_named-First text layers
