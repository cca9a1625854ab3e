-- ===== src/Failure/Layers.antt =====
-- Properties of internal/failure/failure.go.
use agent_mart.Prelude.{
  ◌≡◌, ◌≢◌, refl, sym, ap, ◌⊎◌, inl, inr, true, false, ◌++◌, Option, none, some, [], ◌∷◌, arith,
  Bool-cases, if◌then◌else◌,
}
use mathlib.Core.Path.{subst}
use agent_mart.Prelude.Text.{Text, bytes, is_empty, text_eq, eq_of_text_eq, text_eq_refl}
use agent_mart.Failure.Hints.{
  Layer, reasoning, catalog, conversation, payment, ledger, gate, records, no_layer, layer_name,
}
use agent_mart.Failure.Named.{First, layers, embedded_layer-First}
use agent_mart.Failure.Explain.{
  Fault, in_layer, embedded_layer, diagnose, sentence, place_of, own, explained, explain,
  same_layer, or_none, attribute,
}

-- An explanation names this place, and then the shape of the failure; a timeout is told as such.
abbrev pub Names : Text → Fault → Text → Type 0
Names place e text =
    (shape : Text) × (rest : Text) × (text
      ≡ bytes "Failed in the " ++ (place ++ (bytes ": " ++ (shape ++ rest))))
    × (e.timed_out ≡ true → shape ≡ bytes "it did not answer in time")

timed_out_shape :
    (layer : Layer) (e : Fault)
    → e.timed_out ≡ true
    → (diagnose layer e).0 ≡ bytes "it did not answer in time"
unfolding diagnose
timed_out_shape layer e h = rw h refl

sentence-Names :
    (e : Fault) (layer : Layer) (place : Text) → Names place e (sentence place (diagnose layer e))
sentence-Names e layer place = (
  (diagnose layer e).0,
  (if is_empty (diagnose layer e).1 then [] else 10 ∷ (diagnose layer e).1),
  refl,
  timed_out_shape layer e,
)

attributed-Names :
    (e : Fault) (layer : Layer)
    → e.attributed ≡ some layer
    → Names (layer_name layer) e (own e e.attributed)
attributed-Names e layer h =
    subst (λ o. Names (layer_name layer) e (own e o)) (sym h)
      (sentence-Names e layer (layer_name layer))

-- A failure of another layer: over the conversation, the merchant's.
abbrev pub Theirs : Fault → Layer → Layer → Text → Type 0
Theirs e layer inner text =
    ((layer ≡ conversation) × Names (bytes "merchant's " ++ layer_name inner) e text)
    ⊎ ((layer ≢ conversation) × Names (layer_name inner) e text)

place-Theirs :
    (e : Fault) (layer inner : Layer)
    → Theirs e layer inner (sentence (place_of layer inner) (diagnose inner e))
place-Theirs e reasoning inner = inr (λ h. ground arith, sentence-Names e inner (layer_name inner))
place-Theirs e catalog inner = inr (λ h. ground arith, sentence-Names e inner (layer_name inner))
place-Theirs e conversation inner =
    inl (refl, sentence-Names e inner (bytes "merchant's " ++ layer_name inner))
place-Theirs e payment inner = inr (λ h. ground arith, sentence-Names e inner (layer_name inner))
place-Theirs e ledger inner = inr (λ h. ground arith, sentence-Names e inner (layer_name inner))
place-Theirs e gate inner = inr (λ h. ground arith, sentence-Names e inner (layer_name inner))
place-Theirs e records inner = inr (λ h. ground arith, sentence-Names e inner (layer_name inner))
place-Theirs e no_layer inner = inr (λ h. ground arith, sentence-Names e inner (layer_name inner))

-- How an error of this layer is explained, by the layer that its text names first.
abbrev pub Attributes : Fault → Layer → Text → Type 0
Attributes e layer text =
    (named : Option Layer) × First e.text layers named
    × ((((named ≡ none)
            ⊎ ((inner : Layer) × (named ≡ some inner) × (layer_name inner ≡ layer_name layer)))
          × Names (layer_name layer) e text)
        ⊎ ((inner : Layer) × (named ≡ some inner)
            × (layer_name inner ≢ layer_name layer)
            × Theirs e layer inner text))

explained-Attributes :
    (e : Fault) (layer : Layer) (named : Option Layer)
    → First e.text layers named
    → e.attributed ≡ some layer
    → Attributes e layer (explained e layer named)
explained-Attributes e layer none f h = (none, f, inl (inl refl, attributed-Names e layer h))
explained-Attributes e layer (some inner) f h = (
  some inner,
  f,
  elim (Bool-cases (same_layer inner layer)) [
    | inl k ↦ inl (inr (inner, refl, eq_of_text_eq _ _ k), rw k (attributed-Names e layer h))
    | inr k ↦ inr (
      inner,
      refl,
      λ n. absurd (
          let q = subst (λ x. text_eq x (layer_name layer) ≡ false) n k in
          let r = text_eq_refl (layer_name layer) in cc),
      rw k (place-Theirs e layer inner),
    )
  ],
)

in_layer_again :
    (e : Fault) (layer other : Layer) → e.attributed ≡ some layer → in_layer other e ≡ e
unfolding in_layer
in_layer_again e layer other h = ap (λ o. attribute other o e) h

-- An attributed error keeps its layer when another is put on it. Of the layers reasoning, payment,
-- ledger, gate, records and catalog, the first in this order whose name with a colon stands in the
-- error's text, in lower case, is the one that it names. If there is none, or it is the error's
-- own layer, the error is explained as a failure of its layer, and else as a failure of the named
-- one, as the merchant's if it came over the conversation. A timeout is told as such.
pub explain-Attributes :
    (e : Fault) (layer other : Layer)
    → e.attributed ≡ some layer
    → Attributes e layer (explain (in_layer other e))
unfolding explain
explain-Attributes e layer other h =
    subst (λ x. Attributes e layer (explain x)) (sym (in_layer_again e layer other h))
      (subst (λ o. Attributes e layer (explained e (or_none o) (embedded_layer e.text))) (sym h)
        (explained-Attributes e layer (embedded_layer e.text) (embedded_layer-First e.text) h))
