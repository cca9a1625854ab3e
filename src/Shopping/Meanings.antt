-- ===== src/Shopping/Meanings.antt =====
-- The words that `routeFor` of internal/shopgraph/builder.go reads as a route.
use agent_mart.Prelude.{
  ◌≡◌, refl, ◌↔◌, ◌⊎◌, inl, inr, Bool, true, false, Option, none, some, List, [], ◌∷◌, arith,
  Bool-cases, if◌then◌else◌,
}
use agent_mart.Prelude.Text.{Text, bytes, text_eq, trim_space, eq_of_text_eq, text_eq_refl}
use agent_mart.Shopping.Words.{to_lower}
use agent_mart.Shopping.Route.{
  Route, accept_route, negotiate_route, ask_human_route, decline_route, one_of, named_route,
}

-- The text is one of these words.
abbrev pub AnyOf : Text → List Text → Type 0
AnyOf s [] = ⊥
AnyOf s (w ∷ ws) = (s ≡ w) ⊎ AnyOf s ws

-- A decision, however it is spaced and capitalised, is one of these words.
abbrev pub Says : Text → List Text → Type 0
Says decision ws = AnyOf (to_lower (trim_space decision)) ws

abbrev pub acceptance : List Text
acceptance = bytes "accept" ∷ bytes "buy" ∷ bytes "accept_offer" ∷ []

abbrev pub bargaining : List Text
bargaining = bytes "negotiate" ∷ bytes "counter" ∷ bytes "counter_offer" ∷ []

abbrev questions : List Text
questions =
    bytes "ask_human" ∷ bytes "ask-human" ∷ bytes "askhuman" ∷ bytes "human" ∷ bytes "confirm" ∷ []

abbrev pub refusal : List Text
refusal = bytes "decline" ∷ bytes "reject" ∷ bytes "skip" ∷ []

AnyOf-one_of : (s : Text) (ws : List Text) → one_of s ws ≡ true → AnyOf s ws
AnyOf-one_of s [] h = absurd (ground arith)
AnyOf-one_of s (w ∷ ws) h = elim (Bool-cases (text_eq s w)) [
  | inl e ↦ inl (eq_of_text_eq s w e)
  | inr e ↦ inr (AnyOf-one_of s ws (let k = rw e at h in k))
]

one_of-AnyOf : (s : Text) (ws : List Text) → AnyOf s ws → one_of s ws ≡ true
one_of-AnyOf s [] h = absurd h
one_of-AnyOf s (w ∷ ws) (inl e) = rw (e, text_eq_refl w) refl
one_of-AnyOf s (w ∷ ws) (inr h) = elim (Bool-cases (text_eq s w)) [
  | inl e ↦ rw e refl
  | inr e ↦ rw e (one_of-AnyOf s ws h)
]

-- The route of four tests, in their order.
abbrev tested : Bool → Bool → Bool → Bool → Option Route
tested a n q d =
    if a
    then some accept_route
    else if n
    then some negotiate_route
    else if q
    then some ask_human_route
    else if d
    then some decline_route
    else none

tested_accept : (a n q d : Bool) → tested a n q d ≡ some accept_route → a ≡ true
tested_accept a n q d h = ground arith

tested_negotiate : (a n q d : Bool) → tested a n q d ≡ some negotiate_route → n ≡ true
tested_negotiate a n q d h = ground arith

tested_decline : (a n q d : Bool) → tested a n q d ≡ some decline_route → d ≡ true
tested_decline a n q d h = ground arith

bargains_only : (s : Text) → AnyOf s bargaining → one_of s acceptance ≡ false
bargains_only s (inl e) = rw e refl
bargains_only s (inr (inl e)) = rw e refl
bargains_only s (inr (inr (inl e))) = rw e refl
bargains_only s (inr (inr (inr h))) = absurd h

refuses_only :
    (s : Text)
    → AnyOf s refusal
    → (one_of s acceptance ≡ false) × (one_of s bargaining ≡ false) × (one_of s questions ≡ false)
refuses_only s (inl e) = rw e (refl, refl, refl)
refuses_only s (inr (inl e)) = rw e (refl, refl, refl)
refuses_only s (inr (inr (inl e))) = rw e (refl, refl, refl)
refuses_only s (inr (inr (inr h))) = absurd h

pub means_accept :
    (decision : Text) → (named_route decision ≡ some accept_route) ↔ Says decision acceptance
unfolding named_route
means_accept decision = (
  λ h. AnyOf-one_of _ acceptance (tested_accept _ _ _ _ h),
  λ h. rw (one_of-AnyOf _ acceptance h) refl,
)

pub means_negotiate :
    (decision : Text) → (named_route decision ≡ some negotiate_route) ↔ Says decision bargaining
unfolding named_route
means_negotiate decision = (
  λ h. AnyOf-one_of _ bargaining (tested_negotiate _ _ _ _ h),
  λ h. rw (bargains_only _ h, one_of-AnyOf _ bargaining h) refl,
)

pub means_decline :
    (decision : Text) → (named_route decision ≡ some decline_route) ↔ Says decision refusal
unfolding named_route
means_decline decision = (
  λ h. AnyOf-one_of _ refusal (tested_decline _ _ _ _ h),
  λ h. let (a, n, q) = refuses_only _ h in rw (a, n, q, one_of-AnyOf _ refusal h) refl,
)
