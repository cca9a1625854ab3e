-- ===== src/Negotiation/Shelf.antt =====
-- Properties of internal/negotiation/browse.go: what the shop may show.
use agent_mart.Prelude.{◌≡◌, ◌⊎◌, false, List, [], ◌∷◌}
use agent_mart.Prelude.Text.{Text}
use agent_mart.Prelude.Result.{Result, ok}
use agent_mart.Catalog.{Product}
use agent_mart.Negotiation.Browse.{BrowseOption, Shortlist, seen_in, from_row}

abbrev pub Among : Product → List Product → Type 0
Among p [] = ⊥
Among p (q ∷ qs) = (p ≡ q) ⊎ Among p qs

-- The option's id, name and numbers are those of one of the products.
pub record FromStock (ps : List Product) (o : BrowseOption) : Type 0 where
  pub product : Product
  pub among : Among product ps
  pub same : from_row o product ≡ o

abbrev pub AllFromStock : List Product → List BrowseOption → Type 0
AllFromStock ps [] = Unit {0}
AllFromStock ps (o ∷ os) = FromStock ps o × AllFromStock ps os

-- No option has one of these ids.
abbrev pub NoneOf : List Text → List BrowseOption → Type 0
NoneOf ids [] = Unit {0}
NoneOf ids (o ∷ os) = (seen_in o.product_id ids ≡ false) × NoneOf ids os

-- No two options have one id.
abbrev pub Distinct : List BrowseOption → Type 0
Distinct [] = Unit {0}
Distinct (o ∷ os) = NoneOf (o.product_id ∷ []) os × Distinct os

-- What a shelf is, with these ids out of the way.
abbrev Shelf : List Product → List Text → List BrowseOption → Type 0
Shelf ps seen os = AllFromStock ps os × NoneOf seen os × Distinct os

abbrev Stocked : List Product → Result Shortlist → Type 0
Stocked ps a = (s : Shortlist) → a ≡ ok s → AllFromStock ps s.options × Distinct s.options
