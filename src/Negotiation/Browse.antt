-- ===== src/Negotiation/Browse.antt =====
-- internal/negotiation/browse.go: the shop's opening turn.
use agent_mart.Prelude.{Bool, false, ◌||◌, ◌++◌, Option, none, some, List, [], ◌∷◌, if◌then◌else◌}
use agent_mart.Prelude.Int.{ℤ, pos, ltb_ℤ}
use agent_mart.Prelude.Text.{Text, bytes, trim_space, text_eq}
use agent_mart.Prelude.Decimal.{rupees}
use agent_mart.Prelude.Result.{Result, ok, err}
use agent_mart.Gate.Defs.{Time}
use agent_mart.Catalog.{Product}
use agent_mart.Wallet.{is_blank}
use agent_mart.Negotiation.Session.{buyer, merchant, Turn}

pub record BrowseInput : Type 0 where
  pub brief : Text
  pub budget_paise : ℤ
  pub account_id : Text
  pub candidates : List Product

pub record BrowseOption : Type 0 where
  pub product_id : Text
  pub name : Text
  pub pitch : Text
  pub includes : Text
  pub price_paise : ℤ
  pub stock : ℤ
  pub warranty_years : ℤ
  pub trust_score : ℤ

pub record BrowseOutput : Type 0 where
  pub greeting : Text
  pub options : List BrowseOption
  pub closing : Text

-- The answer; without a shortlist it has no closing.
pub record Shortlist : Type 0 where
  pub greeting : Text
  pub options : List BrowseOption
  pub closing : Option Text
  pub transcript : List Turn

abbrev pub Shortlister : Type 0
Shortlister = BrowseInput → Result BrowseOutput

abbrev pub later : Option Product → Option Product → Option Product
later (some p) q = some p
later none q = q

-- The row of an id: of two candidates with one id the later.
abbrev pub row_of : List Product → Text → Option Product
row_of [] id = none
row_of (p ∷ ps) id = later (row_of ps id) (if text_eq p.id id then some p else none)

abbrev pub seen_in : Text → List Text → Bool
seen_in id [] = false
seen_in id (s ∷ ss) = text_eq s id || seen_in id ss

-- The option with the row's id, name and numbers.
abbrev pub from_row : BrowseOption → Product → BrowseOption
from_row o row = record o {
  product_id = row.id;
  name = row.name;
  price_paise = row.price_paise;
  stock = row.stock;
  warranty_years = row.warranty_years;
  trust_score = row.trust_score;
}

abbrev pub kept :
    Option Product
    → BrowseOption
    → List Text
    → List BrowseOption
    → (Text → List BrowseOption)
    → List BrowseOption
kept none o seen skipped rest = skipped
kept (some row) o seen skipped rest =
    if seen_in row.id seen then skipped else from_row o row ∷ rest row.id

unfoldable pub true_options : List Product → List Text → List BrowseOption → List BrowseOption
true_options candidates seen [] = []
true_options candidates seen (o ∷ os) =
    kept (row_of candidates (trim_space o.product_id)) o seen (true_options candidates seen os)
      (λ id. true_options candidates (id ∷ seen) os)

-- `withCatalogTruth`
unfoldable pub with_catalog_truth : List BrowseOption → List Product → List BrowseOption
unfolding true_options
with_catalog_truth options candidates = true_options candidates [] options

-- `buyerOpening`
unfoldable pub buyer_opening : Text → ℤ → Text
buyer_opening brief budget =
    if ltb_ℤ (pos 0) budget
    then bytes "Looking for "
      ++ (brief ++ (bytes ", budget around INR " ++ (rupees budget ++ bytes ". What do you have?")))
    else bytes "Looking for " ++ (brief ++ bytes ". What do you have?")

abbrev option_lines : List BrowseOption → Text
option_lines [] = []
option_lines (o ∷ os) =
    10
    ∷ (bytes "- "
        ++ (o.name
            ++ (bytes " at INR "
                ++ (rupees o.price_paise ++ (bytes ": " ++ (o.pitch ++ option_lines os))))))

-- `merchantOpening`
unfoldable pub merchant_opening : BrowseOutput → Text
merchant_opening out =
    trim_space out.greeting
    ++ (option_lines out.options
        ++ (if is_blank out.closing then [] else 10 ∷ trim_space out.closing))

abbrev opening : Text → ℤ → Text → Time → List Turn
opening brief budget said now =
    record { actor = buyer; message = buyer_opening brief budget; at = now }
    ∷ record { actor = merchant; message = said; at = now }
    ∷ []

-- `nothingFits`
unfoldable pub nothing_fits : Text → ℤ → Text → Time → Shortlist
nothing_fits brief budget spoken now =
    let greeting =
      if is_blank spoken
      then bytes "Nothing I have right now fits that budget."
      else trim_space spoken in
    record {
      greeting = greeting;
      options = [];
      closing = none;
      transcript = opening brief budget greeting now;
    }

abbrev pub shown : Text → ℤ → Time → BrowseOutput → List BrowseOption → Shortlist
shown brief budget now out [] = nothing_fits brief budget out.greeting now
shown brief budget now out (o ∷ os) = record {
  greeting = out.greeting;
  options = o ∷ os;
  closing = some out.closing;
  transcript = opening brief budget (merchant_opening (record out { options = o ∷ os })) now;
}

abbrev pub pitched : Text → ℤ → Time → List Product → Result BrowseOutput → Result Shortlist
pitched brief budget now candidates (err e) = err (bytes "shop owner could not answer: " ++ e)
pitched brief budget now candidates (ok out) =
    ok (shown brief budget now out (with_catalog_truth out.options candidates))

abbrev pub looked_through :
    Text → ℤ → Text → Time → Shortlister → Result (List Product) → Result Shortlist
looked_through brief budget account now ask (err e) = err (bytes "look through stock: " ++ e)
looked_through brief budget account now ask (ok []) = ok (nothing_fits brief budget [] now)
looked_through brief budget account now ask (ok (c ∷ cs)) = pitched brief budget now (c ∷ cs) (
    ask (record {
      brief = brief;
      budget_paise = budget;
      account_id = trim_space account;
      candidates = c ∷ cs;
    }))

abbrev pub browse_with :
    Option (ℤ → Result (List Product))
    → Option Shortlister
    → Time
    → Text
    → ℤ
    → Text
    → Result Shortlist
browse_with (some search) (some ask) now brief budget account =
    looked_through brief budget account now ask (search budget)
browse_with (some search) none now brief budget account =
    err (bytes "this merchant cannot show a shortlist")
browse_with none ask now brief budget account = err (bytes "this merchant cannot show a shortlist")

-- `browse`, over the stock within a price and the shop owner, each of which the server may lack.
unfoldable pub browse :
    Option (ℤ → Result (List Product))
    → Option Shortlister
    → Time
    → Text
    → ℤ
    → Text
    → Result Shortlist
browse search ask now brief budget account =
    if is_blank brief
    then err (bytes "brief is required to browse")
    else browse_with search ask now (trim_space brief) budget account
