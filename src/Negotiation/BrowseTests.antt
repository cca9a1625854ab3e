-- ===== src/Negotiation/BrowseTests.antt =====
-- The shop's opening turn over two products, and its theorem at it.
use agent_mart.Prelude.{none, some, List, [], ◌∷◌, ◌++◌}
use agent_mart.Prelude.Int.{ℤ, pos}
use agent_mart.Prelude.Text.{Text, bytes}
use agent_mart.Prelude.Result.{Result, ok}
use agent_mart.Catalog.{Product}
use agent_mart.Negotiation.Session.{buyer, merchant}
use agent_mart.Negotiation.Browse.{BrowseOption, Shortlist, Shortlister}

abbrev lamp : Product
lamp = record {
  id = bytes "lamp";
  name = bytes "Lamp";
  category = bytes "home";
  price_paise = pos 90000;
  stock = pos 4;
  warranty_years = pos 1;
  trust_score = pos 80;
  combo_with = none;
  combo_discount_pct = pos 0;
  cost_paise = pos 50000;
}

abbrev pitch : Text → BrowseOption
pitch id = record {
  product_id = id;
  name = bytes "Golden lamp";
  pitch = bytes "bright";
  includes = [];
  price_paise = pos 1;
  stock = pos 99;
  warranty_years = pos 9;
  trust_score = pos 100;
}

-- The owner invents numbers, repeats a product and pitches one that is not there.
abbrev owner : Shortlister
owner = λ i. ok (record {
  greeting = bytes "Welcome";
  options = pitch (bytes " lamp") ∷ pitch (bytes "sofa") ∷ pitch (bytes "lamp") ∷ [];
  closing = [];
})

abbrev search : ℤ → Result (List Product)
search = λ budget. ok (lamp ∷ [])

abbrev options : List BrowseOption
options =
    record (pitch (bytes "lamp")) {
      name = bytes "Lamp";
      price_paise = pos 90000;
      stock = pos 4;
      warranty_years = pos 1;
      trust_score = pos 80;
    }
    ∷ []

abbrev shortlist : Shortlist
shortlist = record {
  greeting = bytes "Welcome";
  options = options;
  closing = some [];
  transcript =
      record { actor = buyer; message = bytes "Looking for a lamp. What do you have?"; at = pos 7 }
      ∷ record {
        actor = merchant;
        message = bytes "Welcome" ++ (10 ∷ bytes "- Lamp at INR 900.00: bright");
        at = pos 7;
      }
      ∷ [];
}
