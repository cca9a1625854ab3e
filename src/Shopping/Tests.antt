-- ===== src/Shopping/Tests.antt =====
-- Runs of the shopping graph against a shop with one trimmer, and its theorems at them.
use agent_mart.Prelude.{◌≡◌, refl, false, none, some, List, [], ◌∷◌}
use agent_mart.Prelude.Int.{pos}
use agent_mart.Prelude.Text.{Text, bytes, trim_space}
use agent_mart.Prelude.Decimal.{rupees}
use agent_mart.Prelude.Int64.{◌+64◌, ◌-64◌, ◌*64◌, ◌/64◌}
use agent_mart.Prelude.Result.{ok, err, ◌>>=◌, pure, fail, lift}
use agent_mart.Catalog.{Product}
use agent_mart.Shopping.World.{
  Wallet, Conversation, PriorOption, Resolution, Assessment, Offer, Settled, Event, typed, Shop,
  counter_offer, accept_offer,
}
use agent_mart.Shopping.Words.{
  to_lower, join, join_reason, brief_with_history, is_empty_conversation,
}
use agent_mart.Shopping.Route.{
  accept_route, named_route, route_for, normalized, shown_option, premium_over, outcome_from, buy,
}
use agent_mart.Shopping.State.{call, note_to, record_shown, record_priced, emit}
use agent_mart.Shopping.Nodes.{
  ask_shop, choose, choose_option, pick_from, selection_from, fetch_offer, clock, judged, assess,
  decide_offer,
}
use agent_mart.Shopping.Settle.{
  no_resolution, perform, fenced, outcome_from_any, settled_amount, settled_goods, quoted_at,
  band_crossed, verified, negotiate, finalize, look_up,
}
use agent_mart.Shopping.Run.{graph, result_from, continue_with_progress}
use agent_mart.Shopping.Choices.{Routed, Closed, route_for-Affordable, normalized-Closed}

abbrev wallet : Wallet
wallet = record {
  balance_paise = pos 500000;
  spend_limit_paise = pos 200000;
  budget_paise = pos 0;
  account_id = bytes "acct";
}

abbrev first_message : Conversation
first_message = record { brief = []; options = []; chosen = [] }

abbrev trimmer : Product
trimmer = record {
  id = bytes "trimmer";
  name = bytes "Trimmer";
  category = bytes "care";
  price_paise = pos 90000;
  stock = pos 4;
  warranty_years = pos 1;
  trust_score = pos 80;
  combo_with = none;
  combo_discount_pct = pos 0;
  cost_paise = pos 50000;
}

abbrev resolution : Resolution
resolution = record no_resolution {
  session_id = bytes "s1";
  status = bytes "accepted";
  final_amount_paise = pos 92000;
}

abbrev decision : Text → Event Assessment
decision d = record { output = typed (record { decision = d; reason = bytes "fair" }); parts = [] }

-- A shop whose buyer agent judges every offer with `d`.
abbrev shop : Text → Shop
shop d = record {
  browse = λ t brief budget account. ok (record {
    options =
        record { product_id = bytes "trimmer"; name = bytes "Trimmer"; price_paise = pos 90000 }
        ∷ [];
    transcript = [];
  });
  get = λ t id. ok trimmer;
  offers = λ t id n account. ok (record {
    session_id = bytes "s1";
    product_id = id;
    quantity = n;
    base_amount_paise = pos 90000;
    final_amount_paise = pos 95000;
    reason = bytes "well reviewed";
    name = bytes "Trimmer";
    bundle = none;
    transcript = [];
  });
  counter = λ t s amount.
      ok (record resolution { status = bytes "countered"; final_amount_paise = pos 93000 });
  accept = λ t s. ok resolution;
  decline = λ t s reason. (no_resolution, none);
  choose = λ t l p. ok (
      some (record {
        output = typed (record {
          product_id = bytes " trimmer";
          quantity = pos 0;
          rationale = bytes "it suits";
        });
        parts = [];
      }));
  assess = λ t v. ok (some (decision d));
  moves = λ t o. counter_offer (bytes "s1") (pos 91000) ∷ accept_offer (bytes "s1") ∷ [];
  settle = λ t o.
      ok (record (outcome_from o no_resolution) { status = bytes "accepted"; final_paise = pos 1 });
  read_selection = λ s. none;
  read_assessment = λ s. none;
  explain = λ e. e;
  quoted = λ s. s;
  now = λ t. pos 7000000000;
  events = λ t. bytes "3";
  raised = λ e. e;
}

abbrev shown : List PriorOption
shown =
    record { product_id = bytes "trimmer"; name = bytes "Trimmer"; price_paise = pos 90000 } ∷ []

-- The agent wrote one paisa; the merchant accepted at 920 rupees.
abbrev bought : Settled
bought = record {
  action = buy;
  product_id = bytes "trimmer";
  product_name = bytes "Trimmer";
  quantity = pos 1;
  final_paise = pos 92000;
  rationale = [];
  steps = [];
  session_id = bytes "s1";
  transcript = [];
  accepted = false;
  needs_approval = false;
  bundled_paise = pos 0;
  quoted_at = pos 7000000000;
  shown = shown;
}

-- An agent that writes an amount and asks the merchant nothing.
abbrev silent : Shop
silent = record (shop (bytes "negotiate")) { moves = λ t o. [] }

unconfirmed_run :
    (continue_with_progress silent wallet first_message (bytes "a trimmer")).0
    ≡ ok (record bought { final_paise = pos 1 })
unfolding continue_with_progress graph ask_shop choose_option choose selection_from pick_from
    shown_option fetch_offer decide_offer judged assess route_for named_route to_lower trim_space
    premium_over ◌+64◌ ◌-64◌ ◌*64◌ ◌/64◌ negotiate perform fenced finalize look_up outcome_from_any
    settled_amount settled_goods quoted_at band_crossed verified result_from normalized call note_to
    record_shown record_priced emit clock pure fail lift ◌>>=◌ brief_with_history
    is_empty_conversation rupees join join_reason outcome_from
unconfirmed_run = refl

abbrev broken : Shop
broken = record (shop (bytes "accept")) { browse = λ t brief budget account. err (bytes "down") }

fails_alone :
    (continue_with_progress broken wallet first_message (bytes "a trimmer")).0
    ≡ err (bytes "graph run failed after 3 events: down")
unfolding continue_with_progress graph ask_shop trim_space call note_to ◌>>=◌ brief_with_history
    is_empty_conversation rupees
fails_alone = refl

abbrev offer : Offer
offer = record {
  session_id = bytes "s1";
  product_id = bytes "trimmer";
  product_name = bytes "Trimmer";
  quantity = pos 1;
  base_paise = pos 90000;
  final_paise = pos 95000;
  bundled_paise = pos 0;
  reason = [];
  route = [];
  transcript = [];
  shop_turns = [];
  quoted_at = pos 7000000000;
}

abbrev judgement : Assessment
judgement = record { decision = bytes " Buy "; reason = [] }

route_for-Affordable_example :
    Routed judgement offer wallet (route_for (shop (bytes "accept")) judgement offer wallet).0
route_for-Affordable_example = route_for-Affordable (shop (bytes "accept")) judgement offer wallet

accepts_within_limit : (route_for (shop []) judgement offer wallet).0 ≡ accept_route
unfolding route_for named_route to_lower trim_space
accepts_within_limit = refl

normalized-Closed_example :
    Closed
      (record bought { action = bytes "purchase" })
      (normalized (shop []) (record bought { action = bytes "purchase" }))
normalized-Closed_example =
    normalized-Closed (shop []) (record bought { action = bytes "purchase" })
