-- ===== src/Merchant/Tests.antt =====
-- A pass of the merchant graph, and its theorems there.
use agent_mart.Prelude.{◌≡◌, refl, none, some, arith, List, [], ◌∷◌}
use agent_mart.Prelude.Int.{pos}
use agent_mart.Prelude.Int64.{◌-64◌}
use agent_mart.Prelude.Text.{bytes, trim_space}
use agent_mart.Prelude.Decimal.{decimal}
use agent_mart.Prelude.Result.{ok, err, pure, lift, ◌>>=◌}
use agent_mart.Negotiation.Session.{countered}
use agent_mart.Negotiation.Server.{CounterInput, no_product}
use agent_mart.Merchant.Graph.{
  Merchant, Auditor, Decision, low_bound, clamp_to_rails, facts_from, eligibility,
  add_trading_conditions, assemble, guarded, pass,
}
use agent_mart.Merchant.Guard.{OnRails, pass-OnRails, clamp_to_rails_passes}

-- A strategist that would sell below cost.
abbrev generous : Merchant
generous = record {
  campaigns = none;
  trading = some (λ id. err (bytes "down"));
  strategist = λ f. ok (record { strategy = []; amount_paise = pos 1; reason = [] });
}

abbrev input : CounterInput
input = record {
  session = record {
    proposal = record {
      product_id = bytes "trimmer";
      quantity = pos 1;
      base_amount_paise = pos 100000;
    };
    counter = record { final_amount_paise = pos 106900; reason = []; quoted_at = pos 1 };
    status = countered;
    round = pos 1;
    transcript = [];
    buyer_account_id = [];
    floor_paise = pos 100000;
    bundled_paise = pos 0;
  };
  product = no_product;
  partner = none;
  floor_paise = pos 100000;
  ask_paise = pos 106900;
  buyer_paise = pos 101000;
  min_acceptable_paise = pos 103000;
  buyer_account_id = [];
}

abbrev keeper : Auditor (List Decision)
keeper i f d trail = (ok tt, d ∷ trail)

-- It is raised to the concession floor of the round, and says so.
abbrev raised : Decision
raised = record {
  amount_paise = pos 103000;
  reason = bytes "best price we can hold while keeping the quality guarantees";
  strategy = bytes "concede";
  guard_note = bytes "raised to 103000: strategy amount was below this round's concession floor";
  margin_paise = pos 3000;
}

generous_is_raised : (pass generous (some keeper) input []).0 ≡ ok raised
unfolding pass assemble guarded clamp_to_rails low_bound facts_from eligibility
    add_trading_conditions ◌>>=◌ pure lift ◌-64◌ decimal trim_space
generous_is_raised = refl

pass-OnRails_example :
    OnRails (pos 103000) (pos 100000) (pos 101000) (pos 103000) (pos 106900)
    × ((keeper input (assemble generous input) raised []).0 ≡ ok tt)
    × ((pass generous (some keeper) input []).1
        ≡ (keeper input (assemble generous input) raised []).1)
pass-OnRails_example = pass-OnRails generous keeper input [] raised (omega arith) generous_is_raised

clamp_to_rails_passes_example :
    clamp_to_rails (pos 104000) (pos 100000) (pos 101000) (pos 103000) (pos 106900)
    ≡ (pos 104000, [])
clamp_to_rails_passes_example =
    clamp_to_rails_passes (pos 104000) (pos 100000) (pos 101000) (pos 103000) (pos 106900)
      (omega arith) (omega arith) (omega arith) (omega arith) (omega arith)
