-- ===== src/Negotiation/Tests.antt =====
-- Runs of the negotiation, and its theorems at concrete inputs.
use agent_mart.Prelude.{
  ℕ, ◌-◌, ◌*◌, ◌≤◌, ◌<◌, ◌≡◌, ◌↔◌, inl, refl, true, false, none, some, arith, [],
}
use Prim.Native.Nat.{min, max}
use agent_mart.Prelude.Int.{ℤ, pos, ◌≤ℤ◌, ◌+ℤ◌, ◌*ℤ◌, ltb_ℤ}
use agent_mart.Prelude.Int64.{◌+64◌, ◌-64◌, ◌*64◌, ◌/64◌}
use agent_mart.Prelude.Text.{bytes, trim_space}
use agent_mart.Prelude.Result.{ok}
use agent_mart.Prelude.Float.{scale, scale_ℕ, round53}
use agent_mart.Prelude.Decimal.{decimal}
use agent_mart.Catalog.{Product}
use agent_mart.Negotiation.Conditions.{
  TradingConditions, unobserved, uplift_bps, add_cover, keep_share, cover_bps, add_trust,
  add_scarcity, cap_uplift, apply_bps,
}
use agent_mart.Negotiation.Uplift.{full_uplift, explained, uplift_bps-eq, uplift_bps_unproven}
use agent_mart.Negotiation.Offer.{
  Offer, Priced, attach, attaches, opening_offer, main_offer, with_partner, entitled_floor,
  floor_for, add_partner_cost,
}
use agent_mart.Negotiation.Quote.{IsListed, IsMeasured, opening_offer_bounds}
use agent_mart.Negotiation.Floor.{funded, entitled_floor-eq}
use agent_mart.Negotiation.Session.{
  Session, Proposal, Counter, proposed, new, validate_counter, counter_offer, renegotiate, accept,
  offered, recountered, accepted_as,
}
use agent_mart.Negotiation.Lifecycle.{
  Step, Run, offers, renegotiates, accepts, start, then, IsValid, used, Run-bounded, closed_absorbs,
}
use agent_mart.Negotiation.Orchestrator.{decide, answer, minimum}
use agent_mart.Negotiation.Concession.{decide_bounds, decide_first_round}

abbrev trimmer : Product
trimmer = record {
  id = bytes "trimmer";
  name = bytes "Trimmer";
  category = bytes "grooming";
  price_paise = pos 100000;
  stock = pos 5;
  warranty_years = pos 2;
  trust_score = pos 92;
  combo_with = some (bytes "oil");
  combo_discount_pct = pos 20;
  cost_paise = pos 0;
}

abbrev oil : Product
oil = record {
  id = bytes "oil";
  name = bytes "Oil";
  category = bytes "grooming";
  price_paise = pos 20000;
  stock = pos 1;
  warranty_years = pos 0;
  trust_score = pos 80;
  combo_with = none;
  combo_discount_pct = pos 0;
  cost_paise = pos 0;
}

abbrev conditions : TradingConditions
conditions = record {
  refund_rate_pct = pos 10;
  refund_rate_known = true;
  units_sold = pos 12;
  stock_cover_days = pos 4;
  observed = true;
}

-- 270 for cover, 120 for trust and 300 for scarcity.
trimmer_uplift : (uplift_bps (pos 2) (pos 92) conditions).0 ≡ pos 690
unfolding uplift_bps add_cover cover_bps keep_share add_trust add_scarcity cap_uplift ◌+64◌ ◌-64◌
    ◌*64◌ ◌/64◌
trimmer_uplift = refl

uplift_bps-eq_example :
    ((uplift_bps (pos 2) (pos 92) conditions).0
      ≡ pos (min (full_uplift (pos 2) (pos 92) conditions) 1200))
    × (explained (uplift_bps (pos 2) (pos 92) conditions).1
        ≡ full_uplift (pos 2) (pos 92) conditions)
uplift_bps-eq_example =
    uplift_bps-eq (pos 2) (pos 92) conditions (omega arith) (omega arith) (omega arith)

abbrev blind : TradingConditions
blind = record conditions { refund_rate_known = false; observed = false }

uplift_bps_unproven_example :
    uplift_bps (pos 2) (pos 92) blind ≡ uplift_bps (pos 0) (pos 92) unobserved
uplift_bps_unproven_example = uplift_bps_unproven (pos 2) (pos 92) blind refl refl

abbrev main : Priced
main = record { product = trimmer; cost_paise = pos 60000 }

abbrev partner : Priced
partner = record { product = oil; cost_paise = pos 12000 }

trimmer-IsListed : IsListed trimmer 100000 1
trimmer-IsListed = record {
  priced = refl;
  unit_pos = omega arith;
  quantity_pos = omega arith;
  total_bounded = omega arith;
}

oil-IsListed : IsListed oil 20000 1
oil-IsListed = record {
  priced = refl;
  unit_pos = omega arith;
  quantity_pos = omega arith;
  total_bounded = omega arith;
}

trimmer-IsMeasured : IsMeasured trimmer conditions
trimmer-IsMeasured = record {
  warranty_bounded = omega arith;
  trust_bounded = omega arith;
  refund_range = omega arith;
}

opening_offer_bounds_example :
    (o : Offer) × (u b : ℕ) × (opening_offer main (some partner) (pos 1) conditions ≡ ok o)
    × (o.base_paise ≡ pos 100000 *ℤ pos 1)
    × (o.final_paise ≡ o.base_paise +ℤ pos u +ℤ pos b)
    × (o.bundled_paise ≡ pos b)
    × (10000 * u ≤ 1200 * (100000 * 1))
    × (b ≤ 20000 * 1)
    × (attaches trimmer oil (pos 1) ≡ false → b ≡ 0)
opening_offer_bounds_example =
    opening_offer_bounds main partner 100000 20000 20 1 conditions trimmer-IsListed
      trimmer-IsMeasured oil-IsListed refl

entitled_floor-eq_example :
    entitled_floor (pos 60000) (pos 100000) (pos 15)
    ≡ pos (max 60000 (100000 - funded (pos 15) 100000))
entitled_floor-eq_example = entitled_floor-eq 60000 100000 (pos 15) (omega arith)

abbrev with_stock : Priced → ℤ → Priced
with_stock p n = record p { product = record p.product { stock = n } }

-- A partner that is out of stock is left out of the ask and charged in the floor: where goods
-- and partner cost almost their prices, the floor passes the ask, and no counter can be recorded.
abbrev dear : Priced
dear = record {
  product = record trimmer { warranty_years = pos 0; trust_score = pos 80 };
  cost_paise = pos 95000;
}

dear_ask :
    (o : Offer) × (opening_offer dear (some (with_stock partner (pos 0))) (pos 1) unobserved ≡ ok o)
    × (o.final_paise ≡ pos 100000)
unfolding opening_offer with_partner main_offer uplift_bps add_cover cover_bps keep_share add_trust
    add_scarcity cap_uplift apply_bps ◌+64◌ ◌-64◌ ◌*64◌ ◌/64◌
dear_ask = (main_offer dear.product (pos 1) unobserved, refl, refl)

dear_floor : floor_for dear (some (with_stock partner (pos 0))) (pos 1) ≡ ok (pos 104600)
unfolding floor_for add_partner_cost ◌+64◌ ◌-64◌ ◌*64◌ ◌/64◌
dear_floor = refl

-- A share of a price beyond 2 ^ 63 / 100 wraps, past the guard of the opening offer.
abbrev vast : Product
vast = record oil { price_paise = pos 4611686018427387904 }

vast_bundle :
    (o : Offer) × (attach vast (pos 1) (pos 1) (main_offer trimmer (pos 1) unobserved) ≡ ok o)
    × (ltb_ℤ o.bundled_paise (pos 0) ≡ true)
unfolding attach main_offer uplift_bps add_cover cover_bps keep_share add_trust add_scarcity
    cap_uplift apply_bps ◌+64◌ ◌-64◌ ◌*64◌ ◌/64◌ decimal
vast_bundle = (_, refl, refl)

abbrev proposal : Proposal
proposal = record { product_id = bytes "trimmer"; quantity = pos 1; base_amount_paise = pos 100000 }

abbrev opened : Session
opened = record {
  proposal = proposal;
  counter = record { final_amount_paise = pos 0; reason = []; quoted_at = pos 0 };
  status = proposed;
  round = pos 0;
  transcript = [];
  buyer_account_id = [];
  floor_paise = pos 0;
  bundled_paise = pos 0;
}

abbrev quote : Counter
quote = record { final_amount_paise = pos 106900; reason = bytes "cover"; quoted_at = pos 0 }

abbrev lower : Counter
lower = record { final_amount_paise = pos 102000; reason = bytes "for you"; quoted_at = pos 0 }

abbrev first : Session
first = offered opened quote (pos 10)

abbrev second : Session
second = recountered first lower (pos 20)

abbrev agreed : Session
agreed = accepted_as second (pos 30)

deal : Run opened 3 agreed
unfolding counter_offer validate_counter renegotiate accept trim_space ◌+64◌
deal =
    then (then (then start (offers quote (pos 10) refl)) (renegotiates lower (pos 20) refl))
      (accepts (pos 30) refl)

Run-bounded_example :
    IsValid agreed
    × (agreed.proposal ≡ proposal)
    × (◌≡◌ {A = ℕ} 3 (used agreed.status agreed.round))
    × (3 ≤ 4)
unfolding new trim_space
Run-bounded_example = Run-bounded proposal refl deal

closed_absorbs_example : ¬ (Step agreed second)
closed_absorbs_example = closed_absorbs {s = agreed} {s' = second} (inl refl)

-- The second round accepts from six tenths of the span on, the first only the ask.
second_round : (decide second (pos 101200) (pos 100000)).is_accepted ≡ true
unfolding decide answer minimum scale ◌+64◌ ◌-64◌ scale_ℕ round53
second_round = refl

decide_bounds_example :
    (k : ℕ) × ((decide first (pos 101000) (pos 100000)).final_paise ≡ pos k)
    × (100000 ≤ k)
    × (k ≤ 106900)
    × ((decide first (pos 101000) (pos 100000)).is_accepted ≡ true → k ≡ min 101000 106900)
    × ((decide first (pos 101000) (pos 100000)).is_accepted ≡ false → 101000 < 106900)
    × ((decide first (pos 101000) (pos 100000)).is_exhausted ≡ false → min 101000 106900 ≤ k)
    × ((decide first (pos 101000) (pos 100000)).is_exhausted ≡ true
        → (k ≡ 100000)
          × ((decide first (pos 101000) (pos 100000)).is_accepted ≡ false)
          × (pos 3 ≤ℤ pos 1))
decide_bounds_example =
    decide_bounds first 106900 101000 100000 refl (omega arith) (omega arith) (omega arith)

decide_first_round_example :
    ((decide first (pos 106000) (pos 100000)).is_accepted ≡ true) ↔ (106900 ≤ 106000)
decide_first_round_example =
    decide_first_round first 106900 106000 100000 refl (omega arith) (omega arith) (omega arith)
      refl
