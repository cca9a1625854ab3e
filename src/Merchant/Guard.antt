-- ===== src/Merchant/Guard.antt =====
-- The guard of internal/marketgraph, and the rails of the price.
use agent_mart.Prelude.{◌≡◌, refl, Option, none, some, [], arith, inl, inr}
use mathlib.Core.Path.{subst}
use agent_mart.Prelude.Int.{ℤ, pos, ◌≤ℤ◌, ◌<ℤ◌}
use agent_mart.Prelude.Text.{Text}
use agent_mart.Prelude.Result.{Result, ok, err, Result-cases, ◌>>=◌, pure, lift}
use agent_mart.Negotiation.Conditions.{TradingConditions}
use agent_mart.Negotiation.Server.{CounterInput}
use agent_mart.Merchant.Graph.{
  Facts, StrategyChoice, Decision, Merchant, Auditor, low_bound, clamp_to_rails, facts_from,
  add_trading_conditions, assemble, guarded, pass, observe, read_trading,
}

-- Not above the standing ask, nor below any floor that the ask leaves room for.
pub record OnRails (amount floor buyer_paise min_acceptable ask : ℤ) : Type 0 where
  pub at_most_ask : amount ≤ℤ ask
  pub at_least_floor : floor ≤ℤ ask → floor ≤ℤ amount
  pub at_least_buyer : buyer_paise ≤ℤ ask → buyer_paise ≤ℤ amount
  pub at_least_round : min_acceptable ≤ℤ ask → min_acceptable ≤ℤ amount

clamp_to_rails-OnRails :
    (proposed floor buyer_paise min_acceptable ask : ℤ)
    → pos 0 <ℤ ask
    → OnRails
        (clamp_to_rails proposed floor buyer_paise min_acceptable ask).0
        floor
        buyer_paise
        min_acceptable
        ask
unfolding clamp_to_rails low_bound
clamp_to_rails-OnRails proposed floor buyer_paise min_acceptable ask h = record {
  at_most_ask = ground arith;
  at_least_floor = λ k. ground arith;
  at_least_buyer = λ k. ground arith;
  at_least_round = λ k. ground arith;
}

-- With a standing ask, an amount already on the rails passes unchanged and without a note.
pub clamp_to_rails_passes :
    (proposed floor buyer_paise min_acceptable ask : ℤ)
    → floor ≤ℤ proposed
    → buyer_paise ≤ℤ proposed
    → min_acceptable ≤ℤ proposed
    → proposed ≤ℤ ask
    → pos 0 <ℤ ask
    → clamp_to_rails proposed floor buyer_paise min_acceptable ask ≡ (proposed, [])
unfolding clamp_to_rails low_bound
clamp_to_rails_passes proposed floor buyer_paise min_acceptable ask a b c d e = ground arith

-- The campaign node leaves the money rails as the negotiation gave them.
SameRails : Facts → CounterInput → Type 0
SameRails f i =
    (f.ask_paise ≡ i.ask_paise)
    × (f.floor_paise ≡ i.floor_paise)
    × (f.buyer_paise ≡ i.buyer_paise)
    × (f.min_acceptable_paise ≡ i.min_acceptable_paise)

observe-SameRails :
    (answer : Result TradingConditions) (f : Facts) (i : CounterInput)
    → SameRails f i
    → SameRails (observe answer f) i
unfolding SameRails
observe-SameRails (ok c) f i h = h
observe-SameRails (err e) f i h = h

read_trading-SameRails :
    (trading : Option (Text → Result TradingConditions)) (product : Text) (f : Facts)
    (i : CounterInput)
    → SameRails f i
    → SameRails (read_trading trading product f) i
unfolding SameRails
read_trading-SameRails none product f i h = h
read_trading-SameRails (some reader) product f i h = observe-SameRails (reader product) f i h

assemble-SameRails : (m : Merchant) (i : CounterInput) → SameRails (assemble m i) i
unfolding assemble SameRails add_trading_conditions facts_from
assemble-SameRails m i = read_trading-SameRails m.trading i.product.id _ i (refl, refl, refl, refl)

guarded-OnRails :
    (m : Merchant) (i : CounterInput) (choice : StrategyChoice)
    → pos 0 <ℤ i.ask_paise
    → OnRails
        (guarded (assemble m i) choice).amount_paise
        i.floor_paise
        i.buyer_paise
        i.min_acceptable_paise
        i.ask_paise
unfolding guarded SameRails
guarded-OnRails m i choice h =
    let (a, f, b, r) = assemble-SameRails m i in
    rw (a, f, b, r)
      (clamp_to_rails-OnRails choice.amount_paise i.floor_paise i.buyer_paise i.min_acceptable_paise
        i.ask_paise h)

-- A price that an audited pass returns stands on the rails of the negotiation: not above a
-- positive standing ask, and not below the floor, the buyer's bid or the round's concession floor
-- where the ask leaves room for them. The auditor took it with the facts that the strategist saw,
-- and the state is the auditor's.
pub pass-OnRails :
    {S : Type 0} (m : Merchant) (auditor : Auditor S) (i : CounterInput) (s : S) (d : Decision)
    → pos 0 <ℤ i.ask_paise
    → (pass m (some auditor) i s).0 ≡ ok d
    → OnRails d.amount_paise i.floor_paise i.buyer_paise i.min_acceptable_paise i.ask_paise
      × ((auditor i (assemble m i) d s).0 ≡ ok tt)
      × ((pass m (some auditor) i s).1 ≡ (auditor i (assemble m i) d s).1)
unfolding pass ◌>>=◌ lift pure
pass-OnRails m auditor i s d h k = elim (Result-cases (m.strategist (assemble m i))) [
  | inl (e, p) ↦ absurd (let q = rw p at k in ground arith)
  | inr (choice, p) ↦
      elim (Result-cases (auditor i (assemble m i) (guarded (assemble m i) choice) s).0) [
        | inl (e, q) ↦ absurd (let z = rw (p, q) at k in ground arith)
        | inr (u, q) ↦
            let z : ok (guarded (assemble m i) choice) ≡ ok d = rw (p, q) at k in
            let same : guarded (assemble m i) choice ≡ d = cc in
            subst
              (λ d.
                OnRails d.amount_paise i.floor_paise i.buyer_paise i.min_acceptable_paise
                  i.ask_paise
                × ((auditor i (assemble m i) d s).0 ≡ ok tt)
                × ((pass m (some auditor) i s).1 ≡ (auditor i (assemble m i) d s).1))
              same (guarded-OnRails m i choice h, q, rw (p, q) refl)
      ]
]
