-- ===== src/Trading/Tests.antt =====
-- The shop's figures at three payments and a refund, a cached read, and the theorems at them.
use agent_mart.Prelude.{ℕ, ◌*◌, ◌≡◌, refl, List, [], ◌∷◌, arith}
use agent_mart.Prelude.Int.{ℤ, pos, ◌-ℤ◌}
use agent_mart.Prelude.Int64.{◌+64◌, ◌*64◌, ◌/64◌}
use agent_mart.Prelude.Text.{Text, bytes, trim_space}
use agent_mart.Prelude.Result.{ok, err}
use agent_mart.Gate.Defs.{time_sub}
use agent_mart.Trading.Sales.{SalesFacts, Entry, count_payments, count_refunds, sales_facts}
use agent_mart.Trading.Facts.{Clock, Gateway, read_facts, eligibility}
use agent_mart.Trading.Totals.{reference, sales_facts-eq}
use agent_mart.Trading.Reads.{after, Recent, read_facts-Recent}

abbrev entry : Text → ℤ → Entry
entry status amount = record { id = bytes "e"; amount = amount; status = status }

abbrev payments : List Entry
payments =
    entry (bytes "captured") (pos 90000)
    ∷ entry (bytes "created") (pos 100)
    ∷ entry (bytes "captured") (pos 30001)
    ∷ []

abbrev refunds : List Entry
refunds = entry (bytes "processed") (pos 60000) ∷ entry (bytes "pending") (pos 5) ∷ []

abbrev figures : SalesFacts
figures = record {
  captured_count = pos 2;
  captured_paise = pos 120001;
  refunded_count = pos 1;
  refunded_paise = pos 60000;
  ignored_count = pos 1;
  refund_rate_pct = pos 49;
  average_capture = pos 60000;
}

figures_counted : sales_facts (ok payments) (ok refunds) ≡ ok figures
unfolding sales_facts count_payments count_refunds ◌+64◌ ◌*64◌ ◌/64◌
figures_counted = refl

sales_facts-eq_example : sales_facts (ok payments) (ok refunds) ≡ ok (reference payments refunds)
sales_facts-eq_example =
    sales_facts-eq payments refunds (omega arith, (omega arith, (omega arith, tt)))
      (omega arith, (omega arith, tt)) (omega arith) (omega arith) (omega arith) (omega arith)

abbrev answering : Gateway
answering = λ since. ok figures

abbrev failing : Gateway
failing = λ since. err (bytes "down")

abbrev at_minute : ℕ → Clock
at_minute n = record {
  aged = pos (n * 60000000000);
  asked = pos (n * 60000000000);
  stored = pos (n * 60000000000);
}

-- Two minutes after the first read the gateway is not asked.
still_cached :
    (read_facts failing (at_minute 12) (after ((answering, at_minute 10) ∷ []))).0 ≡ ok figures
unfolding read_facts after time_sub ◌-ℤ◌
still_cached = refl

too_old :
    (read_facts failing (at_minute 15) (after ((answering, at_minute 10) ∷ []))).0
    ≡ err (bytes "down")
unfolding read_facts after time_sub ◌-ℤ◌
too_old = refl

read_facts-Recent_example : Recent figures (failing, at_minute 12) ((answering, at_minute 10) ∷ [])
read_facts-Recent_example =
    read_facts-Recent ((answering, at_minute 10) ∷ []) (failing, at_minute 12) figures still_cached

anonymous : (eligibility (λ s. s) (λ a. err (bytes "unused")) (bytes " ")).0.1 ≡ pos 0
unfolding eligibility trim_space
anonymous = refl
