-- ===== src/Trading/Sales.antt =====
-- `SalesFacts` of internal/razorpay/sales.go, over the two lists that the gateway returns.
use agent_mart.Prelude.{Bool, List, [], ◌∷◌, if◌then◌else◌}
use agent_mart.Prelude.Int.{ℤ, pos, ltb_ℤ}
use agent_mart.Prelude.Int64.{◌+64◌, ◌*64◌, ◌/64◌}
use agent_mart.Prelude.Text.{Text, bytes, text_eq}
use agent_mart.Prelude.Result.{Result, ok, err}

pub record SalesFacts : Type 0 where
  pub captured_count : ℤ
  pub captured_paise : ℤ
  pub refunded_count : ℤ
  pub refunded_paise : ℤ
  pub ignored_count : ℤ
  pub refund_rate_pct : ℤ
  pub average_capture : ℤ

-- `gatewayPayment` and `gatewayRefund`, which have the same fields.
pub record Entry : Type 0 where
  pub id : Text
  pub amount : ℤ
  pub status : Text

abbrev pub no_facts : SalesFacts
no_facts = record {
  captured_count = pos 0;
  captured_paise = pos 0;
  refunded_count = pos 0;
  refunded_paise = pos 0;
  ignored_count = pos 0;
  refund_rate_pct = pos 0;
  average_capture = pos 0;
}

abbrev pub is_captured : Entry → Bool
is_captured p = text_eq p.status (bytes "captured")

abbrev pub is_processed : Entry → Bool
is_processed r = text_eq r.status (bytes "processed")

abbrev pub count_payment : Entry → SalesFacts → SalesFacts
count_payment p f =
    if is_captured p
    then record f {
      captured_count = f.captured_count +64 pos 1;
      captured_paise = f.captured_paise +64 p.amount;
    }
    else record f { ignored_count = f.ignored_count +64 pos 1 }

unfoldable pub count_payments : List Entry → SalesFacts → SalesFacts
count_payments [] f = f
count_payments (p ∷ ps) f = count_payments ps (count_payment p f)

abbrev pub count_refund : Entry → SalesFacts → SalesFacts
count_refund r f =
    if is_processed r
    then record f {
      refunded_count = f.refunded_count +64 pos 1;
      refunded_paise = f.refunded_paise +64 r.amount;
    }
    else f

unfoldable pub count_refunds : List Entry → SalesFacts → SalesFacts
count_refunds [] f = f
count_refunds (r ∷ rs) f = count_refunds rs (count_refund r f)

abbrev pub with_average : SalesFacts → SalesFacts
with_average f =
    if ltb_ℤ (pos 0) f.captured_count
    then record f { average_capture = f.captured_paise /64 f.captured_count }
    else f

abbrev pub with_rate : SalesFacts → SalesFacts
with_rate f =
    if ltb_ℤ (pos 0) f.captured_paise
    then record f { refund_rate_pct = f.refunded_paise *64 pos 100 /64 f.captured_paise }
    else f

abbrev pub of_refunds : SalesFacts → Result (List Entry) → Result SalesFacts
of_refunds f (err e) = err e
of_refunds f (ok rs) = ok (with_rate (with_average (count_refunds rs f)))

-- `SalesFacts`
unfoldable pub sales_facts : Result (List Entry) → Result (List Entry) → Result SalesFacts
sales_facts (err e) refunds = err e
sales_facts (ok ps) refunds = of_refunds (count_payments ps no_facts) refunds
