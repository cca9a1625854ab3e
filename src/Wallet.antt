-- ===== src/Wallet.antt =====
-- internal/wallet/wallet.go: the requests that move an allowance, and their checks. The
-- database's answers are a function from the request.
use agent_mart.Prelude.{Bool, ◌||◌, ◌++◌, if◌then◌else◌}
use agent_mart.Prelude.Int.{ℤ, pos, ltb_ℤ, leb_ℤ}
use agent_mart.Prelude.Text.{Text, bytes, is_empty, trim_space}
use agent_mart.Prelude.Result.{Result, ok, err}

abbrev pub is_blank : Text → Bool
is_blank s = is_empty (trim_space s)

pub record TopUpRequest : Type 0 where
  pub account_id : Text
  pub amount_paise : ℤ
  pub idempotency_key : Text
  pub razorpay_order_id : Text
  pub razorpay_payment_id : Text

unfoldable pub validate_top_up : TopUpRequest → Result (Unit {0})
validate_top_up r =
    if is_blank r.account_id || is_blank r.idempotency_key
    then err (bytes "account id and idempotency key are required")
    else if leb_ℤ r.amount_paise (pos 0)
    then err (bytes "top-up amount must be positive")
    else if is_blank r.razorpay_order_id || is_blank r.razorpay_payment_id
    then err (bytes "razorpay order and payment ids are required")
    else ok tt

pub record FulfillRequest : Type 0 where
  pub account_id : Text
  pub product_id : Text
  pub quantity : ℤ
  pub base_amount_paise : ℤ
  pub final_amount_paise : ℤ
  pub bundled_paise : ℤ
  pub razorpay_order_id : Text
  pub idempotency_key : Text
  pub refund_window_minutes : ℤ
  pub run_id : Text

unfoldable pub validate_fulfill : FulfillRequest → Result (Unit {0})
validate_fulfill r =
    if is_blank r.account_id || is_blank r.product_id
    then err (bytes "account id and product id are required")
    else if leb_ℤ r.quantity (pos 0)
        || (leb_ℤ r.base_amount_paise (pos 0) || leb_ℤ r.final_amount_paise (pos 0))
    then err (bytes "quantity and amounts must be positive")
    else if ltb_ℤ r.bundled_paise (pos 0)
    then err (bytes "bundled amount cannot be negative")
    else if is_blank r.razorpay_order_id
        || (is_blank r.idempotency_key || leb_ℤ r.refund_window_minutes (pos 0))
    then err (bytes "razorpay order, idempotency key, and refund window are required")
    else ok tt

pub record FulfillResult : Type 0 where
  pub approved : Bool
  pub duplicate : Bool
  pub order_id : Text
  pub reason : Text

-- What `Fulfill` makes of the database's answer.
abbrev pub fulfilled : FulfillResult → Result Text
fulfilled a =
    if a.approved then ok a.order_id else err (bytes "wallet fulfillment rejected: " ++ a.reason)

pub record RefundRequest : Type 0 where
  pub account_id : Text
  pub order_id : Text
  pub reason : Text
  pub idempotency_key : Text
  pub run_id : Text

unfoldable pub validate_refund : RefundRequest → Result (Unit {0})
validate_refund r =
    if is_blank r.order_id
      || (is_blank r.account_id || (is_blank r.reason || is_blank r.idempotency_key))
    then err (bytes "order id, account id, reason, and idempotency key are required")
    else ok tt

pub record RefundResult : Type 0 where
  pub approved : Bool
  pub duplicate : Bool
  pub order_id : Text
  pub amount_paise : ℤ
  pub balance_paise : ℤ
  pub reason : Text
