-- ===== src/Buyer/World.antt =====
-- What internal/buyer calls: the database, the payment gateway, the random source and the clock.
-- They are arbitrary functions of the calls made so far, so they may change, fail or answer
-- differently at any time. The trail is the list of the calls, the latest first.
use agent_mart.Prelude.{Bool, true, false, Option, List, ◌∷◌}
use agent_mart.Prelude.Int.{ℤ}
use agent_mart.Prelude.Text.{Text}
use agent_mart.Prelude.Result.{Result, ok, err, Exec}
use agent_mart.Gate.Defs.{Decision, Time}
use agent_mart.Catalog.{Product}
use agent_mart.Wallet.{FulfillRequest, FulfillResult, RefundRequest, RefundResult}

-- internal/buyer/store.go
pub record Account : Type 0 where
  pub id : Text
  pub wallet_balance_paise : ℤ
  pub spend_limit_paise : ℤ

-- internal/buyer/approval.go
pub record ApprovalRequest : Type 0 where
  pub token : Text
  pub account_id : Text
  pub telegram_id : ℤ
  pub product_id : Text
  pub quantity : ℤ
  pub base_amount_paise : ℤ
  pub final_amount_paise : ℤ
  pub bundled_paise : ℤ
  pub idempotency_key : Text
  pub reason : Text

pub record ApprovalResult : Type 0 where
  pub approved : Bool
  pub duplicate : Bool
  pub approval_id : Text
  pub token : Text
  pub expires_at : Text
  pub reason : Text

pub record ApprovalResolution : Type 0 where
  pub resolved : Bool
  pub approved : Bool
  pub reason : Text
  pub account_id : Text
  pub product_id : Text
  pub quantity : ℤ
  pub base_amount_paise : ℤ
  pub final_amount_paise : ℤ
  pub bundled_paise : ℤ
  pub idempotency_key : Text

-- internal/buyer/store.go: what an interrupted refund left to be reversed.
pub record ReversalAttempt : Type 0 where
  pub order_id : Text
  pub amount_paise : ℤ
  pub reason : Text
  pub idempotency_key : Text
  pub run_id : Text

-- internal/buyer/reversal.go
pub record ReverseResult : Type 0 where
  pub refund_ids : List Text
  pub reversed_paise : ℤ

-- The notes of a gateway object.
abbrev pub Notes : Type 0
Notes = List (Text × Text)

-- One call, with its arguments. An audit shows too whether the store took the decision.
pub data Call : Type 0 where
  read_account : ℤ → Call
  read_product : Text → Call
  audit : Decision → Bool → Call
  draw_token : Call
  create_approval : ApprovalRequest → Call
  resolve_approval : ℤ → Text → Text → Call
  create_artifact : ℤ → Text → Notes → Call
  fulfill_order : FulfillRequest → Call
  refund_order : RefundRequest → Call
  record_failure : ℤ → Text → ℤ → Text → Call
  outstanding_reversal : Text → Text → Call
  settle_reversal : Text → Call
  record_reversal : Text → Text → ReverseResult → Call
  record_reversal_failure : Text → Text → Text → Call
  record_refund_failure : ℤ → Text → Text → Call

abbrev pub Trail : Type 0
Trail = List Call

pub record World : Type 0 where
  pub account : Trail → ℤ → Result Account
  pub product : Trail → Text → Result Product
  pub takes_decision : Trail → Decision → Result (Unit {0})
  pub token : Trail → Result Text
  pub approval : Trail → ApprovalRequest → Result ApprovalResult
  pub resolution : Trail → ℤ → Text → Text → Result ApprovalResolution
  pub artifact : Trail → ℤ → Text → Notes → Result Text
  pub fulfillment : Trail → FulfillRequest → Result FulfillResult
  pub refund : Trail → RefundRequest → Result RefundResult
  pub takes_failure : Trail → ℤ → Text → ℤ → Text → Result (Unit {0})
  pub outstanding : Trail → Text → Text → Result (Option ReversalAttempt)
  pub settles : Trail → Text → Result (Unit {0})
  pub takes_reversal : Trail → Text → Text → ReverseResult → Result (Unit {0})
  pub takes_reversal_failure : Trail → Text → Text → Text → Result (Unit {0})
  pub takes_refund_failure : Trail → ℤ → Text → Text → Result (Unit {0})
  pub now : Trail → Time
  pub run_id : Text

-- Makes a call and leaves it on the trail.
unfoldable pub call : {A : Type 0} → Call → (Trail → Result A) → Exec Trail A
call c answer t = (answer t, c ∷ t)

abbrev pub succeeded : {A : Type 0} → Result A → Bool
succeeded (ok _) = true
succeeded (err _) = false

-- `Store.RecordGateDecision`
abbrev pub record_decision : World → Decision → Exec Trail (Unit {0})
record_decision w d t =
    let answer = w.takes_decision t d in (answer, audit d (succeeded answer) ∷ t)
