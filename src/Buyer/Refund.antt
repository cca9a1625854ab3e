-- ===== src/Buyer/Refund.antt =====
-- internal/buyer/refund.go and internal/buyer/reversal.go, with `Refund` of
-- internal/wallet/wallet.go: the credit of a cancelled order, and its record at the gateway.
-- The source returns its outcome beside an error; so does `Refunded`.
use agent_mart.Prelude.{
  Bool, true, false, not, ◌&&◌, ◌||◌, ◌++◌, Option, none, some, List, [], ◌∷◌, if◌then◌else◌,
}
use agent_mart.Prelude.Int.{ℤ, pos, leb_ℤ}
use agent_mart.Prelude.Text.{Text, bytes, trim_space}
use agent_mart.Prelude.Decimal.{decimal}
use agent_mart.Prelude.Result.{Result, ok, err, Exec, pure, lift, refuse_if, ◌>>=◌, ◌>>◌}
use agent_mart.Wallet.{is_blank, RefundResult, validate_refund}
use agent_mart.Wallet
use agent_mart.Buyer.World.{
  Account, ReversalAttempt, ReverseResult, Notes, World, Trail, call, read_account, refund_order,
  outstanding_reversal, settle_reversal, record_reversal, record_reversal_failure,
  record_refund_failure,
}
use agent_mart.Buyer.Settlement.{receipt_of, create_wallet_artifact}

pub record RefundRequest : Type 0 where
  pub telegram_id : ℤ
  pub message_id : ℤ
  pub order_id : Text
  pub reason : Text

pub record RefundOutcome : Type 0 where
  pub approved : Bool
  pub duplicate : Bool
  pub order_id : Text
  pub amount_paise : ℤ
  pub reason : Text
  pub refund_ids : List Text

-- `RefundService`: whether it has a reversal and a recorder, and whether the reversal has a
-- gateway.
pub record RefundService : Type 0 where
  pub has_reversal : Bool
  pub has_recorder : Bool
  pub has_artifacts : Bool

pub record ReverseRequest : Type 0 where
  pub account_id : Text
  pub order_id : Text
  pub amount_paise : ℤ
  pub idempotency_key : Text
  pub reason : Text
  pub run_id : Text

abbrev pub Refunded : Type 0
Refunded = RefundOutcome × Option Text

-- `refundKey`
unfoldable pub refund_key : RefundRequest → Text
refund_key r =
    bytes "telegram:" ++ (decimal r.telegram_id ++ (bytes ":refund:" ++ decimal r.message_id))

abbrev pub receipt_for : ReverseRequest → Text
receipt_for r = receipt_of (bytes "reversal_" ++ r.idempotency_key)

abbrev noted : Text → Text → Notes
noted name [] = []
noted name (c ∷ cs) = (name, c ∷ cs) ∷ []

-- `notes`
unfoldable pub notes : ReverseRequest → Notes
notes r =
    (bytes "order_id", r.order_id)
    ∷ (bytes "account_id", r.account_id)
    ∷ (bytes "returned", bytes "wallet_allowance")
    ∷ (noted (bytes "reason") (trim_space r.reason) ++ noted (bytes "run_id") (trim_space r.run_id))

-- `GatewayReversal.Reverse`
unfoldable pub reverse : RefundService → World → ReverseRequest → Exec Trail ReverseResult
reverse s w r = do
  refuse_if (not s.has_artifacts) (bytes "reversal path is unavailable")
  refuse_if (is_blank r.account_id || is_blank r.order_id)
      (bytes "account id and order id are required")
  refuse_if (leb_ℤ r.amount_paise (pos 0)) (bytes "a reversal needs a positive amount")
  artifact ← create_wallet_artifact w r.amount_paise (receipt_for r) (notes r)
  pure (record { refund_ids = artifact ∷ []; reversed_paise = r.amount_paise })

-- `Service.Refund` of the wallet: the run is stamped here.
unfoldable pub refund_wallet : World → Wallet.RefundRequest → Exec Trail RefundResult
refund_wallet w r = do
  lift (validate_refund r)
  let stamped = record r { run_id = w.run_id }
  call (refund_order stamped) (λ t. w.refund t stamped)

abbrev pub credit_request : RefundRequest → Account → Wallet.RefundRequest
credit_request r account = record {
  account_id = account.id;
  order_id = trim_space r.order_id;
  reason = trim_space r.reason;
  idempotency_key = refund_key r;
  run_id = [];
}

-- The credit: what `Refund` does before the gateway's leg.
unfoldable pub credit : World → RefundRequest → Exec Trail (Account × RefundResult)
credit w r = do
  refuse_if
      (leb_ℤ r.telegram_id (pos 0)
        || (leb_ℤ r.message_id (pos 0) || (is_blank r.order_id || is_blank r.reason)))
      (bytes "Telegram id, message id, order id, and reason are required")
  account ← call (read_account r.telegram_id) (λ t. w.account t r.telegram_id)
  result ← refund_wallet w (credit_request r account)
  pure (account, result)

abbrev pub resumed_reversal : Account → Option ReversalAttempt → Option ReverseRequest
resumed_reversal account none = none
resumed_reversal account (some a) = some (record {
  account_id = account.id;
  order_id = a.order_id;
  amount_paise = a.amount_paise;
  idempotency_key = a.idempotency_key;
  reason = a.reason;
  run_id = a.run_id;
})

abbrev pub fresh : RefundResult → Bool
fresh x = x.approved && not x.duplicate

-- `owedReversal`
unfoldable pub owed_reversal :
    RefundService
    → World
    → Account
    → RefundRequest
    → RefundResult
    → Exec Trail (Option ReverseRequest)
owed_reversal s w account r x =
    if fresh x
    then pure (
        some (record {
          account_id = account.id;
          order_id = x.order_id;
          amount_paise = x.amount_paise;
          idempotency_key = refund_key r;
          reason = trim_space r.reason;
          run_id = w.run_id;
        }))
    else if not s.has_recorder
    then pure none
    else do
      found ←
          call (outstanding_reversal account.id (trim_space r.order_id))
            (λ t. w.outstanding t account.id (trim_space r.order_id))
      pure (resumed_reversal account found)

abbrev pub outcome_of : RefundResult → RefundOutcome
outcome_of x = record {
  approved = x.approved;
  duplicate = x.duplicate;
  order_id = x.order_id;
  amount_paise = x.amount_paise;
  reason = x.reason;
  refund_ids = [];
}

abbrev pub empty_outcome : RefundOutcome
empty_outcome = record {
  approved = false;
  duplicate = false;
  order_id = [];
  amount_paise = pos 0;
  reason = [];
  refund_ids = [];
}

abbrev pub after_row :
    RefundOutcome → (Trail → Refunded × Trail) → Result (Unit {0}) × Trail → Refunded × Trail
after_row o next (ok u, t) = next t
after_row o next (err e, t) = ((o, some e), t)

-- Writes a row, if there is a recorder; its own error ends the call beside this outcome.
abbrev pub write :
    Bool
    → RefundOutcome
    → Exec Trail (Unit {0})
    → (Trail → Refunded × Trail)
    → Trail
    → Refunded × Trail
write false o row next t = next t
write true o row next t = after_row o next (row t)

abbrev pub finish : RefundOutcome → Trail → Refunded × Trail
finish o t = ((o, none), t)

abbrev pub reversal_failure : World → Text → Text → Text → Exec Trail (Unit {0})
reversal_failure w account order cause =
    call (record_reversal_failure account order cause)
      (λ t. w.takes_reversal_failure t account order cause)

-- The order is settled, and nothing is owed any more.
abbrev pub settle_owed : RefundService → World → RefundOutcome → Text → Trail → Refunded × Trail
settle_owed s w o order t =
    write s.has_recorder o (call (settle_reversal order) (λ t. w.settles t order)) (finish o) t

abbrev pub record_ids :
    RefundService
    → World
    → RefundOutcome
    → ReverseRequest
    → ReverseResult
    → List Text
    → Trail
    → Refunded × Trail
record_ids s w o q x [] t = settle_owed s w o q.order_id t
record_ids s w o q x (id ∷ ids) t =
    write s.has_recorder o
      (call (record_reversal q.account_id q.order_id x)
        (λ t. w.takes_reversal t q.account_id q.order_id x))
      (settle_owed s w (record o { refund_ids = id ∷ ids }) q.order_id) t

-- What follows the gateway's answer.
abbrev pub after_reverse :
    RefundService
    → World
    → RefundOutcome
    → ReverseRequest
    → Result ReverseResult × Trail
    → Refunded × Trail
after_reverse s w o q (err e, t) =
    write s.has_recorder o (reversal_failure w q.account_id q.order_id e) (finish o) t
after_reverse s w o q (ok x, t) = record_ids s w o q x x.refund_ids t

-- The gateway's leg, once it is known what it owes.
abbrev pub leg :
    RefundService
    → World
    → RefundRequest
    → Account
    → RefundOutcome
    → Result (Option ReverseRequest) × Trail
    → Refunded × Trail
leg s w r account o (err e, t) =
    write s.has_recorder o (reversal_failure w account.id (trim_space r.order_id) e) (finish o) t
leg s w r account o (ok none, t) = finish o t
leg s w r account o (ok (some q), t) = after_reverse s w o q (reverse s w q t)

abbrev with_recording : Text → Result (Unit {0}) → Text
with_recording cause (ok _) = cause
with_recording cause (err e) = cause ++ (bytes " (recording it also failed: " ++ (e ++ bytes ")"))

-- `recordFailure`
abbrev pub refused_refund : Bool → World → RefundRequest → Text → Trail → Refunded × Trail
refused_refund false w r e t = ((empty_outcome, some e), t)
refused_refund true w r e t =
    let order = trim_space r.order_id in
    let cause = with_recording e (w.takes_refund_failure t r.telegram_id order e) in
    ((empty_outcome, some cause), record_refund_failure r.telegram_id order e ∷ t)

abbrev pub after_credit :
    RefundService
    → World
    → RefundRequest
    → Result (Account × RefundResult) × Trail
    → Refunded × Trail
after_credit s w r (err e, t) = refused_refund s.has_recorder w r e t
after_credit s w r (ok (account, x), t) =
    if s.has_reversal
    then leg s w r account (outcome_of x) (owed_reversal s w account r x t)
    else finish (outcome_of x) t

-- `Refund`
unfoldable pub refund : RefundService → World → RefundRequest → Trail → Refunded × Trail
refund s w r t = after_credit s w r (credit w r t)
