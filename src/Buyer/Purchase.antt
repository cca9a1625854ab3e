-- ===== src/Buyer/Purchase.antt =====
-- internal/buyer/purchase.go: the purchase sequence around the gate. The dependencies that the
-- source may find nil are flags of the service.
use agent_mart.Prelude.{Bool, true, false, not, ◌&&◌, ◌||◌, ◌++◌, [], ◌∷◌, if◌then◌else◌}
use agent_mart.Prelude.Int.{ℤ, pos, ltb_ℤ, leb_ℤ, eqb_ℤ}
use agent_mart.Prelude.Int64.{max_int64, ◌*64◌, ◌/64◌}
use agent_mart.Prelude.Text.{Text, bytes}
use agent_mart.Prelude.Result.{Result, ok, err, Exec, pure, lift, refuse_if, ◌>>=◌, ◌>>◌}
use agent_mart.Gate.Defs.{
  Time, Duration, is_zero, Request, Reason, human_approval_required, code, Decision, Gate, evaluate,
}
use agent_mart.Catalog.{Product}
use agent_mart.Wallet.{is_blank}
use agent_mart.Buyer.World.{
  Account, ApprovalResolution, World, Trail, call, record_decision, read_account, read_product,
  record_failure,
}
use agent_mart.Buyer.Settlement.{SettleRequest, settle}
use agent_mart.Buyer.Approval.{new_approval_request, create, resolve}

pub record PurchaseRequest : Type 0 where
  pub telegram_id : ℤ
  pub product_id : Text
  pub quantity : ℤ
  pub base_amount_paise : ℤ
  pub final_amount_paise : ℤ
  pub bundled_paise : ℤ
  pub idempotency_key : Text
  pub human_approved : Bool
  pub price_observed_at : Time

pub record PurchaseResult : Type 0 where
  pub fulfilled : Bool
  pub approval_required : Bool
  pub approval_token : Text
  pub reason : Text
  pub amount_paise : ℤ
  pub razorpay_order_id : Text
  pub order_id : Text

-- `PurchaseService`: whether approvals can be stored, resolved, and failures recorded, and the
-- age bound of its gate.
pub record Service : Type 0 where
  pub has_approvals : Bool
  pub has_resolver : Bool
  pub has_failures : Bool
  pub max_price_age : Duration

abbrev pub outcome : Text → ℤ → PurchaseResult
outcome reason amount = record {
  fulfilled = false;
  approval_required = false;
  approval_token = [];
  reason = reason;
  amount_paise = amount;
  razorpay_order_id = [];
  order_id = [];
}

abbrev or_default : ℤ → ℤ → ℤ
or_default d x = if eqb_ℤ x (pos 0) then d else x

-- The base and final amounts of a request at a catalog price.
unfoldable pub amounts : PurchaseRequest → Product → Result (ℤ × ℤ)
amounts r p =
    let amount = p.price_paise *64 r.quantity in
    let base = or_default amount r.base_amount_paise in
    let final = or_default amount r.final_amount_paise in
    if ltb_ℤ (max_int64 /64 r.quantity) p.price_paise
    then err (bytes "purchase amount overflow")
    else if not (eqb_ℤ base amount) || leb_ℤ final (pos 0)
    then err (bytes "negotiated amount is invalid")
    else ok (base, final)

-- When the price was seen: now, for a list price that carries no time.
abbrev pub observed_at : Time → ℤ → ℤ → Time → Time
observed_at observed base final now = if is_zero observed && eqb_ℤ final base then now else observed

abbrev pub gate_request : PurchaseRequest → Account → Product → ℤ → ℤ → Time → Request
gate_request r account product base final now = record {
  account_id = account.id;
  product_id = product.id;
  quantity = r.quantity;
  unit_price_paise = product.price_paise;
  base_amount_paise = base;
  final_amount_paise = final;
  wallet_balance_paise = account.wallet_balance_paise;
  spend_limit_paise = account.spend_limit_paise;
  human_approved = r.human_approved;
  stock = product.stock;
  price_observed_at = observed_at r.price_observed_at base final now;
  now = now;
}

abbrev pub settle_request : PurchaseRequest → Request → SettleRequest
settle_request r g = record {
  account_id = g.account_id;
  product_id = g.product_id;
  quantity = g.quantity;
  base_amount_paise = g.base_amount_paise;
  final_amount_paise = g.final_amount_paise;
  bundled_paise = r.bundled_paise;
  idempotency_key = r.idempotency_key;
  human_approved = g.human_approved;
}

-- Asks a person, and reports the token.
unfoldable pub ask_person :
    World → PurchaseRequest → Account → Product → ℤ → ℤ → Text → Exec Trail PurchaseResult
ask_person w r account product base final reason = do
  request ←
      new_approval_request w account r.telegram_id product r.quantity base final r.bundled_paise
        r.idempotency_key reason
  approval ← create w request
  pure (record (outcome reason final) { approval_required = true; approval_token = approval.token })

-- Settles what the gate approved.
unfoldable pub spend : World → PurchaseRequest → Decision → Exec Trail PurchaseResult
spend w r d = do
  settled ← settle w (settle_request r d.request)
  pure (record (outcome settled.method d.request.final_amount_paise) {
    fulfilled = true;
    razorpay_order_id = settled.gateway_order_id;
    order_id = settled.order_id;
  })

abbrev pub asks_person : Reason → Bool
asks_person human_approval_required = true
asks_person _ = false

-- What follows the gate's decision.
unfoldable pub conclude :
    Service → World → PurchaseRequest → Account → Product → Decision → Exec Trail PurchaseResult
conclude s w r account product d =
    if d.is_authorised
    then spend w r d
    else if asks_person d.reason && s.has_approvals
    then ask_person w r account product d.request.base_amount_paise d.request.final_amount_paise
        (code d.reason)
    else pure (outcome (code d.reason) d.request.final_amount_paise)

abbrev pub incomplete : PurchaseRequest → Bool
incomplete r =
    leb_ℤ r.telegram_id (pos 0)
    || (is_blank r.product_id || (leb_ℤ r.quantity (pos 0) || is_blank r.idempotency_key))

abbrev pub the_gate : Service → World → Gate (Decision → Exec Trail (Unit {0}))
the_gate s w = record { auditor = record_decision w; max_price_age = s.max_price_age }

abbrev pub clock : World → Exec Trail Time
clock w t = (ok (w.now t), t)

-- `attempt`
unfoldable pub attempt : Service → World → PurchaseRequest → Exec Trail PurchaseResult
attempt s w r = do
  refuse_if (incomplete r)
      (bytes "Telegram id, product id, quantity, and idempotency key are required")
  account ← call (read_account r.telegram_id) (λ t. w.account t r.telegram_id)
  product ← call (read_product r.product_id) (λ t. w.product t r.product_id)
  priced ← lift (amounts r product)
  now ← clock w
  decision ← evaluate (the_gate s w) (gate_request r account product priced.0 priced.1 now)
  conclude s w r account product decision

-- `recordFailure`: the error that a refusal is returned as.
abbrev pub folded : Text → Result (Unit {0}) → Text
folded cause (ok _) = cause
folded cause (err e) = cause ++ (bytes " (recording it also failed: " ++ (e ++ bytes ")"))

abbrev pub refuse_with : Bool → World → ℤ → Text → ℤ → Text → Trail → Result PurchaseResult × Trail
refuse_with true w telegram_id product_id quantity cause t = (
  err (folded cause (w.takes_failure t telegram_id product_id quantity cause)),
  record_failure telegram_id product_id quantity cause ∷ t,
)
refuse_with false w telegram_id product_id quantity cause t = (err cause, t)

abbrev pub refuse : Service → World → ℤ → Text → ℤ → Text → Trail → Result PurchaseResult × Trail
refuse s w telegram_id product_id quantity cause t =
    refuse_with s.has_failures w telegram_id product_id quantity cause t

abbrev pub recorded :
    Service
    → World
    → PurchaseRequest
    → Result PurchaseResult × Trail
    → Result PurchaseResult × Trail
recorded s w r (ok result, t) = (ok result, t)
recorded s w r (err cause, t) = refuse s w r.telegram_id r.product_id r.quantity cause t

-- `Purchase`
unfoldable pub purchase : Service → World → PurchaseRequest → Exec Trail PurchaseResult
purchase s w r t = recorded s w r (attempt s w r t)

-- `requestApproval`
unfoldable pub attempt_approval :
    Service → World → PurchaseRequest → Text → Exec Trail PurchaseResult
attempt_approval s w r reason = do
  refuse_if (not s.has_approvals) (bytes "human approval store is unavailable")
  refuse_if (incomplete r)
      (bytes "Telegram id, product id, quantity, and idempotency key are required")
  account ← call (read_account r.telegram_id) (λ t. w.account t r.telegram_id)
  product ← call (read_product r.product_id) (λ t. w.product t r.product_id)
  priced ← lift (amounts r product)
  ask_person w r account product priced.0 priced.1
      (if is_blank reason then bytes "buyer agent asked for human confirmation" else reason)

-- `RequestApproval`
unfoldable pub request_approval :
    Service → World → PurchaseRequest → Text → Exec Trail PurchaseResult
request_approval s w r reason t = recorded s w r (attempt_approval s w r reason t)

-- The purchase that a person's approval resumes.
abbrev pub resumed : ℤ → ApprovalResolution → PurchaseRequest
resumed telegram_id a = record {
  telegram_id = telegram_id;
  product_id = a.product_id;
  quantity = a.quantity;
  base_amount_paise = a.base_amount_paise;
  final_amount_paise = a.final_amount_paise;
  bundled_paise = a.bundled_paise;
  idempotency_key = a.idempotency_key;
  human_approved = true;
  price_observed_at = pos 0;
}

abbrev pub resume :
    Service → World → ℤ → Result ApprovalResolution × Trail → Result PurchaseResult × Trail
resume s w telegram_id (err cause, t) = refuse s w telegram_id [] (pos 0) cause t
resume s w telegram_id (ok a, t) =
    if not a.resolved
    then (ok (outcome a.reason (pos 0)), t)
    else if not a.approved
    then (ok (outcome (bytes "human approval rejected") (pos 0)), t)
    else purchase s w (resumed telegram_id a) t

-- `ResolveApproval`
unfoldable pub resolve_purchase :
    Service → World → ℤ → Text → Text → Trail → Result PurchaseResult × Trail
resolve_purchase s w telegram_id token decision t =
    if s.has_resolver
    then resume s w telegram_id (resolve w telegram_id token decision t)
    else refuse s w telegram_id [] (pos 0) (bytes "human approval resolver is unavailable") t
