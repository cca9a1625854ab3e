-- ===== src/Buyer/Tests.antt =====
-- Runs of the purchase service in a concrete world, and its theorems there.
use agent_mart.Prelude.{◌≡◌, refl, true, false, none, [], ◌∷◌}
use agent_mart.Prelude.Int.{pos}
use agent_mart.Prelude.Text.{bytes}
use agent_mart.Prelude.Result.{ok, err}
use agent_mart.Prelude.Ensures.{Outcome}
use agent_mart.Catalog.{Product}
use agent_mart.Buyer.World.{World}
use agent_mart.Buyer.Trail.{payments, Ready, PaidAtMost}
use agent_mart.Buyer.Purchase.{
  PurchaseRequest, Service, purchase, request_approval, resolve_purchase,
}
use agent_mart.Buyer.Refund.{RefundRequest, RefundService, credit, refund}
use agent_mart.Buyer.Credit.{Follows, refund-Follows}
use agent_mart.Buyer.Reversal.{objects}
use agent_mart.Buyer.Owing.{ReversesCredit, refund-ReversesCredit}
use agent_mart.Buyer.Settling.{Reported, Unpaid}
use agent_mart.Buyer.Refusals.{Leaves, refusals-Leaves}
use agent_mart.Buyer.Spending.{purchase_pays, request_approval_pays_nothing}
use agent_mart.Buyer.Resumption.{ResumedAs, PaidIfGranted, resolve_purchase_pays}
use agent_mart.Prelude.Int64.{◌*64◌, ◌/64◌}
use agent_mart.Prelude.Result.{◌>>=◌, pure, lift, refuse_if}
use agent_mart.Gate.Defs.{time_sub, rejection_reason, evaluate}
use agent_mart.Wallet.{validate_fulfill, validate_refund}
use agent_mart.Buyer.World.{call}
use agent_mart.Buyer.Settlement.{create_wallet_artifact, fulfill, settle}
use agent_mart.Buyer.Approval.{validate_approval_request, new_approval_request, create}
use agent_mart.Buyer.Purchase.{attempt, amounts, conclude, spend, ask_person}
use agent_mart.Buyer.Refund.{refund_wallet, reverse, owed_reversal, refund_key}
use agent_mart.Prelude.Decimal.{decimal}
use agent_mart.Prelude.Text.{trim_space}

abbrev lamp : Product
lamp = record {
  id = bytes "lamp";
  name = bytes "Lamp";
  category = bytes "home";
  price_paise = pos 90000;
  stock = pos 4;
  warranty_years = pos 1;
  trust_score = pos 80;
  combo_with = none;
  combo_discount_pct = pos 0;
  cost_paise = pos 50000;
}

-- A world in which all calls succeed, an approval is granted, and an order is refunded.
abbrev shop : World
shop = record {
  account = λ t id. ok (record {
    id = bytes "acct";
    wallet_balance_paise = pos 500000;
    spend_limit_paise = pos 200000;
  });
  product = λ t id. ok lamp;
  takes_decision = λ t d. ok tt;
  token = λ t. ok (bytes "token");
  approval = λ t q. ok (record {
    approved = true;
    duplicate = false;
    approval_id = bytes "a1";
    token = q.token;
    expires_at = [];
    reason = [];
  });
  resolution = λ t id token decision. ok (record {
    resolved = true;
    approved = true;
    reason = [];
    account_id = bytes "acct";
    product_id = bytes "lamp";
    quantity = pos 2;
    base_amount_paise = pos 180000;
    final_amount_paise = pos 190000;
    bundled_paise = pos 0;
    idempotency_key = bytes "key2";
  });
  artifact = λ t amount receipt notes. ok (bytes "order_9");
  fulfillment =
      λ t f. ok (record { approved = true; duplicate = false; order_id = bytes "o1"; reason = [] });
  refund = λ t q. ok (record {
    approved = true;
    duplicate = false;
    order_id = bytes "o1";
    amount_paise = pos 185000;
    balance_paise = pos 500000;
    reason = [];
  });
  takes_failure = λ t id p q e. ok tt;
  outstanding = λ t account order. ok none;
  settles = λ t order. ok tt;
  takes_reversal = λ t account order x. ok tt;
  takes_reversal_failure = λ t account order e. err (bytes "row");
  takes_refund_failure = λ t id order e. ok tt;
  now = λ t. pos 8000000000;
  run_id = [];
}

abbrev service : Service
service = record {
  has_approvals = true;
  has_resolver = true;
  has_failures = true;
  max_price_age = pos 300000000000;
}

abbrev order : PurchaseRequest
order = record {
  telegram_id = pos 7;
  product_id = bytes "lamp";
  quantity = pos 2;
  base_amount_paise = pos 180000;
  final_amount_paise = pos 185000;
  bundled_paise = pos 0;
  idempotency_key = bytes "key1";
  human_approved = false;
  price_observed_at = pos 7000000000;
}

sale :
    (purchase service shop order []).0
    ≡ ok (record {
      fulfilled = true;
      approval_required = false;
      approval_token = [];
      reason = bytes "fulfilled_via_wallet";
      amount_paise = pos 185000;
      razorpay_order_id = bytes "order_9";
      order_id = bytes "o1";
    })
unfolding purchase attempt ◌>>=◌ pure lift refuse_if call amounts evaluate rejection_reason time_sub
    ◌*64◌ ◌/64◌ conclude spend settle create_wallet_artifact fulfill validate_fulfill trim_space
sale = refl

purchase_pays_example :
    Outcome
      (Reported (pos 300000000000) (payments []) shop order)
      (λ _. PaidAtMost (pos 300000000000) (payments []) (bytes "key1"))
      (purchase service shop order []).0
      (purchase service shop order []).1
purchase_pays_example = purchase_pays service shop order [] tt

-- Above the limit, a person is asked and nothing is spent.
abbrev dear_order : PurchaseRequest
dear_order = record order { final_amount_paise = pos 200001 }

asked :
    (purchase service shop dear_order []).0
    ≡ ok (record {
      fulfilled = false;
      approval_required = true;
      approval_token = bytes "token";
      reason = bytes "human_approval_required";
      amount_paise = pos 200001;
      razorpay_order_id = [];
      order_id = [];
    })
unfolding purchase attempt ◌>>=◌ pure lift refuse_if call amounts evaluate rejection_reason time_sub
    ◌*64◌ ◌/64◌ conclude ask_person new_approval_request create validate_approval_request trim_space
asked = refl

request_approval_pays_nothing_example :
    Outcome
      (Unpaid (pos 300000000000) (payments []) shop order)
      (λ _. Ready (pos 300000000000) (payments []))
      (request_approval service shop order [] []).0
      (request_approval service shop order [] []).1
request_approval_pays_nothing_example = request_approval_pays_nothing service shop order [] [] tt

resolve_purchase_pays_example :
    Outcome
      (ResumedAs (pos 300000000000) shop [] (pos 7) (bytes "token") (bytes "approve"))
      (λ _. PaidIfGranted (pos 300000000000) shop [] (pos 7) (bytes "token") (bytes "approve"))
      (resolve_purchase service shop (pos 7) (bytes "token") (bytes "approve") []).0
      (resolve_purchase service shop (pos 7) (bytes "token") (bytes "approve") []).1
resolve_purchase_pays_example =
    resolve_purchase_pays service shop (pos 7) (bytes "token") (bytes "approve") [] tt

abbrev refunds : RefundService
refunds = record { has_reversal = true; has_recorder = true; has_artifacts = true }

abbrev cancellation : RefundRequest
cancellation = record {
  telegram_id = pos 7;
  message_id = pos 3;
  order_id = bytes "o1";
  reason = bytes "broken";
}

reversed_ids : (refund refunds shop cancellation []).0.0.refund_ids ≡ bytes "order_9" ∷ []
unfolding refund credit refund_wallet validate_refund reverse owed_reversal create_wallet_artifact
    ◌>>=◌ pure lift refuse_if call trim_space refund_key decimal
reversed_ids = refl

refund-Follows_example :
    Follows refunds cancellation
      (credit shop cancellation []).0
      (credit shop cancellation []).1
      (refund refunds shop cancellation [])
refund-Follows_example = refund-Follows refunds shop cancellation []

-- A person without an account: the error is recorded.
abbrev stranger : World
stranger = record shop { account = λ t id. err (bytes "no account") }

refusals-Leaves_example :
    Leaves (pos 7) (purchase service stranger order [])
    × Leaves (pos 7) (request_approval service stranger order [] [])
    × Leaves
        (pos 7)
        (resolve_purchase service stranger (pos 7) (bytes "token") (bytes "approve") [])
refusals-Leaves_example =
    refusals-Leaves service stranger order [] (bytes "token") (bytes "approve") [] refl

refund-ReversesCredit_example :
    ReversesCredit
      (payments [])
      (objects [])
      shop
      cancellation
      (credit shop cancellation []).0
      (refund refunds shop cancellation []).1
refund-ReversesCredit_example = refund-ReversesCredit refunds shop cancellation []
