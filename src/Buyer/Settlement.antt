-- ===== src/Buyer/Settlement.antt =====
-- internal/buyer/settlement.go, with `CreateWalletArtifact` of internal/razorpay/orders.go and
-- `Fulfill` of internal/wallet/wallet.go, which it calls.
use agent_mart.Prelude.{Bool, ◌||◌, ◌++◌, [], ◌∷◌, if◌then◌else◌}
use agent_mart.Prelude.Int.{ℤ, pos, leb_ℤ}
use agent_mart.Prelude.Text.{Text, bytes, is_empty, take}
use agent_mart.Prelude.Decimal.{decimal}
use agent_mart.Prelude.Result.{Exec, pure, lift, refuse_if, ◌>>=◌, ◌>>◌}
use agent_mart.Wallet.{is_blank, FulfillRequest, validate_fulfill, fulfilled}
use agent_mart.Buyer.World.{Notes, World, Trail, call, create_artifact, fulfill_order}

pub record SettleRequest : Type 0 where
  pub account_id : Text
  pub product_id : Text
  pub quantity : ℤ
  pub base_amount_paise : ℤ
  pub final_amount_paise : ℤ
  pub bundled_paise : ℤ
  pub idempotency_key : Text
  pub human_approved : Bool

pub record SettleResult : Type 0 where
  pub order_id : Text
  pub gateway_order_id : Text
  pub method : Text

abbrev with_run : Text → Notes
with_run [] = []
with_run (c ∷ run) = (bytes "run_id", c ∷ run) ∷ []

-- `notesFor`
unfoldable pub notes_for : Text → SettleRequest → Notes
notes_for run r =
    (bytes "account_id", r.account_id)
    ∷ (bytes "product_id", r.product_id)
    ∷ (bytes "quantity", decimal r.quantity)
    ∷ (bytes "fulfillment", bytes "wallet")
    ∷ (
      bytes "authorised",
      if r.human_approved then bytes "approved_by_person" else bytes "within_standing_limits",
    )
    ∷ with_run run

-- The gateway caps a receipt at forty characters. `take` leaves a shorter one whole.
abbrev pub receipt_of : Text → Text
receipt_of s = take 40 s

-- `Client.CreateWalletArtifact`: the id of the order that the gateway made.
unfoldable pub create_wallet_artifact : World → ℤ → Text → Notes → Exec Trail Text
create_wallet_artifact w amount receipt notes = do
  refuse_if (leb_ℤ amount (pos 0) || is_blank receipt) (bytes "amount and receipt are required")
  id ← call (create_artifact amount receipt notes) (λ t. w.artifact t amount receipt notes)
  refuse_if (is_empty id) (bytes "payment order artifact returned no id")
  pure id

-- `Service.Fulfill`: the run is stamped here.
unfoldable pub fulfill : World → FulfillRequest → Exec Trail Text
fulfill w r = do
  lift (validate_fulfill r)
  let stamped = record r { run_id = w.run_id }
  answer ← call (fulfill_order stamped) (λ t. w.fulfillment t stamped)
  lift (fulfilled answer)

abbrev pub fulfill_request : SettleRequest → Text → FulfillRequest
fulfill_request r artifact = record {
  account_id = r.account_id;
  product_id = r.product_id;
  quantity = r.quantity;
  base_amount_paise = r.base_amount_paise;
  final_amount_paise = r.final_amount_paise;
  bundled_paise = r.bundled_paise;
  razorpay_order_id = artifact;
  idempotency_key = r.idempotency_key;
  refund_window_minutes = pos 60;
  run_id = [];
}

-- `WalletSettlement.Settle`, both of its parts present.
unfoldable pub settle : World → SettleRequest → Exec Trail SettleResult
settle w r = do
  artifact ←
      create_wallet_artifact w r.final_amount_paise
        (receipt_of (bytes "wallet_" ++ r.idempotency_key)) (notes_for w.run_id r)
  order ← fulfill w (fulfill_request r artifact)
  pure (record {
    order_id = order;
    gateway_order_id = artifact;
    method = bytes "fulfilled_via_wallet";
  })
