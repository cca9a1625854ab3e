-- ===== src/Buyer/Approval.antt =====
-- internal/buyer/approval.go: the requests for a person's decision.
use agent_mart.Prelude.{not, ◌&&◌, ◌||◌, if◌then◌else◌}
use agent_mart.Prelude.Int.{ℤ, pos, ltb_ℤ, leb_ℤ}
use agent_mart.Prelude.Text.{Text, bytes, text_eq}
use agent_mart.Prelude.Result.{Result, ok, err, Exec, pure, lift, refuse_if, ◌>>=◌, ◌>>◌}
use agent_mart.Catalog.{Product}
use agent_mart.Wallet.{is_blank}
use agent_mart.Buyer.World.{
  Account, ApprovalRequest, ApprovalResult, ApprovalResolution, World, Trail, call, draw_token,
  create_approval, resolve_approval,
}

-- `validateApprovalRequest`
unfoldable pub validate_approval_request : ApprovalRequest → Result (Unit {0})
validate_approval_request r =
    if is_blank r.token
      || (is_blank r.account_id
          || (leb_ℤ r.telegram_id (pos 0)
              || (is_blank r.product_id
                  || (leb_ℤ r.quantity (pos 0)
                      || (leb_ℤ r.base_amount_paise (pos 0)
                          || (leb_ℤ r.final_amount_paise (pos 0)
                              || (ltb_ℤ r.bundled_paise (pos 0)
                                  || (is_blank r.idempotency_key || is_blank r.reason))))))))
    then err (bytes "approval request fields are invalid")
    else ok tt

-- `NewApprovalRequest`: the token is sixteen random bytes in hexadecimal.
unfoldable pub new_approval_request :
    World → Account → ℤ → Product → ℤ → ℤ → ℤ → ℤ → Text → Text → Exec Trail ApprovalRequest
new_approval_request w account telegram_id product quantity base final bundled key reason = do
  token ← call draw_token w.token
  pure (record {
    token = token;
    account_id = account.id;
    telegram_id = telegram_id;
    product_id = product.id;
    quantity = quantity;
    base_amount_paise = base;
    final_amount_paise = final;
    bundled_paise = bundled;
    idempotency_key = key;
    reason = reason;
  })

-- `ApprovalStore.Create`
unfoldable pub create : World → ApprovalRequest → Exec Trail ApprovalResult
create w r = do lift (validate_approval_request r); call (create_approval r) (λ t. w.approval t r)

-- `ApprovalStore.Resolve`
unfoldable pub resolve : World → ℤ → Text → Text → Exec Trail ApprovalResolution
resolve w telegram_id token decision = do
  refuse_if
      (leb_ℤ telegram_id (pos 0)
        || (is_blank token
            || (not (text_eq decision (bytes "approve"))
                && not (text_eq decision (bytes "reject")))))
      (bytes "approval token, Telegram id, and decision are required")
  call (resolve_approval telegram_id token decision)
      (λ t. w.resolution t telegram_id token decision)
