-- ===== src/Chat/World.antt =====
-- What cmd/user/main.go calls to answer a message, as arbitrary functions of the calls made so
-- far. Logging, the typing indicator and the growing progress note are left out.
use agent_mart.Prelude.{Bool, Option, List, ◌∷◌}
use agent_mart.Prelude.Int.{ℤ}
use agent_mart.Prelude.Text.{Text}
use agent_mart.Prelude.Result.{Result, ok, Exec}
use agent_mart.Gate.Defs.{Time}
use agent_mart.Catalog.{Product}
use agent_mart.Buyer.World.{Account}
use agent_mart.Buyer.Purchase.{PurchaseRequest, PurchaseResult}
use agent_mart.Buyer.Refund.{RefundRequest, RefundOutcome}
use agent_mart.Shopping.World.{Wallet, Conversation, Proposal, Resolution, Settled}
use agent_mart.Chat.Words.{PendingApproval, Markup}

-- The fields of a Telegram message that are read. The callback id is empty for a typed message.
pub record Message : Type 0 where
  pub text : Text
  pub chat_id : ℤ
  pub from_id : ℤ
  pub message_id : ℤ
  pub callback_query_id : Text

pub data Call : Type 0 where
  reads_pending : ℤ → Call
  reads_account : ℤ → Call
  sends : ℤ → Text → Markup → Call
  sends_document : ℤ → Text → Text → Call
  loads : ℤ → Call
  saves : ℤ → Conversation → Call
  shops : Text → Conversation → Wallet → Call
  records_run : ℤ → Text → Settled → Call
  gets : Text → Call
  asks : PurchaseRequest → Text → Call
  pays : PurchaseRequest → Call
  resolves : ℤ → Text → Text → Call
  refunds : RefundRequest → Call
  redeems : Text → ℤ → Call
  proposes : Text → ℤ → Call
  accepts : Text → Call
  declines : Text → Text → Call
  probes : Call
  acknowledges : Text → Call

abbrev pub Trail : Type 0
Trail = List Call

-- `AccountForTelegram`, with `ErrNotLinked` told from the other errors.
pub data AccountAnswer : Type 0 where
  linked : Account → AccountAnswer
  not_linked : AccountAnswer
  unreadable : Text → AccountAnswer

-- A run of the shopping graph gives a result beside its error too.
pub record World : Type 0 where
  pub pending : Trail → ℤ → Result (Option PendingApproval)
  pub account : Trail → ℤ → AccountAnswer
  pub sent : Trail → ℤ → Text → Markup → Result (Unit {0})
  pub remembered : Trail → ℤ → Result Conversation
  pub shop : Trail → Text → Conversation → Wallet → Settled × Option Text
  pub recorded : Trail → ℤ → Text → Settled → Result (Unit {0})
  pub product : Trail → Text → Result Product
  pub approval : Trail → PurchaseRequest → Text → Result PurchaseResult
  pub purchase : Trail → PurchaseRequest → Result PurchaseResult
  pub resolution : Trail → ℤ → Text → Text → Result PurchaseResult
  pub refund : Trail → RefundRequest → Result RefundOutcome
  pub link : Trail → Text → ℤ → Result Text
  pub proposal : Trail → Text → ℤ → Result Proposal
  pub acceptance : Trail → Text → Result Resolution
  pub refusal : Trail → Text → Text → Result Resolution
  pub health : Trail → Text
  pub explain : Text → Text
  pub quoted : Text → Text
  pub clock : Time → Text

-- `commandServices`: which of them this process has. The purchaser can resolve approvals.
pub record Services : Type 0 where
  pub has_shopping : Bool
  pub has_negotiations : Bool
  pub has_approvals : Bool
  pub has_conversations : Bool
  pub has_audit : Bool
  pub has_health : Bool

unfoldable pub call : {A : Type 0} → Call → (Trail → Result A) → Exec Trail A
call c f t = (f t, c ∷ t)

-- A call whose answer the caller does not pass on as an error.
unfoldable pub observe : {A : Type 0} → Call → (Trail → A) → Exec Trail A
observe c f t = (ok (f t), c ∷ t)

-- `sendReply`
unfoldable pub reply : World → Message → Text → Markup → Exec Trail (Unit {0})
unfolding call
reply w m text markup = call (sends m.chat_id text markup) (λ t. w.sent t m.chat_id text markup)
