-- ===== src/Chat/Talk.antt =====
-- `conversationalBuy` of cmd/user/main.go: what a message in the person's own words does.
use agent_mart.Prelude.{false, not, ◌++◌, Option, none, some, List, [], ◌∷◌, if◌then◌else◌}
use agent_mart.Prelude.Int.{ℤ, pos}
use agent_mart.Prelude.Int64.{◌*64◌}
use agent_mart.Prelude.Text.{Text, bytes, text_eq, trim_space}
use agent_mart.Prelude.Decimal.{decimal, rupees}
use agent_mart.Prelude.Result.{Result, ok, err, Exec, pure, ◌>>=◌, ◌>>◌}
use agent_mart.Catalog.{Product}
use agent_mart.Negotiation.Session.{Turn}
use agent_mart.Buyer.World.{Account}
use agent_mart.Buyer.Purchase.{PurchaseRequest, PurchaseResult}
use agent_mart.Shopping.World.{Wallet, Conversation, Settled}
use agent_mart.Shopping.Route.{ask_human, declined}
use agent_mart.Chat.Words.{
  PendingApproval, TranscriptHeader, approval_markup, cancel_markup, first_non_blank,
  transcript_file_name, render_transcript, open_decision_message,
}
use agent_mart.Chat.World.{
  Message, sends_document, reads_pending, reads_account, loads, saves, shops, records_run, gets,
  asks, pays, AccountAnswer, linked, not_linked, unreadable, World, Services, Trail, call, observe,
  reply,
}

abbrev pub empty_conversation : Conversation
empty_conversation = record { brief = []; options = []; chosen = [] }

-- `remember`
unfoldable pub remember : Services → ℤ → Conversation → Exec Trail (Unit {0})
remember sv telegram_id prior t =
    if sv.has_conversations then (ok tt, saves telegram_id prior ∷ t) else (ok tt, t)

-- `forget`
abbrev pub forget : Services → ℤ → Exec Trail (Unit {0})
forget sv telegram_id = remember sv telegram_id empty_conversation

abbrev ok_or : {A : Type 0} → Result A → A → A
ok_or (ok a) b = a
ok_or (err e) b = b

abbrev product_name : Result Product → Option Text
product_name (ok p) = some p.name
product_name (err e) = none

abbrev pub explained : {A : Type 0} → Text → Result A → Result A
explained what (ok a) = ok a
explained what (err e) = err (what ++ e)

-- What this chat already discussed, or nothing.
unfoldable pub recall : World → Services → ℤ → Exec Trail Conversation
recall w sv telegram_id t =
    if sv.has_conversations
    then (ok (ok_or (w.remembered t telegram_id) empty_conversation), loads telegram_id ∷ t)
    else (ok empty_conversation, t)

-- The last three steps of a run.
abbrev last_three : List Text → List Text
last_three [] = []
last_three (a ∷ []) = a ∷ []
last_three (a ∷ b ∷ []) = a ∷ b ∷ []
last_three (a ∷ b ∷ c ∷ []) = a ∷ b ∷ c ∷ []
last_three (a ∷ b ∷ c ∷ d ∷ s) = last_three (b ∷ c ∷ d ∷ s)

abbrev step_lines : List Text → Text
step_lines [] = []
step_lines (s ∷ ss) = 10 ∷ (bytes "- " ++ (s ++ step_lines ss))

abbrev summary : Settled → Text
summary r =
    bytes "Agent decision: "
    ++ (r.action ++ (10 ∷ (r.rationale ++ step_lines (last_three r.steps))))

abbrev approval_text : Product → PurchaseResult → Settled → Text
approval_text p pending r =
    bytes "Your call: "
    ++ (p.name
        ++ (bytes " for INR "
            ++ (rupees pending.amount_paise
                ++ (bytes ". Approval token: "
                    ++ (pending.approval_token
                        ++ (10
                            ∷ (bytes "Tap Approve or Decline below, or send /approve "
                                ++ (pending.approval_token ++ (10 ∷ 10 ∷ summary r)))))))))

abbrev pub approval_required : PurchaseResult → Text
approval_required p =
    bytes "Human approval required for INR "
    ++ (rupees p.amount_paise ++ (bytes ". Approval token: " ++ p.approval_token))

-- The request of a settled run, under a key that the message alone determines.
abbrev pub agent_key : Message → Text
agent_key m = bytes "telegram:nl:" ++ (decimal m.from_id ++ (bytes ":" ++ decimal m.message_id))

abbrev pub agent_request : Message → Product → Settled → PurchaseRequest
agent_request m p r = record {
  telegram_id = m.from_id;
  product_id = r.product_id;
  quantity = r.quantity;
  base_amount_paise = p.price_paise *64 r.quantity;
  final_amount_paise = r.final_paise;
  bundled_paise = r.bundled_paise;
  idempotency_key = agent_key m;
  human_approved = false;
  price_observed_at = r.quoted_at;
}

-- A failed acknowledgement ends the answer.
unfoldable pub acknowledged : Exec Trail (Unit {0}) → Exec Trail (Unit {0})
acknowledged send t = (explained (bytes "send agent ack failed: ") (send t).0, (send t).1)

module _ (w : World) (sv : Services) (m : Message) where
  unfoldable pub open_name : PendingApproval → Exec Trail (Option Text)
  open_name p = observe (gets p.product_id) (λ t. product_name (w.product t p.product_id))

  -- The same question again, with the same token.
  unfoldable pub ask_again : PendingApproval → Exec Trail (Unit {0})
  ask_again p = do
    name ← open_name p
    reply w m (open_decision_message name p) (approval_markup p.token)

  -- What the person hears of an attempt to buy.
  unfoldable pub report : Settled → PurchaseResult → Exec Trail (Unit {0})
  report r p =
      if p.approval_required
      then reply w m (approval_required p ++ (10 ∷ 10 ∷ summary r))
          (approval_markup p.approval_token)
      else if not p.fulfilled
      then reply w m (summary r ++ (10 ∷ (bytes "Purchase rejected: " ++ p.reason))) none
      else forget sv m.from_id
        >> reply w m
            (summary r
              ++ (10
                  ∷ (bytes "Purchase fulfilled via wallet for INR "
                      ++ (rupees p.amount_paise ++ (bytes ". Order: " ++ p.order_id)))))
            (cancel_markup p.order_id)

  unfoldable pub ask_person : Settled → Product → Exec Trail (Unit {0})
  ask_person r p = do
    pending ← call (asks (agent_request m p r) r.rationale) (λ t.
        explained (bytes "request human approval: ")
          (w.approval t (agent_request m p r) r.rationale))
    reply w m (approval_text p pending r) (approval_markup pending.approval_token)

  unfoldable pub buy_settled : Settled → Product → Exec Trail (Unit {0})
  buy_settled r p = do
    bought ←
        call (pays (agent_request m p r))
          (λ t. explained (bytes "agentic purchase failed: ") (w.purchase t (agent_request m p r)))
    report r bought

  abbrev pub offered : Settled → Result Product → Exec Trail (Unit {0})
  offered r (err e) = reply w m (bytes "The selected product is no longer available.") none
  offered r (ok p) = if text_eq r.action ask_human then ask_person r p else buy_settled r p

  unfoldable pub execute : Settled → Exec Trail (Unit {0})
  execute r =
      if text_eq r.action declined
      then reply w m (summary r) none
      else (do found ← observe (gets r.product_id) (λ t. w.product t r.product_id); offered r found)

  abbrev pub evidence : Settled → List Turn → Exec Trail (Unit {0})
  evidence r [] = pure tt
  evidence r (x ∷ xs) =
      let about : TranscriptHeader = record {
        request = m.text;
        product = r.product_name;
        outcome = r.action;
        amount = r.final_paise;
        session_id = r.session_id;
      } in
      observe
        (sends_document m.chat_id (transcript_file_name r.session_id)
          (render_transcript w.clock about (x ∷ xs)))
        (λ t. tt)

  -- The transcript, if anything was said. A failure to send it is only logged.
  unfoldable pub send_evidence : Settled → Exec Trail (Unit {0})
  send_evidence r = evidence r r.transcript

  unfoldable pub record_run : Settled → Exec Trail (Unit {0})
  record_run r =
      if sv.has_audit
      then call (records_run m.from_id m.text r)
          (λ t. explained (bytes "audit agent run: ") (w.recorded t m.from_id m.text r))
      else pure tt

  abbrev pub finished : Settled × Option Text → Exec Trail (Unit {0})
  finished (r, some e) = reply w m (w.explain e) none
  finished (r, none) = record_run r >> send_evidence r >> execute r

  unfoldable pub shop_with : Account → Exec Trail (Unit {0})
  shop_with account =
      let wallet : Wallet = record {
        balance_paise = account.wallet_balance_paise;
        spend_limit_paise = account.spend_limit_paise;
        budget_paise = pos 0;
        account_id = account.id;
      } in
      do
        _ ← acknowledged (reply w m (bytes "Working on it: " ++ w.quoted (trim_space m.text)) none)
        prior ← recall w sv m.from_id
        done ← observe (shops m.text prior wallet) (λ t. w.shop t m.text prior wallet)
        _ ← remember sv m.from_id (record {
          brief = first_non_blank (prior.brief ∷ m.text ∷ []);
          options = done.0.shown;
          chosen = done.0.product_id;
        })
        finished done

  abbrev pub shop_as : AccountAnswer → Exec Trail (Unit {0})
  shop_as not_linked =
      reply w m
        (bytes
          "Link your account first: generate a token on the dashboard website, then send /link TOKEN.")
        none
  shop_as (unreadable e) = reply w m (w.explain e) none
  shop_as (linked account) = shop_with account

  unfoldable pub start_shopping : Exec Trail (Unit {0})
  start_shopping = do
    account ← observe (reads_account m.from_id) (λ t. w.account t m.from_id)
    shop_as account

  -- An open decision outranks the message; a failed lookup does not.
  abbrev pub unless_open : Result (Option PendingApproval) → Exec Trail (Unit {0})
  unless_open (ok (some p)) = ask_again p
  unless_open (ok none) = start_shopping
  unless_open (err e) = start_shopping

  -- `conversationalBuy`
  unfoldable pub conversational_buy : Exec Trail (Unit {0})
  conversational_buy =
      if not sv.has_shopping
      then reply w m
          (bytes "The shopping agent is not configured here. Use /start to see available commands.")
          none
      else if sv.has_approvals
      then (do
        answer ← observe (reads_pending m.from_id) (λ t. w.pending t m.from_id)
        unless_open answer)
      else start_shopping
