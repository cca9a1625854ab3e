-- ===== src/Chat/Commands.antt =====
-- `responseForCommandWithServices` and `handleMessage` of cmd/user/main.go.
use agent_mart.Prelude.{
  Bool, true, false, not, ◌&&◌, ◌++◌, Option, none, some, List, [], ◌∷◌, if◌then◌else◌,
}
use agent_mart.Prelude.Int.{ℤ, pos, leb_ℤ}
use agent_mart.Prelude.Text.{Text, bytes, is_empty, text_eq, trim_space, fields, cut_prefix}
use agent_mart.Prelude.Decimal.{decimal, rupees}
use agent_mart.Prelude.Result.{Result, ok, err, Exec, pure, ◌>>=◌, ◌>>◌}
use agent_mart.Buyer.Purchase.{PurchaseRequest, PurchaseResult}
use agent_mart.Buyer.Refund.{RefundRequest, RefundOutcome}
use agent_mart.Shopping.World.{Proposal, Resolution}
use agent_mart.Shopping.Words.{join}
use agent_mart.Shopping.Route.{one_of}
use agent_mart.Chat.Words.{reply_markup_for_response, atoi}
use agent_mart.Chat.World.{
  Message, pays, resolves, refunds, redeems, proposes, accepts, declines, probes, acknowledges,
  World, Services, Trail, observe, reply,
}
use agent_mart.Chat.Talk.{forget, approval_required, conversational_buy}

abbrev line : List Text → Text
line = join (10 ∷ [])

abbrev help : Text
help = line (
    bytes "Welcome to AgentMart."
    ∷ []
    ∷ bytes "Tell me what you want in your own words and I will shop for it:"
    ∷ bytes "  buy me a trimmer under 2500"
    ∷ bytes "  something cheaper"
    ∷ bytes "  the second one"
    ∷ []
    ∷ bytes "I show you what the shop offers, argue the price, and buy it if it is"
    ∷ bytes "inside the limits you set. Anything outside them comes back to you to"
    ∷ bytes "approve or decline."
    ∷ []
    ∷ bytes "If you prefer commands:"
    ∷ bytes "  /link TOKEN to connect the account you made on the website"
    ∷ bytes "  /buy PRODUCT_ID QUANTITY to buy a listed item outright"
    ∷ bytes "  /negotiate PRODUCT_ID QUANTITY to ask for a price first"
    ∷ bytes "  /refund ORDER_ID REASON to send an order back"
    ∷ bytes "  /diag to check that every part of the system is answering"
    ∷ [])

abbrev unknown : Text
unknown = line (
    bytes "I did not recognise that."
    ∷ []
    ∷ bytes "Plain sentences work best, for example: buy me a trimmer under 2500."
    ∷ bytes "Send /start to see everything I can do."
    ∷ [])

-- A quantity that is a positive integer.
abbrev positive : Option ℤ → Option ℤ
positive none = none
positive (some n) = if leb_ℤ n (pos 0) then none else some n

abbrev order_text : Text → PurchaseResult → Text
order_text what p = what ++ (rupees p.amount_paise ++ (bytes ". Order: " ++ p.order_id))

abbrev pub buy_key : Message → Text
buy_key m = bytes "telegram:" ++ (decimal m.from_id ++ (bytes ":" ++ decimal m.message_id))

-- `/buy` asks for a product and a quantity, and leaves the amounts to the purchase.
abbrev pub buy_request : Message → Text → ℤ → PurchaseRequest
buy_request m product quantity = record {
  telegram_id = m.from_id;
  product_id = product;
  quantity = quantity;
  base_amount_paise = pos 0;
  final_amount_paise = pos 0;
  bundled_paise = pos 0;
  idempotency_key = buy_key m;
  human_approved = false;
  price_observed_at = pos 0;
}

abbrev pub deal_key : Message → Resolution → Text
deal_key m r = bytes "telegram:negotiation:" ++ (decimal m.from_id ++ (bytes ":" ++ r.session_id))

abbrev pub deal_request : Message → Resolution → PurchaseRequest
deal_request m r = record {
  telegram_id = m.from_id;
  product_id = r.product_id;
  quantity = r.quantity;
  base_amount_paise = r.base_amount_paise;
  final_amount_paise = r.final_amount_paise;
  bundled_paise = r.bundled_paise;
  idempotency_key = deal_key m r;
  human_approved = false;
  price_observed_at = r.quoted_at;
}

abbrev is_command : Option Text → Bool
is_command (some _) = true
is_command none = false

-- A message in the person's own words.
abbrev pub is_words : Text → Bool
is_words text = not (is_empty text) && not (is_command (cut_prefix (bytes "/") text))

module _ (w : World) (sv : Services) (m : Message) where
  -- The person hears `what` of an order, and the shortlist is dropped.
  unfoldable pub settled : Text → PurchaseResult → Exec Trail Text
  settled what p = forget sv m.from_id >> pure (order_text what p)

  abbrev pub bought : Result PurchaseResult → Exec Trail Text
  bought (err e) =
      pure (bytes "Purchase could not be completed. Check the dashboard and try again.")
  bought (ok p) =
      if not p.fulfilled
      then pure (
          if p.approval_required
          then approval_required p
          else bytes "Purchase rejected: " ++ p.reason)
      else settled (bytes "Purchase fulfilled via wallet for INR ") p

  abbrev pub buy_counted : Text → Option ℤ → Exec Trail Text
  buy_counted product none = pure (bytes "Quantity must be a positive integer.")
  buy_counted product (some n) = do
    p ← observe (pays (buy_request m product n)) (λ t. w.purchase t (buy_request m product n))
    bought p

  abbrev pub buy_command : List Text → Exec Trail Text
  buy_command (product ∷ quantity ∷ []) = buy_counted product (positive (atoi quantity))
  buy_command _ = pure (bytes "Use /buy PRODUCT_ID QUANTITY.")

  abbrev linked_text : Result Text → Text
  linked_text (ok a) = bytes "Telegram is now linked to your AgentMart wallet."
  linked_text (err e) = bytes "That link token is invalid, expired, or already used."

  abbrev pub link_command : List Text → Exec Trail Text
  link_command (token ∷ []) = do
    a ← observe (redeems token m.from_id) (λ t. w.link t token m.from_id)
    pure (linked_text a)
  link_command _ = pure (bytes "Use /link TOKEN after generating a token in the dashboard.")

  abbrev proposal_text : Result Proposal → Text
  proposal_text (err e) = bytes "Merchant negotiation could not be started."
  proposal_text (ok p) =
      bytes "Merchant counter offer: INR "
      ++ (rupees p.final_amount_paise
          ++ (bytes " for "
              ++ (decimal p.quantity
                  ++ (bytes " unit(s). Reason: "
                      ++ (p.reason
                          ++ (bytes ". Session: "
                              ++ (p.session_id
                                  ++ (bytes ". Use /accept "
                                      ++ (p.session_id
                                          ++ (bytes " or /decline "
                                              ++ (p.session_id ++ bytes ".")))))))))))

  abbrev pub negotiate_counted : Text → Option ℤ → Exec Trail Text
  negotiate_counted product none = pure (bytes "Quantity must be a positive integer.")
  negotiate_counted product (some n) = do
    p ← observe (proposes product n) (λ t. w.proposal t product n)
    pure (proposal_text p)

  abbrev pub negotiate_command : List Text → Exec Trail Text
  negotiate_command (product ∷ quantity ∷ []) = negotiate_counted product (positive (atoi quantity))
  negotiate_command _ = pure (bytes "Use /negotiate PRODUCT_ID QUANTITY.")

  abbrev pub dealt : Result PurchaseResult → Exec Trail Text
  dealt (err e) = pure (bytes "Negotiated purchase could not be completed.")
  dealt (ok p) =
      if p.approval_required
      then pure (approval_required p)
      else if not p.fulfilled
      then pure (bytes "Negotiated purchase rejected: " ++ p.reason)
      else settled (bytes "Negotiated purchase fulfilled via wallet for INR ") p

  abbrev pub deal : Result Resolution → Exec Trail Text
  deal (err e) = pure (bytes "Merchant negotiation could not be resolved.")
  deal (ok r) = do
    p ← observe (pays (deal_request m r)) (λ t. w.purchase t (deal_request m r))
    dealt p

  abbrev how_to_resolve : Text
  how_to_resolve = bytes "Use /accept SESSION_ID or /decline SESSION_ID REASON."

  abbrev pub accept_command : List Text → Exec Trail Text
  accept_command (session ∷ _) = do
    r ← observe (accepts session) (λ t. w.acceptance t session)
    deal r
  accept_command [] = pure how_to_resolve

  abbrev declined_text : Result Resolution → Text
  declined_text (err e) = bytes "Merchant negotiation could not be resolved."
  declined_text (ok r) = bytes "Merchant counter offer declined."

  abbrev pub decline_command : List Text → Exec Trail Text
  decline_command (session ∷ word ∷ words) =
      let reason = join (bytes " ") (word ∷ words) in
      do
        r ← observe (declines session reason) (λ t. w.refusal t session reason)
        pure (declined_text r)
  decline_command _ = pure how_to_resolve

  abbrev pub answered : Result PurchaseResult → Exec Trail Text
  answered (err e) = pure (bytes "Approval could not be processed.")
  answered (ok p) =
      if not p.fulfilled
      then pure (bytes "Approval result: " ++ p.reason)
      else settled (bytes "Purchase fulfilled via wallet for INR ") p

  abbrev pub resolve_command : Text → List Text → Exec Trail Text
  resolve_command decision (token ∷ []) = do
    p ← observe (resolves m.from_id token decision) (λ t. w.resolution t m.from_id token decision)
    answered p
  resolve_command decision _ = pure (bytes "Use /approve TOKEN or /reject TOKEN.")

  abbrev refund_text : Result RefundOutcome → Text
  refund_text (err e) = bytes "Refund could not be processed. Check the order and try again."
  refund_text (ok r) =
      if r.duplicate
      then bytes "Refund already applied for order " ++ (r.order_id ++ bytes ".")
      else if not r.approved
      then bytes "Refund rejected: " ++ r.reason
      else bytes "Refund approved via wallet for INR "
        ++ (rupees r.amount_paise ++ (bytes ". Order: " ++ r.order_id))

  abbrev pub refund_command : List Text → Exec Trail Text
  refund_command (order ∷ word ∷ words) =
      let request : RefundRequest = record {
        telegram_id = m.from_id;
        message_id = m.message_id;
        order_id = order;
        reason = join (bytes " ") (word ∷ words);
      } in
      do r ← observe (refunds request) (λ t. w.refund t request); pure (refund_text r)
  refund_command _ = pure (bytes "Use /refund ORDER_ID REASON.")

  abbrev pub diag_command : Exec Trail Text
  diag_command =
      if sv.has_health
      then observe probes (λ t. w.health t)
      else pure (bytes "Layer checks are not configured in this build.")

  abbrev pub if_negotiating : Exec Trail Text → Exec Trail Text
  if_negotiating run =
      if sv.has_negotiations then run else pure (bytes "Merchant negotiation is unavailable.")

  -- `responseForCommandWithServices`, on the first word and the others.
  unfoldable pub response_for_command : Text → List Text → Exec Trail Text
  response_for_command command rest =
      if one_of command (bytes "/start" ∷ bytes "/help" ∷ [])
      then pure help
      else if text_eq command (bytes "/diag")
      then diag_command
      else if text_eq command (bytes "/link")
      then link_command rest
      else if text_eq command (bytes "/buy")
      then buy_command rest
      else if text_eq command (bytes "/negotiate")
      then if_negotiating (negotiate_command rest)
      else if text_eq command (bytes "/accept")
      then if_negotiating (accept_command rest)
      else if text_eq command (bytes "/decline")
      then if_negotiating (decline_command rest)
      else if text_eq command (bytes "/approve")
      then resolve_command (bytes "approve") rest
      else if text_eq command (bytes "/reject")
      then resolve_command (bytes "reject") rest
      else if text_eq command (bytes "/refund")
      then refund_command rest
      else pure unknown

  -- The acknowledgement of a tapped button never decides what is told.
  unfoldable pub acknowledge : Exec Trail (Unit {0})
  acknowledge =
      if is_empty m.callback_query_id
      then pure tt
      else observe (acknowledges m.callback_query_id) (λ t. tt)

  abbrev pub run_command : List Text → Exec Trail (Unit {0})
  run_command [] = pure tt
  run_command (command ∷ rest) = do
    response ← response_for_command command rest
    _ ← acknowledge
    reply w m response (reply_markup_for_response response)

  -- `handleMessage`
  unfoldable pub handle_message : Exec Trail (Unit {0})
  handle_message =
      let text = trim_space m.text in
      if is_words text then conversational_buy w sv m else run_command (fields text)
