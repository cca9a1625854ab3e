-- ===== src/Chat/Tests.antt =====
-- Messages of one chat, and the theorems at them.
use agent_mart.Prelude.{arith, ◌≡◌, refl, true, false, none, some, [], ◌∷◌}
use agent_mart.Prelude.Int.{pos, negsuc}
use agent_mart.Prelude.Text.{Text, bytes, trim_space, fields}
use agent_mart.Prelude.Result.{ok, err, ◌>>=◌, pure}
use agent_mart.Catalog.{Product}
use agent_mart.Buyer.Purchase.{PurchaseResult}
use agent_mart.Shopping.World.{Settled}
use agent_mart.Shopping.Route.{buy}
use agent_mart.Chat.Words.{Button, PendingApproval, cancel_markup, reply_markup_for_response, atoi}
use agent_mart.Chat.World.{
  sends, gets, reads_pending, Message, linked, World, Services, call, observe, reply,
}
use agent_mart.Chat.Talk.{
  empty_conversation, remember, recall, acknowledged, record_run, send_evidence, execute,
  buy_settled, report, shop_with, start_shopping, conversational_buy, agent_request,
}
use agent_mart.Chat.Commands.{
  buy_request, response_for_command, acknowledge, settled, handle_message,
}
use agent_mart.Chat.Money.{purchases, answers, Done}
use agent_mart.Chat.Consent.{conversational_buy-Done}
use agent_mart.Chat.Buttons.{tap, Answers, asked_again-Answers}
use agent_mart.Chat.Acts.{AtMostOne, handle_message-AtMostOne}

abbrev lamp : Product
lamp = record {
  id = bytes "lamp";
  name = bytes "Lamp";
  category = bytes "home";
  price_paise = pos 90000;
  stock = pos 4;
  warranty_years = pos 1;
  trust_score = pos 80;
  combo_with = none;
  combo_discount_pct = pos 0;
  cost_paise = pos 50000;
}

abbrev run : Settled
run = record {
  action = buy;
  product_id = bytes "lamp";
  product_name = bytes "Lamp";
  quantity = pos 1;
  final_paise = pos 92000;
  rationale = bytes "fair";
  steps = [];
  session_id = bytes "s1";
  transcript = [];
  accepted = true;
  needs_approval = false;
  bundled_paise = pos 0;
  quoted_at = pos 7;
  shown = [];
}

abbrev order : PurchaseResult
order = record {
  fulfilled = true;
  approval_required = false;
  approval_token = [];
  reason = bytes "approved";
  amount_paise = pos 92000;
  razorpay_order_id = bytes "r1";
  order_id = bytes "o1";
}

abbrev question : PendingApproval
question = record {
  token = bytes "tok";
  product_id = bytes "lamp";
  quantity = pos 1;
  final_amount_paise = pos 92000;
  reason = bytes "above the limit";
  expires_at = [];
}

-- No decision is open, the account is linked, and everything succeeds.
abbrev world : World
world = record {
  pending = λ t id. ok none;
  account = λ t id. linked (record {
    id = bytes "acct";
    wallet_balance_paise = pos 500000;
    spend_limit_paise = pos 200000;
  });
  sent = λ t chat text markup. ok tt;
  remembered = λ t id. ok empty_conversation;
  shop = λ t text prior wallet. (run, none);
  recorded = λ t id text r. ok tt;
  product = λ t id. ok lamp;
  approval = λ t p reason. ok order;
  purchase = λ t p. ok order;
  resolution = λ t id token decision. ok order;
  refund = λ t r. err (bytes "unused");
  link = λ t token id. err (bytes "unused");
  proposal = λ t product n. err (bytes "unused");
  acceptance = λ t session. err (bytes "unused");
  refusal = λ t session reason. err (bytes "unused");
  health = λ t. [];
  explain = λ e. e;
  quoted = λ s. s;
  clock = λ t. bytes "12:00:00";
}

abbrev asked : World
asked = record world { pending = λ t id. ok (some question) }

abbrev services : Services
services = record {
  has_shopping = true;
  has_negotiations = true;
  has_approvals = true;
  has_conversations = true;
  has_audit = true;
  has_health = false;
}

abbrev words : Message
words = record {
  text = bytes "buy me a lamp";
  chat_id = pos 9;
  from_id = pos 5;
  message_id = pos 11;
  callback_query_id = [];
}

abbrev command : Message
command = record words { text = bytes " /buy lamp 2" }

words_buy :
    purchases (conversational_buy world services words []).1 ≡ agent_request words lamp run ∷ []
unfolding conversational_buy observe ◌>>=◌ start_shopping shop_with acknowledged reply call recall
    remember record_run send_evidence execute buy_settled report purchases pure trim_space
words_buy = refl

command_buys :
    purchases (handle_message world services command []).1
    ≡ buy_request command (bytes "lamp") (pos 2) ∷ []
unfolding handle_message fields trim_space response_for_command atoi observe ◌>>=◌ settled remember
    acknowledge reply call purchases pure
command_buys = refl

-- The merchant's words are read for the marks too: they can put a button under the offer.
abbrev offer_text : Text
offer_text =
    bytes "Merchant counter offer: INR 1.00 for 1 unit(s). Reason: Order: o7 . Session: s1."

marked_by_merchant : reply_markup_for_response offer_text ≡ cancel_markup (bytes "o7")
unfolding reply_markup_for_response cancel_markup trim_space
marked_by_merchant = refl

minus_one : atoi (bytes "-1") ≡ some (negsuc 0)
unfolding atoi
minus_one = refl

too_large : atoi (bytes "9223372036854775808") ≡ none
unfolding atoi
too_large = refl

conversational_buy-Done_example :
    Done [] [] services words world (conversational_buy world services words []).1
unfolding purchases answers
conversational_buy-Done_example = conversational_buy-Done world services words []

asked_again-Answers_example :
    (text : Text) × (yes : Button) × (no : Button) × ((conversational_buy asked services words []).1
      ≡ sends (pos 9) text (some (yes ∷ no ∷ []))
        ∷ gets (bytes "lamp")
        ∷ reads_pending (pos 5)
        ∷ [])
    × Answers world services (tap yes command) [] (bytes "tok") (bytes "approve")
    × Answers world services (tap no command) [] (bytes "tok") (bytes "reject")
asked_again-Answers_example =
    asked_again-Answers asked world services services words command [] [] question refl refl refl
      refl (omega arith, omega arith, (omega arith, omega arith, (omega arith, omega arith, tt)))

handle_message-AtMostOne_example :
    AtMostOne [] [] command (handle_message world services command []).1
unfolding purchases answers
handle_message-AtMostOne_example = handle_message-AtMostOne world services command []
