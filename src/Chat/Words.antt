-- ===== src/Chat/Words.antt =====
-- The texts and the buttons of cmd/user/main.go.
use agent_mart.Prelude.{
  ℕ, zero, suc, ◌+◌, ◌*◌, ◌%◌, Bool, true, false, ◌&&◌, ◌++◌, Option, none, some, List, [], ◌∷◌,
  if◌then◌else◌, leb, ◌==◌,
}
use agent_mart.Prelude.Int.{ℤ, pos, sub_ℕ, ltb_ℤ}
use agent_mart.Prelude.Text.{Text, bytes, take, text_eq, trim_space, after}
use agent_mart.Prelude.Decimal.{decimal_ℕ, rupees}
use agent_mart.Gate.Defs.{Time}
use agent_mart.Wallet.{is_blank}
use agent_mart.Negotiation.Session.{Actor, buyer, merchant, Turn}
use agent_mart.Shopping.Words.{to_lower}

-- `PendingApproval` of internal/buyer/approval.go
pub record PendingApproval : Type 0 where
  pub token : Text
  pub product_id : Text
  pub quantity : ℤ
  pub final_amount_paise : ℤ
  pub reason : Text
  pub expires_at : Text

-- One row of buttons, with the text that each sends back; `none` for no markup.
pub record Button : Type 0 where
  pub text : Text
  pub callback_data : Text

abbrev pub Markup : Type 0
Markup = Option (List Button)

-- `approvalMarkup`
unfoldable pub approval_markup : Text → Markup
approval_markup token =
    if is_blank token
    then none
    else some (
        record { text = bytes "Approve"; callback_data = bytes "/approve " ++ token }
        ∷ record { text = bytes "Decline"; callback_data = bytes "/reject " ++ token }
        ∷ [])

-- `cancelMarkup`
unfoldable pub cancel_markup : Text → Markup
cancel_markup order =
    if is_blank order
    then none
    else some (
        record {
          text = bytes "Cancel Order";
          callback_data = bytes "/refund " ++ (order ++ bytes " Cancelled by user");
        }
        ∷ [])

abbrev until : ℕ → Text → Text
until c [] = []
until c (d ∷ s) = let rest = until c s in if c == d then [] else d ∷ rest

abbrev order_markup : Option Text → Markup
order_markup none = none
order_markup (some order) = cancel_markup (trim_space (until 32 order))

abbrev is_some_text : Option Text → Bool
is_some_text none = false
is_some_text (some _) = true

abbrev response_markup : Option Text → Text → Markup
response_markup (some token) response = approval_markup (trim_space (until 10 token))
response_markup none response =
    if is_some_text (after (bytes "Refund") response)
    then none
    else order_markup (after (bytes "Order: ") response)

-- `replyMarkupForResponse`
unfoldable pub reply_markup_for_response : Text → Markup
reply_markup_for_response response =
    response_markup (after (bytes "Approval token: ") response) response

-- `firstNonBlank`
unfoldable pub first_non_blank : List Text → Text
first_non_blank [] = []
first_non_blank (v ∷ vs) = let rest = first_non_blank vs in if is_blank v then rest else v

-- `short`
unfoldable pub short : Text → Text
short id = take 8 id

-- `transcriptFileName`
abbrev pub transcript_file_name : Text → Text
transcript_file_name session = bytes "negotiation_" ++ (short session ++ bytes ".txt")

-- `speakerName`
unfoldable pub speaker_name : Text → Text
speaker_name actor =
    let word = to_lower (trim_space actor) in
    if text_eq word (bytes "buyer")
    then bytes "Shopper"
    else if text_eq word (bytes "merchant")
    then bytes "Shop"
    else actor

pub record TranscriptHeader : Type 0 where
  pub request : Text
  pub product : Text
  pub outcome : Text
  pub amount : ℤ
  pub session_id : Text

abbrev newline : Text
newline = 10 ∷ []

-- A labelled line for a text that is not blank.
abbrev labelled : Text → Text → Text
labelled label s = if is_blank s then [] else label ++ (trim_space s ++ newline)

abbrev count : List Turn → ℕ
count [] = 0
count (_ ∷ ts) = suc (count ts)

abbrev pub repeat : ℕ → ℕ → Text
repeat zero c = []
repeat (suc n) c = c ∷ repeat n c

abbrev actor_name : Actor → Text
actor_name buyer = bytes "buyer"
actor_name merchant = bytes "merchant"

module _ (clock : Time → Text) where
  abbrev turn_text : Turn → Text
  turn_text t =
      bytes "["
      ++ (clock t.at
          ++ (bytes "] "
              ++ (speaker_name (actor_name t.actor)
                  ++ (newline
                      ++ (bytes "    " ++ (trim_space t.message ++ (newline ++ newline)))))))

  abbrev turns_text : List Turn → Text
  turns_text [] = []
  turns_text (t ∷ ts) = turn_text t ++ turns_text ts

  abbrev conversation_text : List Turn → Text
  conversation_text [] = bytes "No turns were recorded for this run." ++ newline
  conversation_text (t ∷ ts) = turns_text (t ∷ ts)

  abbrev turn_count : List Turn → Text
  turn_count [] = []
  turn_count (t ∷ ts) = bytes "Turns:      " ++ (decimal_ℕ (count (t ∷ ts)) ++ newline)

  -- `renderTranscript`, over the format of the clock.
  unfoldable pub render_transcript : TranscriptHeader → List Turn → Text
  render_transcript h turns =
      let amount =
        if ltb_ℤ (pos 0) h.amount
        then bytes "Settled at: INR " ++ (rupees h.amount ++ newline)
        else [] in
      (bytes "AgentMart negotiation transcript" ++ newline)
      ++ ((repeat 33 61 ++ (newline ++ newline))
          ++ (labelled (bytes "Asked for:  ") h.request
              ++ (labelled (bytes "Product:    ") h.product
                  ++ (labelled (bytes "Outcome:    ") h.outcome
                      ++ (amount
                          ++ (labelled (bytes "Session:    ") h.session_id
                              ++ (turn_count turns
                                  ++ (newline
                                      ++ (bytes "Conversation"
                                          ++ (newline
                                              ++ (repeat 33 45
                                                  ++ (newline
                                                      ++ (newline
                                                          ++ conversation_text turns)))))))))))))

abbrev why : Text → Text
why reason =
    if is_blank reason then [] else newline ++ (bytes "Why it needs you: " ++ trim_space reason)

abbrev named : Option Text → Text
named none = bytes "the item you were shown"
named (some name) = if is_blank name then bytes "the item you were shown" else name

-- `openDecisionMessage`, given the product's name if the catalog has one.
unfoldable pub open_decision_message : Option Text → PendingApproval → Text
open_decision_message found p =
    let name = named found in
    bytes "You still have a decision open: "
    ++ (name
        ++ (bytes " for INR "
            ++ (rupees p.final_amount_paise
                ++ (bytes "."
                    ++ (why p.reason
                        ++ (newline
                            ++ (newline
                                ++ (bytes "Tap Approve or Decline below, or send /approve "
                                    ++ (p.token
                                        ++ (newline
                                            ++ bytes
                                                "Nothing has moved. A typed message cannot approve a spend."))))))))))

abbrev pub digit : ℕ → Bool
digit c = leb 48 c && leb c 57

-- The number of a sequence of digits, after the digits read so far.
abbrev pub number : ℕ → Text → Option ℕ
number n [] = some n
number n (c ∷ s) = if digit c then number (n * 10 + (c % 48)) s else none

abbrev unsigned : Text → Option ℕ
unsigned [] = none
unsigned (c ∷ s) = number 0 (c ∷ s)

abbrev pub within : ℕ → (ℕ → ℤ) → Option ℕ → Option ℤ
within bound sign none = none
within bound sign (some n) = if leb n bound then some (sign n) else none

abbrev pub max_int : ℕ
max_int = 0x7fffffffffffffff

-- `strconv.Atoi` of a 64-bit int.
unfoldable pub atoi : Text → Option ℤ
atoi [] = none
atoi (c ∷ s) =
    if c == 45
    then within (max_int + 1) (sub_ℕ 0) (unsigned s)
    else if c == 43
    then within max_int pos (unsigned s)
    else within max_int pos (unsigned (c ∷ s))
