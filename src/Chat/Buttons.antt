-- ===== src/Chat/Buttons.antt =====
-- The buttons of cmd/user/main.go and the messages that they send back.
use agent_mart.Prelude.{
  ℕ, ◌≤◌, ◌≡◌, refl, sym, ap, ◌∙◌, true, false, not, ◌++◌, some, List, [], ◌∷◌, arith,
}
use mathlib.Core.Path.{subst}
use mathlib.Core.List.{append_assoc}
use agent_mart.Prelude.Int.{ℤ}
use agent_mart.Prelude.Text.{Text, bytes, is_empty, fields, trim_space}
use agent_mart.Prelude.Text.Visible.{Visible, fields_two, last_byte, trim_space_whole}
use agent_mart.Prelude.Result.{Result, ok, err, ◌>>=◌}
use agent_mart.Prelude.Ensures.{
  Ensures, Ensures-bind, Ensures-if, Ensures-pure, Outcome-of, Outcome-if,
}
use agent_mart.Buyer.Purchase.{PurchaseRequest, PurchaseResult}
use agent_mart.Chat.Words.{
  PendingApproval, Button, Markup, approval_markup, reply_markup_for_response,
}
use agent_mart.Chat.World.{
  Call, sends, gets, reads_pending, Message, Trail, World, Services, call, observe, reply,
}
use agent_mart.Chat.Talk.{ask_again, open_name, conversational_buy, remember}
use agent_mart.Chat.Commands.{
  is_words, settled, answered, resolve_command, response_for_command, acknowledge, run_command,
  handle_message,
}
use agent_mart.Chat.Money.{purchases, answers, Plain, Still, Still-cons}
use agent_mart.Chat.Consent.{Outcome-same}

module _ (ps : List PurchaseRequest) (qs : List (ℤ × Text × Text)) where
  abbrev Held : Trail → Type 0
  Held = Still ps qs

  abbrev Failed : Text → Trail → Type 0
  Failed e = Still ps qs

  plain_observe :
      {A : Type 0} (c : Call) (f : Trail → A)
      → Plain c
      → Ensures Held (observe c f) (λ _. Held) Failed
  unfolding observe
  plain_observe c f h = record { at = λ t k. Still-cons ps qs c t h k }

  plain_reply :
      (w : World) (m : Message) (text : Text) (markup : Markup)
      → Ensures Held (reply w m text markup) (λ _. Held) Failed
  unfolding reply call
  plain_reply w m text markup = record {
    at = λ t k.
        let h = Still-cons ps qs (sends m.chat_id text markup) t (refl, refl) k in
        Outcome-of (λ _. Held) Failed (w.sent t m.chat_id text markup)
          (sends m.chat_id text markup ∷ t) (λ _ _. h) (λ _ _. h);
  }

  settled_plainly :
      (w : World) (sv : Services) (m : Message) (what : Text) (p : PurchaseResult)
      → Ensures Held (settled w sv m what p) (λ _. Held) Failed
  unfolding settled remember
  settled_plainly w sv m what p =
      Ensures-bind (λ _. Held) _ _
        (record {
          at = λ t k.
              Outcome-if (λ _. Held) Failed sv.has_conversations _ _
                (λ _. Still-cons ps qs _ t (refl, refl) k) (λ _. k);
        })
        (λ _. Ensures-pure _ (λ t k. k))

  answered_plainly :
      (w : World) (sv : Services) (m : Message) (p : Result PurchaseResult)
      → Ensures Held (answered w sv m p) (λ _. Held) Failed
  answered_plainly w sv m (err e) = Ensures-pure _ (λ t k. k)
  answered_plainly w sv m (ok p) =
      Ensures-if (not p.fulfilled) _ _ (λ _. Ensures-pure _ (λ t k. k))
        (λ _. settled_plainly w sv m _ p)

  acknowledge_plainly :
      (w : World) (sv : Services) (m : Message)
      → Ensures Held (acknowledge w sv m) (λ _. Held) Failed
  unfolding acknowledge
  acknowledge_plainly w sv m =
      Ensures-if (is_empty m.callback_query_id) _ _ (λ _. Ensures-pure tt (λ t k. k))
        (λ _. plain_observe _ _ (refl, refl))

module _ (w : World) (sv : Services) (m : Message) (t : Trail) (token decision : Text) where
  abbrev Resolved : Trail → Type 0
  Resolved = Still (purchases t) ((m.from_id, token, decision) ∷ answers t)

  abbrev AnyResolved : Text → Trail → Type 0
  AnyResolved e = Resolved

  asked_once :
      Ensures
        (λ s. s ≡ t)
        (resolve_command w sv m decision (token ∷ []))
        (λ _. Resolved)
        AnyResolved
  unfolding observe purchases answers
  asked_once =
      Ensures-bind (λ _. Resolved) _ _
        (record {
          at = λ s e. (ap purchases e, ap (λ x. (m.from_id, token, decision) ∷ answers x) e);
        })
        (λ p. answered_plainly (purchases t) ((m.from_id, token, decision) ∷ answers t) w sv m p)

  resolves_by :
      (command : Text)
      → response_for_command w sv m command (token ∷ [])
        ≡ resolve_command w sv m decision (token ∷ [])
      → Resolved (run_command w sv m (command ∷ token ∷ []) t).1
  resolves_by command h =
      let ps = purchases t in
      let qs = (m.from_id, token, decision) ∷ answers t in
      Outcome-same Resolved _ _ (
        (Ensures-bind _ _ _
            (subst (λ r. Ensures (λ s. s ≡ t) r (λ _. Resolved) AnyResolved) (sym h) asked_once)
            (λ response.
              Ensures-bind _ _ _ (acknowledge_plainly ps qs w sv m)
                (λ _. plain_reply ps qs w m response (reply_markup_for_response response)))).at
          t refl)

  handles :
      (command : Text)
      → trim_space m.text ≡ command ++ (32 ∷ token)
      → is_words (trim_space m.text) ≡ false
      → fields (trim_space m.text) ≡ command ∷ token ∷ []
      → response_for_command w sv m command (token ∷ [])
        ≡ resolve_command w sv m decision (token ∷ [])
      → Resolved (handle_message w sv m t).1
  unfolding handle_message
  handles command e n f h = rw (n, f) (resolves_by command h)

whole_command :
    (a : ℕ) (u : Text) (c : ℕ) (s : Text)
    → (33 ≤ a) × (a ≤ 126)
    → Visible (c ∷ s)
    → trim_space ((a ∷ u) ++ (c ∷ s)) ≡ (a ∷ u) ++ (c ∷ s)
whole_command a u c s h v =
    let (t, b, e, low, high) = last_byte c s v in
    trim_space_whole a b (u ++ (c ∷ s)) ((a ∷ u) ++ t) h (low, high)
      (ap (λ x. (a ∷ u) ++ x) e ∙ sym (append_assoc (a ∷ u) t (b ∷ [])))

approve_word : Visible (bytes "/approve")
approve_word = (
  omega arith,
  omega arith,
  (
    omega arith,
    omega arith,
    (
      omega arith,
      omega arith,
      (
        omega arith,
        omega arith,
        (
          omega arith,
          omega arith,
          (omega arith, omega arith, (omega arith, omega arith, (omega arith, omega arith, tt))),
        ),
      ),
    ),
  ),
)

reject_word : Visible (bytes "/reject")
reject_word = (
  omega arith,
  omega arith,
  (
    omega arith,
    omega arith,
    (
      omega arith,
      omega arith,
      (
        omega arith,
        omega arith,
        (omega arith, omega arith, (omega arith, omega arith, (omega arith, omega arith, tt))),
      ),
    ),
  ),
)

module _ (w : World) (sv : Services) (m : Message) (t : Trail) (c : ℕ) (s : Text)
    (v : Visible (c ∷ s)) where
  approve_resolves :
      m.text ≡ bytes "/approve " ++ (c ∷ s)
      → Resolved w sv m t (c ∷ s) (bytes "approve") (handle_message w sv m t).1
  unfolding response_for_command
  approve_resolves e =
      let whole : trim_space m.text ≡ bytes "/approve " ++ (c ∷ s) =
        ap trim_space e ∙ whole_command 47 (bytes "approve ") c s (omega arith, omega arith) v in
      handles w sv m t (c ∷ s) (bytes "approve") (bytes "/approve") whole
        (subst (λ x. is_words x ≡ false) (sym whole) refl)
        (ap fields whole ∙ fields_two 47 c (bytes "approve") s approve_word v) refl

  reject_resolves :
      m.text ≡ bytes "/reject " ++ (c ∷ s)
      → Resolved w sv m t (c ∷ s) (bytes "reject") (handle_message w sv m t).1
  unfolding response_for_command
  reject_resolves e =
      let whole : trim_space m.text ≡ bytes "/reject " ++ (c ∷ s) =
        ap trim_space e ∙ whole_command 47 (bytes "reject ") c s (omega arith, omega arith) v in
      handles w sv m t (c ∷ s) (bytes "reject") (bytes "/reject") whole
        (subst (λ x. is_words x ≡ false) (sym whole) refl)
        (ap fields whole ∙ fields_two 47 c (bytes "reject") s reject_word v) refl

-- The message that a tapped button sends back.
abbrev pub tap : Button → Message → Message
tap b m = record m { text = b.callback_data }

-- The message changes nothing but that it gives this answer, of its sender, to this token.
abbrev pub Answers : World → Services → Message → Trail → Text → Text → Type 0
Answers w sv m t token decision =
    (purchases (handle_message w sv m t).1 ≡ purchases t)
    × (answers (handle_message w sv m t).1 ≡ (m.from_id, token, decision) ∷ answers t)

approval_markup_lem :
    (c : ℕ) (s : Text)
    → Visible (c ∷ s)
    → approval_markup (c ∷ s)
      ≡ some (
          record { text = bytes "Approve"; callback_data = bytes "/approve " ++ (c ∷ s) }
          ∷ record { text = bytes "Decline"; callback_data = bytes "/reject " ++ (c ∷ s) }
          ∷ [])
unfolding approval_markup
approval_markup_lem c s v =
    let (t, b, e, low, high) = last_byte c s v in
    rw (trim_space_whole c b s t (v.0, v.1) (low, high) e) refl

asks_again :
    (w : World) (sv : Services) (m : Message) (t : Trail) (p : PendingApproval)
    → sv.has_shopping ≡ true
    → sv.has_approvals ≡ true
    → w.pending t m.from_id ≡ ok (some p)
    → (text : Text) × ((conversational_buy w sv m t).1
        ≡ sends m.chat_id text (approval_markup p.token)
          ∷ gets p.product_id
          ∷ reads_pending m.from_id
          ∷ t)
unfolding conversational_buy observe ◌>>=◌ ask_again open_name reply call
asks_again w sv m t p a b h = rw (a, b, h) (_, refl)

named_token-Answers :
    (w w' : World) (sv sv' : Services) (m m' : Message) (t t' : Trail) (p : PendingApproval)
    (token : Text)
    → p.token ≡ token
    → sv.has_shopping ≡ true
    → sv.has_approvals ≡ true
    → w.pending t m.from_id ≡ ok (some p)
    → is_empty token ≡ false
    → Visible token
    → (text : Text) × (yes : Button) × (no : Button) × ((conversational_buy w sv m t).1
        ≡ sends m.chat_id text (some (yes ∷ no ∷ []))
          ∷ gets p.product_id
          ∷ reads_pending m.from_id
          ∷ t)
      × Answers w' sv' (tap yes m') t' token (bytes "approve")
      × Answers w' sv' (tap no m') t' token (bytes "reject")
named_token-Answers w w' sv sv' m m' t t' p [] e a b h n v = absurd (ground arith)
named_token-Answers w w' sv sv' m m' t t' p (c ∷ s) e a b h n v =
    let (text, again) = asks_again w sv m t p a b h in
    (
      text,
      record { text = bytes "Approve"; callback_data = bytes "/approve " ++ (c ∷ s) },
      record { text = bytes "Decline"; callback_data = bytes "/reject " ++ (c ∷ s) },
      again
          ∙ ap (λ k. sends m.chat_id text k ∷ gets p.product_id ∷ reads_pending m.from_id ∷ t)
              (ap approval_markup e ∙ approval_markup_lem c s v),
      approve_resolves w' sv' (record m' { text = bytes "/approve " ++ (c ∷ s) }) t' c s v refl,
      reject_resolves w' sv' (record m' { text = bytes "/reject " ++ (c ∷ s) }) t' c s v refl,
    )

-- In a process that shops and has approvals, with a decision open, whose token is visible ASCII,
-- words only look up its product and put two
-- buttons before the person. Whenever and by whomever the first is tapped, the message that it
-- sends back asks for no purchase and gives one answer, the sender's approval of that token; the
-- second gives the sender's rejection.
pub asked_again-Answers :
    (w w' : World) (sv sv' : Services) (m m' : Message) (t t' : Trail) (p : PendingApproval)
    → sv.has_shopping ≡ true
    → sv.has_approvals ≡ true
    → w.pending t m.from_id ≡ ok (some p)
    → is_empty p.token ≡ false
    → Visible p.token
    → (text : Text) × (yes : Button) × (no : Button) × ((conversational_buy w sv m t).1
        ≡ sends m.chat_id text (some (yes ∷ no ∷ []))
          ∷ gets p.product_id
          ∷ reads_pending m.from_id
          ∷ t)
      × Answers w' sv' (tap yes m') t' p.token (bytes "approve")
      × Answers w' sv' (tap no m') t' p.token (bytes "reject")
asked_again-Answers w w' sv sv' m m' t t' p a b h n v =
    named_token-Answers w w' sv sv' m m' t t' p p.token refl a b h n v
