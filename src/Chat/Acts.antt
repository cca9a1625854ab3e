-- ===== src/Chat/Acts.antt =====
-- Properties of `handleMessage` of cmd/user/main.go: what one message can do to the money.
use agent_mart.Prelude.{
  ◌≡◌, refl, ◌⊎◌, inl, inr, Bool, false, not, Option, none, some, List, [], ◌∷◌, if◌then◌else◌,
  Bool-cases,
}
use agent_mart.Prelude.Int.{ℤ}
use agent_mart.Prelude.Text.{Text, text_eq, is_empty, trim_space, bytes, fields}
use agent_mart.Prelude.Result.{Result, ok, err, Exec, pure, ◌>>=◌}
use agent_mart.Prelude.Ensures.{
  Ensures, Ensures-bind, Ensures-if, Ensures-from, Ensures-pure, Outcome-of,
}
use agent_mart.Buyer.Purchase.{PurchaseRequest, PurchaseResult}
use agent_mart.Shopping.World.{Resolution}
use agent_mart.Shopping.Route.{one_of}
use agent_mart.Chat.Words.{Markup}
use agent_mart.Chat.World.{
  Call, pays, resolves, sends, Message, Trail, World, Services, call, observe, reply,
}
use agent_mart.Chat.Talk.{remember, agent_key}
use agent_mart.Chat.Commands.{
  is_words, buy_key, buy_request, deal_key, deal_request, settled, bought, buy_counted, buy_command,
  link_command, negotiate_counted, negotiate_command, dealt, deal, accept_command, decline_command,
  answered, resolve_command, refund_command, diag_command, if_negotiating, response_for_command,
  acknowledge, run_command, handle_message,
}
use agent_mart.Chat.Money.{purchases, answers, Plain, Still, Done}
use agent_mart.Chat.Consent.{conversational_buy-Done, Outcome-same}

-- The keys that a message can buy under.
pub data KeyOf (m : Message) (key : Text) : Type 0 where
  of_words : key ≡ agent_key m → KeyOf m key
  of_command : key ≡ buy_key m → KeyOf m key
  of_deal : (r : Resolution) → key ≡ deal_key m r → KeyOf m key

module _ (ps : List PurchaseRequest) (qs : List (ℤ × Text × Text)) (m : Message) where
  -- One purchase more, for the sender and without a person's approval.
  abbrev pub OnePurchase : Trail → Type 0
  OnePurchase t =
      (p : PurchaseRequest) × (purchases t ≡ p ∷ ps)
      × (answers t ≡ qs)
      × (p.telegram_id ≡ m.from_id)
      × (p.human_approved ≡ false)
      × KeyOf m p.idempotency_key

  -- One answer more, of the sender.
  abbrev pub OneAnswer : Trail → Type 0
  OneAnswer t =
      (token : Text) × (decision : Text) × (purchases t ≡ ps)
      × (answers t ≡ (m.from_id, token, decision) ∷ qs)

  abbrev pub AtMostOne : Trail → Type 0
  AtMostOne t = Still ps qs t ⊎ (OnePurchase t ⊎ OneAnswer t)

  AtMostOne-cons : (c : Call) (t : Trail) → Plain c → AtMostOne t → AtMostOne (c ∷ t)
  unfolding purchases answers
  AtMostOne-cons c t h (inl s) = inl (rw h.0 s.0, rw h.1 s.1)
  AtMostOne-cons c t h (inr (inl (p, e, q, a, b, k))) = inr (inl (p, rw h.0 e, rw h.1 q, a, b, k))
  AtMostOne-cons c t h (inr (inr (token, d, e, q))) = inr (inr (token, d, rw h.0 e, rw h.1 q))

  abbrev Held : Trail → Type 0
  Held = Still ps qs

  abbrev Failed : Text → Trail → Type 0
  Failed e t = AtMostOne t

  plain :
      {A : Type 0} (c : Call) (f : Trail → A)
      → Plain c
      → Ensures AtMostOne (observe c f) (λ _. AtMostOne) Failed
  unfolding observe
  plain c f h = record { at = λ t k. AtMostOne-cons c t h k }

  -- A call that does not touch the money, and its answer in words.
  said :
      {A : Type 0} (c : Call) (f : Trail → A) (g : A → Text)
      → Plain c
      → Ensures Held (observe c f >>= λ a. pure (g a)) (λ _. AtMostOne) Failed
  said c f g h =
      Ensures-from (λ t k. inl k)
        (Ensures-bind _ _ _ (plain c f h) (λ a. Ensures-pure _ (λ t k. k)))

  silent : (s : Text) → Ensures Held (pure s) (λ _. AtMostOne) Failed
  silent s = Ensures-pure s (λ t k. inl k)

  after : (s : Text) → Ensures AtMostOne (pure s) (λ _. AtMostOne) Failed
  after s = Ensures-pure s (λ t k. k)

  pays_once :
      (p : PurchaseRequest) (f : Trail → Result PurchaseResult)
      → p.telegram_id ≡ m.from_id
      → p.human_approved ≡ false
      → KeyOf m p.idempotency_key
      → Ensures Held (observe (pays p) f) (λ _. AtMostOne) Failed
  unfolding observe purchases answers
  pays_once p f a b c = record { at = λ t k. inr (inl (p, rw k.0 refl, k.1, a, b, c)) }

  module _ (w : World) (sv : Services) where
    settled_once :
        (what : Text) (p : PurchaseResult)
        → Ensures AtMostOne (settled w sv m what p) (λ _. AtMostOne) Failed
    unfolding settled remember
    settled_once what p =
        Ensures-bind (λ _. AtMostOne) _ _
          (record {
            at = λ t k. elim (Bool-cases sv.has_conversations) [
              | inl b ↦ rw b (AtMostOne-cons _ t (refl, refl) k)
              | inr b ↦ rw b k
            ];
          })
          (λ _. after _)

    bought_once :
        (p : Result PurchaseResult) → Ensures AtMostOne (bought w sv m p) (λ _. AtMostOne) Failed
    bought_once (err e) = after _
    bought_once (ok p) = Ensures-if (not p.fulfilled) _ _ (λ _. after _) (λ _. settled_once _ p)

    dealt_once :
        (p : Result PurchaseResult) → Ensures AtMostOne (dealt w sv m p) (λ _. AtMostOne) Failed
    dealt_once (err e) = after _
    dealt_once (ok p) =
        Ensures-if p.approval_required _ _ (λ _. after _)
          (λ _. Ensures-if (not p.fulfilled) _ _ (λ _. after _) (λ _. settled_once _ p))

    answered_once :
        (p : Result PurchaseResult) → Ensures AtMostOne (answered w sv m p) (λ _. AtMostOne) Failed
    answered_once (err e) = after _
    answered_once (ok p) = Ensures-if (not p.fulfilled) _ _ (λ _. after _) (λ _. settled_once _ p)

    buy_counted_once :
        (product : Text) (n : Option ℤ)
        → Ensures Held (buy_counted w sv m product n) (λ _. AtMostOne) Failed
    buy_counted_once product none = silent _
    buy_counted_once product (some n) =
        Ensures-bind _ _ _ (pays_once (buy_request m product n) _ refl refl (of_command refl))
          (λ p. bought_once p)

    deal_once : (r : Result Resolution) → Ensures Held (deal w sv m r) (λ _. AtMostOne) Failed
    deal_once (err e) = silent _
    deal_once (ok r) =
        Ensures-bind _ _ _ (pays_once (deal_request m r) _ refl refl (of_deal r refl))
          (λ p. dealt_once p)

    resolves_once :
        (decision token : Text) (f : Trail → Result PurchaseResult)
        → Ensures Held (observe (resolves m.from_id token decision) f) (λ _. AtMostOne) Failed
    unfolding observe purchases answers
    resolves_once decision token f = record {
      at = λ t k. inr (inr (token, decision, k.0, rw k.1 refl));
    }

    either :
        {x y : Exec Trail Text} (b : Bool)
        → Ensures Held x (λ _. AtMostOne) Failed
        → Ensures Held y (λ _. AtMostOne) Failed
        → Ensures Held (if b then x else y) (λ _. AtMostOne) Failed
    either b h k = Ensures-if b _ _ (λ _. h) (λ _. k)

    buy_command_once :
        (rest : List Text) → Ensures Held (buy_command w sv m rest) (λ _. AtMostOne) Failed
    buy_command_once [] = silent _
    buy_command_once (a ∷ []) = silent _
    buy_command_once (a ∷ b ∷ []) = buy_counted_once a _
    buy_command_once (a ∷ b ∷ c ∷ s) = silent _

    link_command_once :
        (rest : List Text) → Ensures Held (link_command w sv m rest) (λ _. AtMostOne) Failed
    link_command_once [] = silent _
    link_command_once (a ∷ []) = said _ _ _ (refl, refl)
    link_command_once (a ∷ b ∷ s) = silent _

    negotiate_counted_once :
        (product : Text) (n : Option ℤ)
        → Ensures Held (negotiate_counted w sv m product n) (λ _. AtMostOne) Failed
    negotiate_counted_once product none = silent _
    negotiate_counted_once product (some n) = said _ _ _ (refl, refl)

    negotiate_command_once :
        (rest : List Text) → Ensures Held (negotiate_command w sv m rest) (λ _. AtMostOne) Failed
    negotiate_command_once [] = silent _
    negotiate_command_once (a ∷ []) = silent _
    negotiate_command_once (a ∷ b ∷ []) = negotiate_counted_once a _
    negotiate_command_once (a ∷ b ∷ c ∷ s) = silent _

    accept_command_once :
        (rest : List Text) → Ensures Held (accept_command w sv m rest) (λ _. AtMostOne) Failed
    unfolding observe purchases answers
    accept_command_once [] = silent _
    accept_command_once (a ∷ s) =
        Ensures-bind (λ _. Held) _ _ (record { at = λ t k. k }) (λ r. deal_once r)

    decline_command_once :
        (rest : List Text) → Ensures Held (decline_command w sv m rest) (λ _. AtMostOne) Failed
    decline_command_once [] = silent _
    decline_command_once (a ∷ []) = silent _
    decline_command_once (a ∷ b ∷ s) = said _ _ _ (refl, refl)

    resolve_command_once :
        (decision : Text) (rest : List Text)
        → Ensures Held (resolve_command w sv m decision rest) (λ _. AtMostOne) Failed
    resolve_command_once decision [] = silent _
    resolve_command_once decision (a ∷ []) =
        Ensures-bind _ _ _ (resolves_once decision a _) (λ p. answered_once p)
    resolve_command_once decision (a ∷ b ∷ s) = silent _

    refund_command_once :
        (rest : List Text) → Ensures Held (refund_command w sv m rest) (λ _. AtMostOne) Failed
    refund_command_once [] = silent _
    refund_command_once (a ∷ []) = silent _
    refund_command_once (a ∷ b ∷ s) = said _ _ _ (refl, refl)

    diag_command_once : Ensures Held (diag_command w sv m) (λ _. AtMostOne) Failed
    unfolding observe purchases answers
    diag_command_once =
        Ensures-if sv.has_health _ _ (λ _. record { at = λ t k. inl k }) (λ _. silent _)

    if_negotiating_once :
        (run : Exec Trail Text)
        → Ensures Held run (λ _. AtMostOne) Failed
        → Ensures Held (if_negotiating w sv m run) (λ _. AtMostOne) Failed
    if_negotiating_once run h = Ensures-if sv.has_negotiations _ _ (λ _. h) (λ _. silent _)

    response_once :
        (command : Text) (rest : List Text)
        → Ensures Held (response_for_command w sv m command rest) (λ _. AtMostOne) Failed
    unfolding response_for_command
    response_once command rest =
        either (one_of command (bytes "/start" ∷ bytes "/help" ∷ [])) (silent _) (
          either (text_eq command (bytes "/diag")) diag_command_once (
            either (text_eq command (bytes "/link")) (link_command_once rest) (
              either (text_eq command (bytes "/buy")) (buy_command_once rest) (
                either (text_eq command (bytes "/negotiate"))
                  (if_negotiating_once _ (negotiate_command_once rest))
                  (either (text_eq command (bytes "/accept"))
                    (if_negotiating_once _ (accept_command_once rest))
                    (either (text_eq command (bytes "/decline"))
                      (if_negotiating_once _ (decline_command_once rest))
                      (either (text_eq command (bytes "/approve")) (resolve_command_once _ rest) (
                        either (text_eq command (bytes "/reject")) (resolve_command_once _ rest) (
                          either (text_eq command (bytes "/refund")) (refund_command_once rest)
                            (silent _))))))))))

    acknowledge_once : Ensures AtMostOne (acknowledge w sv m) (λ _. AtMostOne) Failed
    unfolding acknowledge
    acknowledge_once =
        Ensures-if (is_empty m.callback_query_id) _ _ (λ _. Ensures-pure tt (λ t k. k))
          (λ _. plain _ _ (refl, refl))

    reply_once :
        (text : Text) (markup : Markup)
        → Ensures AtMostOne (reply w m text markup) (λ _. AtMostOne) Failed
    unfolding reply call
    reply_once text markup = record {
      at = λ t k.
          let h = AtMostOne-cons _ t (refl, refl) k in
          Outcome-of (λ _. AtMostOne) Failed (w.sent t m.chat_id text markup)
            (sends m.chat_id text markup ∷ t) (λ _ _. h) (λ _ _. h);
    }

    run_command_once :
        (words : List Text) → Ensures Held (run_command w sv m words) (λ _. AtMostOne) Failed
    run_command_once [] = Ensures-pure tt (λ t k. inl k)
    run_command_once (command ∷ rest) =
        Ensures-bind _ _ _ (response_once command rest)
          (λ response. Ensures-bind _ _ _ acknowledge_once (λ _. reply_once _ _))

-- What words may do is within the bound.
Done-AtMostOne :
    (ps : List PurchaseRequest) (qs : List (ℤ × Text × Text)) (sv : Services) (m : Message)
    (w : World) (t : Trail)
    → Done ps qs sv m w t
    → AtMostOne ps qs m t
Done-AtMostOne ps qs sv m w t (inl s) = inl s
Done-AtMostOne ps qs sv m w t (inr (p, r, ran, found, e, q, a, b, k)) =
    inr (inl (_, e, q, refl, refl, of_words refl))

-- One message asks for at most one purchase or gives at most one answer to an approval, never both.
-- The purchase is for the sender, not marked as approved by a person, and under a key made of the
-- message's own ids or of a negotiated session; the answer is the sender's.
pub handle_message-AtMostOne :
    (w : World) (sv : Services) (m : Message) (t : Trail)
    → AtMostOne (purchases t) (answers t) m (handle_message w sv m t).1
unfolding handle_message
handle_message-AtMostOne w sv m t = elim (Bool-cases (is_words (trim_space m.text))) [
  | inl b ↦ rw b (Done-AtMostOne _ _ sv m w _ (conversational_buy-Done w sv m t))
  | inr b ↦ rw b (
      Outcome-same (AtMostOne (purchases t) (answers t) m) _ _ (
        (run_command_once (purchases t) (answers t) m w sv (fields (trim_space m.text))).at t
          (refl, refl)))
]
