-- ===== src/Chat/Money.antt =====
-- Properties of `conversationalBuy` and `handleMessage` of cmd/user/main.go: the purchases and the
-- answers to approvals that a message asks for.
use agent_mart.Prelude.{
  ◌≡◌, refl, ◌⊎◌, inl, inr, true, false, ◌++◌, Option, none, some, List, [], ◌∷◌, Bool-cases,
}
use agent_mart.Prelude.Int.{ℤ, pos}
use agent_mart.Prelude.Text.{Text, bytes, text_eq}
use agent_mart.Prelude.Int64.{◌*64◌}
use agent_mart.Prelude.Decimal.{decimal}
use agent_mart.Prelude.Result.{Result, ok}
use agent_mart.Prelude.Ensures.{Ensures, Outcome-of}
use agent_mart.Catalog.{Product}
use agent_mart.Buyer.World.{Account}
use agent_mart.Buyer.Purchase.{PurchaseRequest}
use agent_mart.Shopping.World.{Conversation, Settled}
use agent_mart.Shopping.Route.{ask_human, declined}
use agent_mart.Chat.Words.{Markup}
use agent_mart.Chat.World.{
  Call, pays, resolves, records_run, linked, Message, Trail, World, Services, call, observe, reply,
}
use agent_mart.Chat.Talk.{remember, recall}

abbrev pub payment_of : Call → Option PurchaseRequest
payment_of (pays p) = some p
payment_of _ = none

abbrev pub answer_of : Call → Option (ℤ × Text × Text)
answer_of (resolves id token decision) = some (id, token, decision)
answer_of _ = none

abbrev pub prepend : {A : Type 0} → Option A → List A → List A
prepend none xs = xs
prepend (some x) xs = x ∷ xs

-- The purchases that were asked for, and the answers to approvals, the latest first.
unfoldable pub purchases : Trail → List PurchaseRequest
purchases [] = []
purchases (c ∷ t) = prepend (payment_of c) (purchases t)

unfoldable pub answers : Trail → List (ℤ × Text × Text)
answers [] = []
answers (c ∷ t) = prepend (answer_of c) (answers t)

-- The call was made.
abbrev pub Made : Call → Trail → Type 0
Made c [] = ⊥
Made c (d ∷ t) = (c ≡ d) ⊎ Made c t

-- Neither a purchase nor an answer.
abbrev pub Plain : Call → Type 0
Plain c = (payment_of c ≡ none) × (answer_of c ≡ none)

-- The purchase of a result that the shopping graph gave, at the catalog's price for its base.
abbrev pub placed : Message → Product → Settled → PurchaseRequest
placed m p r = record {
  telegram_id = m.from_id;
  product_id = r.product_id;
  quantity = r.quantity;
  base_amount_paise = p.price_paise *64 r.quantity;
  final_amount_paise = r.final_paise;
  bundled_paise = r.bundled_paise;
  idempotency_key =
      bytes "telegram:nl:" ++ (decimal m.from_id ++ (bytes ":" ++ decimal m.message_id));
  human_approved = false;
  price_observed_at = r.quoted_at;
}

module _ (ps : List PurchaseRequest) (qs : List (ℤ × Text × Text)) where
  abbrev pub Still : Trail → Type 0
  Still t = (purchases t ≡ ps) × (answers t ≡ qs)

  pub Still-cons : (c : Call) (t : Trail) → Plain c → Still t → Still (c ∷ t)
  unfolding purchases answers
  Still-cons c t h s = (rw h.0 s.0, rw h.1 s.1)

  module _ (sv : Services) (m : Message) (world : World) where
    -- The shopping graph gave this result, without an error, for the words of this message and the
    -- wallet of the account that this person is linked to.
    pub record Ran (r : Settled) : Type 0 where
      pub account : Account
      pub linked_to : (t : Trail) × (world.account t m.from_id ≡ linked account)
      pub prior : Conversation
      pub given :
          (t : Trail) × (world.shop t m.text prior (record {
            balance_paise = account.wallet_balance_paise;
            spend_limit_paise = account.spend_limit_paise;
            budget_paise = pos 0;
            account_id = account.id;
          })
            ≡ (r, none))

    -- With an audit store, the run was given to it.
    abbrev pub Recorded : Settled → Trail → Type 0
    Recorded r t = sv.has_audit ≡ true → Made (records_run m.from_id m.text r) t

    abbrev pub Ready : Settled → Trail → Type 0
    Ready r t = Still t × Recorded r t × Ran r

    -- One purchase more, of a run that was to buy, at the price that the catalog gave.
    abbrev pub Bought : Trail → Type 0
    Bought t =
        (p : Product) × (r : Settled) × Ran r
        × ((before : Trail) × (world.product before r.product_id ≡ ok p))
        × (purchases t ≡ placed m p r ∷ ps)
        × (answers t ≡ qs)
        × (text_eq r.action ask_human ≡ false)
        × (text_eq r.action declined ≡ false)
        × Recorded r t

    abbrev pub Done : Trail → Type 0
    Done t = Still t ⊎ Bought t

    Ready-cons : (r : Settled) (c : Call) (t : Trail) → Plain c → Ready r t → Ready r (c ∷ t)
    Ready-cons r c t h k = (Still-cons c t h k.0, (λ a. inr (k.1 a)), k.2)

    Done-cons : (c : Call) (t : Trail) → Plain c → Done t → Done (c ∷ t)
    unfolding purchases answers
    Done-cons c t h (inl s) = inl (Still-cons c t h s)
    Done-cons c t h (inr (p, r, ran, found, e, q, a, d, k)) =
        inr (p, r, ran, found, rw h.0 e, rw h.1 q, a, d, λ x. inr (k x))

    -- A condition that plain calls keep, and that is one way to be done.
    pub record Stable (P : Trail → Type 0) : Type 0 where
      pub keeps : (c : Call) (t : Trail) → Plain c → P t → P (c ∷ t)
      pub done : (t : Trail) → P t → Done t

    pub Still-Stable : Stable Still
    Still-Stable = record { keeps = Still-cons; done = λ t s. inl s }

    pub Ready-Stable : (r : Settled) → Stable (Ready r)
    Ready-Stable r = record { keeps = Ready-cons r; done = λ t s. inl s.0 }

    pub Done-Stable : Stable Done
    Done-Stable = record { keeps = Done-cons; done = λ t s. s }

    abbrev pub AnyDone : Text → Trail → Type 0
    AnyDone e t = Done t

    module _ (P : Trail → Type 0) (st : Stable P) where
      pub quiet_observe :
          {A : Type 0} (c : Call) (f : Trail → A)
          → Plain c
          → Ensures P (observe c f) (λ _. P) AnyDone
      unfolding observe
      quiet_observe c f h = record { at = λ t p. st.keeps c t h p }

      -- The same, for a rest that needs to know what was seen.
      pub quiet_observed :
          {A : Type 0} (c : Call) (f : Trail → A)
          → Plain c
          → Ensures P (observe c f) (λ a t. P t × ((b : Trail) × (f b ≡ a))) AnyDone
      unfolding observe
      quiet_observed c f h = record { at = λ t p. (st.keeps c t h p, (t, refl)) }

      pub quiet_call :
          {A : Type 0} (c : Call) (f : Trail → Result A)
          → Plain c
          → Ensures P (call c f) (λ _. P) AnyDone
      unfolding call
      quiet_call c f h = record {
        at = λ t p.
            let k = st.keeps c t h p in
            Outcome-of (λ _. P) AnyDone (f t) (c ∷ t) (λ a _. k) (λ e _. st.done (c ∷ t) k);
      }

      pub quiet_reply :
          (w : World) (text : Text) (markup : Markup)
          → Ensures P (reply w m text markup) (λ _. P) AnyDone
      unfolding reply
      quiet_reply w text markup = quiet_call _ _ (refl, refl)

      pub quiet_remember : (c : Conversation) → Ensures P (remember sv m.from_id c) (λ _. P) AnyDone
      unfolding remember
      quiet_remember c = record {
        at = λ t p. elim (Bool-cases sv.has_conversations) [
          | inl b ↦ rw b (st.keeps _ t (refl, refl) p)
          | inr b ↦ rw b p
        ];
      }

      pub quiet_recall : (w : World) → Ensures P (recall w sv m.from_id) (λ _. P) AnyDone
      unfolding recall
      quiet_recall w = record {
        at = λ t p. elim (Bool-cases sv.has_conversations) [
          | inl b ↦ rw b (st.keeps _ t (refl, refl) p)
          | inr b ↦ rw b p
        ];
      }
