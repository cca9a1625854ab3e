-- ===== src/Shopping/Results.antt =====
-- Properties of `ContinueWithProgress` of internal/shopgraph/builder.go as a whole.
use agent_mart.Prelude.{◌≡◌, ◌≢◌, ◌⊎◌, true, false, none, some}
use agent_mart.Prelude.Int.{pos}
use agent_mart.Prelude.Text.{Text, bytes, is_empty}
use agent_mart.Prelude.Result.{Result, ok, err}
use agent_mart.Shopping.World.{Wallet, Conversation, Settled, Offer, Shop}
use agent_mart.Shopping.Route.{buy}
use agent_mart.Shopping.State.{Run, Sentinel, offered}
use agent_mart.Shopping.Settle.{at_least_one}
use agent_mart.Shopping.Ends.{Backed}

abbrev counted : Settled → Settled
counted r = record r { quantity = at_least_one r.quantity }

module _ (shop : Shop) (wallet : Wallet) (prior : Conversation) where
  -- A result to buy, and the run that gave it.
  abbrev BuysBacked : Result Settled × Run → Type 0
  BuysBacked e =
      (r : Settled)
      → e.0 ≡ ok r
      → r.action ≡ buy
      → Backed shop wallet prior r e.1.priced e.1.settled

-- Nothing was bought: an answer that no caller buys from, with the reason.
abbrev pub NothingBought : Text → Run → Result Settled → Type 0
NothingBought why s x =
    (r : Settled) × (x ≡ ok r)
    × (r.action ≡ bytes "declined")
    × (is_empty r.product_id ≡ true)
    × (is_empty r.session_id ≡ true)
    × (r.final_paise ≡ pos 0)
    × (r.needs_approval ≡ false)
    × (r.accepted ≡ false)
    × (r.rationale ≡ why)
    × (r.shown ≡ s.shown)

-- The offer goes to the person as it stands.
abbrev pub HandedOver : Offer → Run → Result Settled → Type 0
HandedOver offer s x =
    (r : Settled) × (x ≡ ok r)
    × (r.action ≡ bytes "ask_human")
    × (r.needs_approval ≡ true)
    × (r.accepted ≡ false)
    × (r.product_id ≡ offer.product_id)
    × (r.session_id ≡ offer.session_id)
    × (r.quantity ≡ at_least_one offer.quantity)
    × (r.final_paise ≡ offer.final_paise)
    × (r.bundled_paise ≡ offer.bundled_paise)
    × (r.quoted_at ≡ offer.quoted_at)
    × (r.shown ≡ s.shown)

-- What becomes of a run that met an error and left this state.
abbrev pub Reports : Text → Run → Result Settled → Type 0
Reports why s x =
    ((which : Sentinel) × (s.refusal ≡ some which) × NothingBought why s x)
    ⊎ ((s.refusal ≡ none) × (offer : Offer) × (s.last ≡ offered offer) × HandedOver offer s x)
    ⊎ ((s.refusal ≡ none) × ((offer : Offer) → s.last ≢ offered offer) × (w : Text) × (x ≡ err w))
