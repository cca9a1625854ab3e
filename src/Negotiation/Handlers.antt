-- ===== src/Negotiation/Handlers.antt =====
-- internal/negotiation/http.go: `propose`, `counter` and `resolve`. A reply is read off the
-- session; each handler of the source sends those of its fields that it needs.
use agent_mart.Prelude.{Bool, true, false, not, ◌++◌, Option, none, some, if◌then◌else◌}
use agent_mart.Prelude.Int.{ℤ, pos, leb_ℤ}
use agent_mart.Prelude.Int64.{◌+64◌, ◌-64◌, ◌*64◌}
use agent_mart.Prelude.Text.{Text, bytes, trim_space}
use agent_mart.Prelude.Decimal.{rupees}
use agent_mart.Prelude.Result.{Result, ok, err, Exec, pure, lift, refuse_if, ◌>>=◌, ◌>>◌}
use agent_mart.Gate.Defs.{Time}
use agent_mart.Catalog.{Product}
use agent_mart.Wallet.{is_blank}
use agent_mart.Negotiation.Offer.{Offer, Priced, invalid_proposal, opening_offer, entitled_floor}
use agent_mart.Negotiation.Session.{
  Session, Status, countered, max_rounds, new, counter_offer, renegotiate, accept, decline,
  record_buyer, uplift_paise,
}
use agent_mart.Negotiation.Orchestrator.{Decision, decide}
use agent_mart.Negotiation.Server.{
  Request, CounterInput, CounterOutput, Server, SessionStore, entitlement_for, conditions_for,
  product_not_found, priced_product, no_product, partner_of, floor_of, clamp_counter, max_int64_of,
  buyer_account_for,
}

pub record Reply : Type 0 where
  pub session_id : Text
  pub status : Status
  pub final_amount_paise : ℤ
  pub uplift_paise : ℤ
  pub rounds_left : ℤ
  pub quoted_at : Time

abbrev pub reply_of : Text → Session → Reply
reply_of id s = record {
  session_id = id;
  status = s.status;
  final_amount_paise = s.counter.final_amount_paise;
  uplift_paise = uplift_paise s;
  rounds_left = max_rounds -64 s.round;
  quoted_at = s.counter.quoted_at;
}

abbrev priced_from : Product × ℤ → Priced
priced_from (product, cost) = record { product = product; cost_paise = cost }

abbrev if_priced : Result (Product × ℤ) → Option Priced
if_priced (ok p) = some (priced_from p)
if_priced (err _) = none

-- The partner as `propose` prices it: nothing without a reader of costs.
abbrev priced_partner : Option (Text → Result (Product × ℤ)) → Option Product → Option Priced
priced_partner none partner = none
priced_partner (some reader) none = none
priced_partner (some reader) (some partner) = if_priced (reader partner.id)

abbrev found_product : Result Product → Result Product
found_product (ok p) = ok p
found_product (err _) = err product_not_found

abbrev opened : Request → Offer → Session → Session
opened r offer s = record s {
  bundled_paise = offer.bundled_paise;
  buyer_account_id = trim_space r.account_id;
}

-- `propose`
unfoldable pub propose : {S : Type 0} → Server → SessionStore S → Request → Exec S Reply
propose s store r = do
  product ← lift (found_product (s.get_product r.product_id))
  refuse_if (leb_ℤ r.quantity (pos 0)) invalid_proposal
  main ← lift (priced_product s r.product_id product)
  let partner =
      priced_partner s.get_priced (partner_of s product.combo_with product.combo_discount_pct)
  offer ← lift (opening_offer (priced_from main) partner r.quantity (conditions_for s main.0.id))
  session ← lift (
      new (record {
        product_id = product.id;
        quantity = r.quantity;
        base_amount_paise = product.price_paise *64 r.quantity;
      }))
  offered ← lift (
      counter_offer session
        (record {
          final_amount_paise = offer.final_paise;
          reason = offer.reason;
          quoted_at = pos 0;
        })
        s.now)
  let kept = opened r offer offered
  id ← lift s.session_token
  store.put id kept
  pure (reply_of id kept)

abbrev pub session_not_found : Text
session_not_found = bytes "session not found"

abbrev found_session : Option Session → Result Session
found_session none = err session_not_found
found_session (some s) = ok s

abbrev pub is_countered : Status → Bool
is_countered countered = true
is_countered _ = false

-- The negotiator's answer inside the rails; without one, or where it fails, the decision's.
abbrev pub railed : Session → ℤ → ℤ → Decision → Result CounterOutput → ℤ × Text
railed s buyer_paise floor_paise d (err _) = (d.final_paise, d.reason)
railed s buyer_paise floor_paise d (ok out) =
    if leb_ℤ out.amount_paise (pos 0) then (d.final_paise, d.reason) else (
      clamp_counter out.amount_paise (max_int64_of floor_paise buyer_paise)
          s.counter.final_amount_paise,
      if is_blank out.reason then d.reason else out.reason,
    )

abbrev pub chosen_by :
    Option (CounterInput → Result CounterOutput) → CounterInput → Decision → ℤ × Text
chosen_by none input d = (d.final_paise, d.reason)
chosen_by (some negotiator) input d =
    railed input.session input.buyer_paise input.floor_paise d (negotiator input)

abbrev pub counter_input : Server → Request → Product → Session → Decision → CounterInput
counter_input s r product session d = record {
  session = session;
  product = product;
  partner = partner_of s product.combo_with product.combo_discount_pct;
  floor_paise = session.floor_paise;
  ask_paise = session.counter.final_amount_paise;
  buyer_paise = r.counter_amount_paise;
  min_acceptable_paise = d.final_paise;
  buyer_account_id = buyer_account_for session r;
}

abbrev pub settled_at : Session → Decision → Session
settled_at s d = record s {
  counter = record s.counter { final_amount_paise = d.final_paise; reason = d.reason };
}

-- The session that the decision leads to.
unfoldable pub next_session : Server → Request → Product → Session → Decision → Result Session
next_session s r product session d =
    let (amount, reason) = chosen_by s.negotiator (counter_input s r product session d) d in
    if d.is_accepted
    then accept (settled_at session d) s.now
    else if d.is_exhausted
    then decline session d.reason s.now
    else renegotiate session
        (record { final_amount_paise = amount; reason = reason; quoted_at = pos 0 }) s.now

-- The session with its floor written and the buyer's counter on the transcript.
abbrev pub countered_by : Server → Request → ℤ → Session → Session
countered_by s r floor session =
    record_buyer (bytes "Counters INR " ++ rupees r.counter_amount_paise) s.now
      (record session { floor_paise = floor })

-- `counter`
unfoldable pub counter : {S : Type 0} → Server → SessionStore S → Request → Exec S Reply
counter s store r = do
  found ← store.get r.session_id
  session ← lift (found_session found)
  refuse_if (not (is_countered session.status)) (bytes "counter requires countered state")
  refuse_if (leb_ℤ r.counter_amount_paise (pos 0)) invalid_proposal
  priced ← lift (priced_product s session.proposal.product_id no_product)
  cost ← lift (
      floor_of s session.proposal.product_id session.proposal.quantity priced.0.combo_with
        priced.0.combo_discount_pct)
  let floor =
      entitled_floor cost (session.proposal.base_amount_paise +64 session.bundled_paise)
        (entitlement_for s session.buyer_account_id)
  let heard = countered_by s r floor session
  kept ← lift (next_session s r priced.0 heard (decide heard r.counter_amount_paise floor))
  store.put r.session_id kept
  pure (reply_of r.session_id kept)

-- `resolve`
unfoldable pub resolve : {S : Type 0} → Server → SessionStore S → Request → Exec S Reply
resolve s store r = do
  found ← store.get r.session_id
  session ← lift (found_session found)
  kept ← lift (if r.is_acceptance then accept session s.now else decline session r.reason s.now)
  store.put r.session_id kept
  pure (reply_of r.session_id kept)
