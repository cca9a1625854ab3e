-- ===== src/Negotiation/Session.antt =====
-- internal/negotiation/negotiation.go: the session, one function for each method. A method that
-- mutates `*Session` returns the new session, or the error before which it changes nothing; the
-- clock is an argument.
use agent_mart.Prelude.{List, [], ◌∷◌, ◌++◌, ◌||◌, if◌then◌else◌}
use agent_mart.Prelude.Int.{ℤ, pos, ltb_ℤ, leb_ℤ}
use agent_mart.Prelude.Int64.{◌+64◌, ◌-64◌}
use agent_mart.Prelude.Text.{Text, bytes, is_empty, trim_space}
use agent_mart.Prelude.Decimal.{rupees}
use agent_mart.Prelude.Result.{Result, ok, err}
use agent_mart.Gate.Defs.{Time}

pub data Status : Type 0 where
  proposed countered accepted declined : Status

pub record Proposal : Type 0 where
  pub product_id : Text
  pub quantity : ℤ
  pub base_amount_paise : ℤ

pub record Counter : Type 0 where
  pub final_amount_paise : ℤ
  pub reason : Text
  pub quoted_at : Time

abbrev pub max_rounds : ℤ
max_rounds = pos 3

pub data Actor : Type 0 where
  buyer merchant : Actor

pub record Turn : Type 0 where
  pub actor : Actor
  pub message : Text
  pub at : Time

pub record Session : Type 0 where
  pub proposal : Proposal
  pub counter : Counter
  pub status : Status
  pub round : ℤ
  pub transcript : List Turn
  pub buyer_account_id : Text
  pub floor_paise : ℤ
  pub bundled_paise : ℤ

-- `New`
unfoldable pub new : Proposal → Result Session
new p =
    if is_empty (trim_space p.product_id)
      || (leb_ℤ p.quantity (pos 0) || leb_ℤ p.base_amount_paise (pos 0))
    then err (bytes "product, quantity, and base amount are required")
    else ok (record {
      proposal = p;
      counter = record { final_amount_paise = pos 0; reason = []; quoted_at = pos 0 };
      status = proposed;
      round = pos 0;
      transcript = [];
      buyer_account_id = [];
      floor_paise = pos 0;
      bundled_paise = pos 0;
    })

abbrev pub append_turn : Actor → Text → Time → Session → Session
append_turn actor message now s = record s {
  transcript = s.transcript ++ (record { actor = actor; message = message; at = now } ∷ []);
}

-- The floor that a recorded amount may not cross: the list total where none is written.
abbrev pub session_floor : Session → ℤ
session_floor s =
    if leb_ℤ s.floor_paise (pos 0) then s.proposal.base_amount_paise else s.floor_paise

-- `validateCounter`
unfoldable pub validate_counter : Session → Counter → Result (Unit {0})
validate_counter s c =
    if ltb_ℤ c.final_amount_paise (session_floor s)
    then err (bytes "counter amount cannot be below the merchant floor")
    else if is_empty (trim_space c.reason)
    then err (bytes "counter reason is required")
    else ok tt

abbrev pub stamped : Counter → Time → Counter
stamped c now = record c { quoted_at = now }

abbrev pub after_check : Result (Unit {0}) → Session → Result Session
after_check (ok _) s = ok s
after_check (err e) s = err e

abbrev pub offered : Session → Counter → Time → Session
offered s c now =
    append_turn merchant
      (bytes "Offer INR " ++ (rupees c.final_amount_paise ++ (bytes ": " ++ c.reason))) now
      (record s { counter = stamped c now; status = countered; round = pos 1 })

abbrev offer_in : Status → Session → Counter → Time → Result Session
offer_in proposed s c now = after_check (validate_counter s c) (offered s c now)
offer_in _ s c now = err (bytes "counter offer requires proposed state")

-- `CounterOffer`
unfoldable pub counter_offer : Session → Counter → Time → Result Session
counter_offer s c now = offer_in s.status s c now

abbrev pub recountered : Session → Counter → Time → Session
recountered s c now =
    append_turn merchant
      (bytes "Counter INR " ++ (rupees c.final_amount_paise ++ (bytes ": " ++ c.reason))) now
      (record s { counter = stamped c now; round = s.round +64 pos 1 })

abbrev renegotiate_in : Status → Session → Counter → Time → Result Session
renegotiate_in countered s c now =
    if leb_ℤ max_rounds s.round
    then err (bytes "negotiation round limit reached")
    else after_check (validate_counter s c) (recountered s c now)
renegotiate_in _ s c now = err (bytes "renegotiation requires countered state")

-- `Renegotiate`
unfoldable pub renegotiate : Session → Counter → Time → Result Session
renegotiate s c now = renegotiate_in s.status s c now

-- `RecordBuyer`
abbrev pub record_buyer : Text → Time → Session → Session
record_buyer message now s = append_turn buyer message now s

abbrev pub accepted_as : Session → Time → Session
accepted_as s now =
    append_turn buyer (bytes "Accepted INR " ++ rupees s.counter.final_amount_paise) now
      (record s { status = accepted })

abbrev accept_in : Status → Session → Time → Result Session
accept_in countered s now = ok (accepted_as s now)
accept_in _ s now = err (bytes "accept requires countered state")

-- `Accept`
unfoldable pub accept : Session → Time → Result Session
accept s now = accept_in s.status s now

abbrev pub declined_as : Session → Text → Time → Session
declined_as s reason now =
    append_turn buyer (bytes "Declined: " ++ reason) now (record s { status = declined })

abbrev decline_in : Status → Session → Text → Time → Result Session
decline_in countered s reason now =
    if is_empty (trim_space reason)
    then err (bytes "decline reason is required")
    else ok (declined_as s reason now)
decline_in _ s reason now = err (bytes "decline requires countered state")

-- `Decline`
unfoldable pub decline : Session → Text → Time → Result Session
decline s reason now = decline_in s.status s reason now

abbrev uplift_in : Status → Session → ℤ
uplift_in accepted s = s.counter.final_amount_paise -64 s.proposal.base_amount_paise
uplift_in _ s = pos 0

-- `UpliftPaise`
unfoldable pub uplift_paise : Session → ℤ
uplift_paise s = uplift_in s.status s
