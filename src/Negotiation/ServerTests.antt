-- ===== src/Negotiation/ServerTests.antt =====
-- A counter at the server, and its theorem there.
use agent_mart.Prelude.{◌≡◌, refl, false, none, some, arith, []}
use agent_mart.Prelude.Int.{pos}
use agent_mart.Prelude.Int64.{◌+64◌, ◌-64◌}
use agent_mart.Prelude.Float.{scale, scale_ℕ, round53}
use agent_mart.Prelude.Text.{bytes, trim_space}
use agent_mart.Prelude.Result.{ok, err}
use agent_mart.Negotiation.Session.{Session, countered, renegotiate, validate_counter, recountered}
use agent_mart.Negotiation.Orchestrator.{decide, answer, minimum, midway}
use agent_mart.Negotiation.Server.{Request, Server, no_product, clamp_counter, max_int64_of}
use agent_mart.Negotiation.Handlers.{next_session}
use agent_mart.Prelude.{Option}
use agent_mart.Prelude.Ensures.{Outcome}
use agent_mart.Negotiation.Server.{SessionStore}
use agent_mart.Negotiation.Handlers.{counter, resolve}
use agent_mart.Negotiation.Writes.{Written, Unwritten, handlers_write_once}
use agent_mart.Negotiation.Rails.{Lands, next_session-Within}

-- A negotiator that asks for more than the standing offer.
abbrev greedy : Server
greedy = record {
  get_product = λ id. err (bytes "none");
  get_priced = none;
  entitlement = none;
  conditions = none;
  negotiator = some (λ input. ok (record { amount_paise = pos 999999; reason = bytes "rare" }));
  session_token = ok (bytes "s1");
  now = pos 5;
}

abbrev request : Request
request = record {
  is_acceptance = false;
  session_id = bytes "s1";
  product_id = [];
  quantity = pos 0;
  reason = [];
  counter_amount_paise = pos 101000;
  account_id = [];
}

abbrev standing : Session
standing = record {
  proposal = record {
    product_id = bytes "trimmer";
    quantity = pos 1;
    base_amount_paise = pos 100000;
  };
  counter = record { final_amount_paise = pos 106900; reason = bytes "cover"; quoted_at = pos 1 };
  status = countered;
  round = pos 1;
  transcript = [];
  buyer_account_id = [];
  floor_paise = pos 100000;
  bundled_paise = pos 0;
}

-- It is held at the standing offer.
abbrev held : Session
held =
    recountered standing
      (record { final_amount_paise = pos 106900; reason = bytes "rare"; quoted_at = pos 0 }) (pos 5)

greedy_is_held :
    next_session greedy request no_product standing (decide standing (pos 101000) (pos 100000))
    ≡ ok held
unfolding next_session decide answer minimum midway scale ◌+64◌ ◌-64◌ scale_ℕ round53 renegotiate
    validate_counter clamp_counter max_int64_of trim_space
greedy_is_held = refl

next_session-Within_example : Lands 106900 101000 100000 held
next_session-Within_example =
    next_session-Within greedy request no_product standing held 106900 101000 100000 refl refl refl
      (omega arith) (omega arith) (omega arith) greedy_is_held

-- A store of one session.
abbrev slot : SessionStore (Option Session)
slot = record { get = λ id t. (ok t, t); put = λ id kept t. (ok tt, some kept) }

handlers_write_once_example :
    Outcome
      (Written slot (bytes "s1") (some standing))
      (Unwritten slot (bytes "s1") (some standing))
      (counter greedy slot request (some standing)).0
      (counter greedy slot request (some standing)).1
    × Outcome
        (Written slot (bytes "s1") (some standing))
        (Unwritten slot (bytes "s1") (some standing))
        (resolve greedy slot request (some standing)).0
        (resolve greedy slot request (some standing)).1
handlers_write_once_example = handlers_write_once greedy slot request (some standing)
