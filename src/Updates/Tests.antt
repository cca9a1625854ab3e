-- ===== src/Updates/Tests.antt =====
-- Runs of one person's lane and of the intake, and the theorems at them.
use agent_mart.Prelude.{ℕ, ◌<◌, ◌≡◌, refl, true, false, none, some, [], ◌∷◌, ◌++◌, arith}
use agent_mart.Prelude.Int.{ℤ, pos}
use agent_mart.Prelude.Int64.{◌+64◌}
use agent_mart.Prelude.Text.{bytes, trim_space}
use agent_mart.Prelude.Decimal.{decimal}
use agent_mart.Prelude.Result.{ok}
use agent_mart.Chat.World.{Message}
use agent_mart.Updates.Lane.{
  Lane, Worker, selecting, handling, idle, dispatch, work, arrives, works, Reaches, begins, goes_on,
}
use agent_mart.Updates.Order.{Orderly, Reaches-Orderly}
use agent_mart.Updates.Drain.{remaining, drain, Drained, work_shortens, drain_handles_all}
use agent_mart.Updates.Intake.{
  Update, Router, Store, message_from, process_updates, route, routes, save_offset, load_offset,
}
use agent_mart.Updates.Resume.{Identified, route_again, process_updates_again}
use agent_mart.Updates.Offset.{load_offset-save_offset}

-- Two messages of a person, the first of which is in the handler.
abbrev first : Lane ℕ
first = (dispatch 1 idle).1

abbrev picked : Lane ℕ
picked = work [] (record { queue = 1 ∷ []; phase = selecting }) [] first

abbrev second : Lane ℕ
second = (dispatch 2 picked).1

abbrev in_handler : Worker ℕ
in_handler = record { queue = 2 ∷ []; phase = handling 1 }

second_is :
    second
    ≡ record { registered = true; workers = in_handler ∷ []; accepted = 1 ∷ 2 ∷ []; handled = [] }
unfolding dispatch work
second_is = refl

reached : Reaches second
unfolding dispatch work
reached =
    goes_on picked second
      (goes_on first picked (goes_on idle first begins (arrives 1)) (works [] _ [] refl))
      (arrives 2)

Reaches-Orderly_example : Orderly second
Reaches-Orderly_example = Reaches-Orderly second reached

one_worker : second.workers ≡ [] ++ (in_handler ∷ [])
unfolding dispatch work
one_worker = refl

work_shortens_example : remaining (work [] in_handler [] second) < remaining second
work_shortens_example = work_shortens second [] in_handler [] reached one_worker

drain_handles_all_example : Drained second (drain (remaining second) second)
drain_handles_all_example = drain_handles_all second reached

drained_in_order : (drain (remaining second) second).handled ≡ 1 ∷ 2 ∷ []
unfolding remaining drain dispatch work
drained_in_order = refl

-- The ninth message that waits is refused.
abbrev full : Lane ℕ
full = record {
  registered = true;
  workers = record { queue = 1 ∷ 2 ∷ 3 ∷ 4 ∷ 5 ∷ 6 ∷ 7 ∷ 8 ∷ []; phase = selecting } ∷ [];
  accepted = 1 ∷ 2 ∷ 3 ∷ 4 ∷ 5 ∷ 6 ∷ 7 ∷ 8 ∷ [];
  handled = [];
}

full_refuses : dispatch 9 full ≡ (false, full)
unfolding dispatch
full_refuses = refl

abbrev typed : Message
typed = record {
  text = bytes "hi";
  chat_id = pos 1;
  from_id = pos 5;
  message_id = pos 2;
  callback_query_id = [];
}

abbrev update : ℤ → Update
update n = record { update_id = n; message = some typed; callback_query = none }

abbrev tap : Update
tap = record (update (pos 8)) {
  callback_query = some (record {
    id = bytes "q";
    from_id = pos 6;
    message = some typed;
    callback_data = bytes "/approve t";
  });
}

tap_is_command :
    message_from tap
    ≡ some
        (record typed { from_id = pos 6; text = bytes "/approve t"; callback_query_id = bytes "q" })
unfolding message_from trim_space
tap_is_command = refl

abbrev router : Router
router = record { offset = pos 3; dispatched = [] }

in_int : Identified (update (pos 7)) × Identified (update (pos 8))
in_int = (((omega arith, omega arith), omega arith), ((omega arith, omega arith), omega arith))

route_again_example :
    route (update (pos 7)) (routes (update (pos 8) ∷ []) (route (update (pos 7)) router))
    ≡ routes (update (pos 8) ∷ []) (route (update (pos 7)) router)
route_again_example =
    route_again (update (pos 7)) (update (pos 8) ∷ []) router in_int.0 (in_int.1, tt)

abbrev store : Store
store = λ t n. ok tt

saves_all :
    (process_updates store (update (pos 7) ∷ update (pos 8) ∷ []) (pos 3) []).0 ≡ (pos 9, none)
unfolding process_updates ◌+64◌ message_from trim_space
saves_all = refl

no_error : (process_updates store (update (pos 7) ∷ update (pos 8) ∷ []) (pos 3) []).0.1 ≡ none
unfolding process_updates ◌+64◌ message_from trim_space
no_error = refl

process_updates_again_example :
    process_updates store
      (update (pos 7) ∷ update (pos 8) ∷ [])
      (process_updates store (update (pos 7) ∷ update (pos 8) ∷ []) (pos 3) []).0.0
      []
    ≡ (((process_updates store (update (pos 7) ∷ update (pos 8) ∷ []) (pos 3) []).0.0, none), [])
process_updates_again_example =
    process_updates_again store store (update (pos 7) ∷ update (pos 8) ∷ []) (pos 3) [] []
      (in_int.0, (in_int.1, tt)) no_error

saved_seven : save_offset (pos 731) ≡ ok (bytes "731")
unfolding save_offset decimal
saved_seven = refl

load_offset-save_offset_example : load_offset (ok (some (bytes "731"))) ≡ ok (pos 731)
load_offset-save_offset_example =
    load_offset-save_offset 731 (bytes "731") (omega arith) saved_seven
