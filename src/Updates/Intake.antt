-- ===== src/Updates/Intake.antt =====
-- cmd/user/update_processing.go, and the offset that cmd/user/offset_store.go keeps in Redis.
use agent_mart.Prelude.{ℕ, ◌+◌, ◌||◌, ◌++◌, Option, none, some, List, [], ◌∷◌, if◌then◌else◌, ◌==◌}
use agent_mart.Prelude.Int.{ℤ, pos, negsuc, ltb_ℤ, sub_ℕ}
use agent_mart.Prelude.Int64.{◌+64◌}
use agent_mart.Prelude.Text.{Text, bytes}
use agent_mart.Prelude.Decimal.{decimal}
use agent_mart.Prelude.Result.{Result, ok, err}
use agent_mart.Wallet.{is_blank}
use agent_mart.Chat.Words.{digit, number, max_int, within}
use agent_mart.Chat.World.{Message}

-- `CallbackQuery`: a tapped button.
pub record CallbackQuery : Type 0 where
  pub id : Text
  pub from_id : ℤ
  pub message : Option Message
  pub callback_data : Text

pub record Update : Type 0 where
  pub update_id : ℤ
  pub message : Option Message
  pub callback_query : Option CallbackQuery

abbrev tapped : CallbackQuery → Option Message → Option Message → Option Message
tapped q none other = other
tapped q (some m) other =
    some (record m { from_id = q.from_id; text = q.callback_data; callback_query_id = q.id })

abbrev carried : Option CallbackQuery → Option Message → Option Message
carried none m = m
carried (some q) m = tapped q q.message m

abbrev unless_blank : Option Message → Option Message
unless_blank none = none
unless_blank (some m) = if is_blank m.text then none else some m

-- `messageFrom`
unfoldable pub message_from : Update → Option Message
message_from u = unless_blank (carried u.callback_query u.message)

-- What an intake does: a message is handled, an offset is saved.
pub data Act : Type 0 where
  handles : Message → Act
  saves : ℤ → Act

abbrev pub Acts : Type 0
Acts = List Act

abbrev pub handled : Option Message → Acts → Acts
handled none t = t
handled (some m) t = handles m ∷ t

-- The store's answer to a save, of everything done before it, the latest first.
abbrev pub Store : Type 0
Store = Acts → ℤ → Result (Unit {0})

-- Goes on after a save that succeeded.
abbrev pub saved : {A : Type 0} → Result (Unit {0}) → A → (Text → A) → A
saved (ok u) rest failed = rest
saved (err e) rest failed = failed e

-- `processUpdates`, whose process function reports its own failures: the offset to go on with, the
-- error if a save failed, and what was done.
unfoldable pub process_updates : Store → List Update → ℤ → Acts → (ℤ × Option Text) × Acts
process_updates store [] offset t = ((offset, none), t)
process_updates store (u ∷ us) offset t =
    let next = u.update_id +64 pos 1 in
    let done = handled (message_from u) t in
    let skipped = process_updates store us offset t in
    let rest = process_updates store us next (saves next ∷ done) in
    if ltb_ℤ u.update_id offset
    then skipped
    else saved (store done next) rest
        (λ e. ((offset, some (bytes "save update offset: " ++ e)), saves next ∷ done))

-- The router's state: the offset, and the messages dispatched or refused, the latest first.
pub record Router : Type 0 where
  pub offset : ℤ
  pub dispatched : List Message

abbrev pub passed_on : Option Message → List Message → List Message
passed_on none ms = ms
passed_on (some m) ms = m ∷ ms

-- `webhookRouter.route`. A failed save is only logged; what the dispatcher makes of a message is
-- its own.
unfoldable pub route : Update → Router → Router
route u r = if ltb_ℤ u.update_id r.offset then r else record {
  offset = u.update_id +64 pos 1;
  dispatched = passed_on (message_from u) r.dispatched;
}

-- `redisOffsetStore.Save`: what is written, unless the offset is refused.
unfoldable pub save_offset : ℤ → Result Text
save_offset (pos n) = ok (decimal (pos n))
save_offset (negsuc n) = err (bytes "telegram offset must not be negative")

-- The digits that a text begins with.
abbrev pub digits_of : Text → Text
digits_of [] = []
digits_of (c ∷ s) = let rest = digits_of s in if digit c then c ∷ rest else []

abbrev pub natural : Text → Option ℕ
natural [] = none
natural (c ∷ s) = number 0 (c ∷ s)

-- `Sscanf` of one `%d`, after the spaces; a newline among them is an error. Only ASCII spaces are
-- read as such.
unfoldable pub scan_int : Text → Option ℤ
scan_int [] = none
scan_int (c ∷ s) =
    let rest = scan_int s in
    if (c == 32) || ((c == 9) || ((c == 11) || ((c == 12) || (c == 13))))
    then rest
    else if c == 45
    then within (max_int + 1) (sub_ℕ 0) (natural (digits_of s))
    else if c == 43
    then within max_int pos (natural (digits_of s))
    else within max_int pos (natural (digits_of (c ∷ s)))

abbrev pub scanned : Option ℤ → Result ℤ
scanned none = err (bytes "decode telegram Redis offset")
scanned (some n) = if ltb_ℤ n (pos 0) then err (bytes "decode telegram Redis offset") else ok n

-- `redisOffsetStore.Load`, of the store's answer: a missing value is an offset of zero.
unfoldable pub load_offset : Result (Option Text) → Result ℤ
load_offset (err e) = err e
load_offset (ok none) = ok (pos 0)
load_offset (ok (some value)) = scanned (scan_int value)

-- The updates of one connection, in the order of their arrival.
unfoldable pub routes : List Update → Router → Router
routes [] r = r
routes (u ∷ us) r = routes us (route u r)
