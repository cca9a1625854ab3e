-- ===== src/Failure/Explain.antt =====
-- `In` and `Explain` of internal/failure/failure.go.
use agent_mart.Prelude.{
  Bool, true, false, ◌||◌, ◌++◌, Option, none, some, List, [], ◌∷◌, if◌then◌else◌, leb, ◌==◌,
}
use agent_mart.Prelude.Text.{Text, bytes, is_empty, length, take, trim_space, text_eq, after}
use agent_mart.Shopping.Words.{to_lower}
use agent_mart.Failure.Hints.{
  Layer, reasoning, catalog, conversation, payment, ledger, gate, records, no_layer, layer_name,
  timeout_hint, reach_hint, credential_hint, config_hint, layer_hint,
}

-- What is read of an error: the layer that it was attributed to, whether it is or wraps a timeout,
-- and its text.
pub record Fault : Type 0 where
  pub attributed : Option Layer
  pub timed_out : Bool
  pub text : Text

abbrev pub attribute : Layer → Option Layer → Fault → Fault
attribute layer (some already) e = e
attribute layer none e = record e {
  attributed = some layer;
  text = layer_name layer ++ (bytes ": " ++ e.text);
}

-- `In`, of an error that is not nil.
unfoldable pub in_layer : Layer → Fault → Fault
in_layer layer e = attribute layer e.attributed e

abbrev pub found : Option Text → Bool
found (some _) = true
found none = false

-- `strings.Contains`
abbrev pub has : Text → Text → Bool
has text word = found (after word text)

abbrev pub has_one : Text → List Text → Bool
has_one text [] = false
has_one text (w ∷ ws) = has text w || has_one text ws

abbrev pub first_named : Text → List Layer → Option Layer
first_named lower [] = none
first_named lower (l ∷ ls) =
    let rest = first_named lower ls in
    if has lower (layer_name l ++ bytes ":") then some l else rest

-- `embeddedLayer`
unfoldable pub embedded_layer : Text → Option Layer
embedded_layer text =
    first_named (to_lower text) (reasoning ∷ payment ∷ ledger ∷ gate ∷ records ∷ catalog ∷ [])

abbrev spaced : Text → Text
spaced [] = []
spaced (c ∷ s) = (if c == 10 then 32 else c) ∷ spaced s

-- `trim`
unfoldable pub trim : Text → Text
trim text =
    let line = trim_space (spaced text) in
    if leb (length line) 240 then line else take 240 line ++ bytes "..."

-- `diagnose`: the shape and the hint.
unfoldable pub diagnose : Layer → Fault → Text × Text
diagnose layer e =
    let lower = to_lower e.text in
    if e.timed_out || has_one lower (bytes "timeout" ∷ bytes "deadline exceeded" ∷ [])
    then (bytes "it did not answer in time", timeout_hint layer)
    else if has_one lower
        (bytes "connection refused" ∷ bytes "actively refused" ∷ bytes "econnrefused" ∷ [])
    then (bytes "nothing is listening on its address", reach_hint layer)
    else if has_one lower (bytes "no such host" ∷ bytes "dns" ∷ [])
    then (bytes "its address does not resolve", reach_hint layer)
    else if has_one lower
        (bytes "401" ∷ bytes "403" ∷ bytes "unauthorized" ∷ bytes "forbidden" ∷ [])
    then (bytes "it rejected our credentials", credential_hint layer)
    else if has_one lower (bytes "429" ∷ bytes "rate limit" ∷ bytes "quota" ∷ [])
    then (
      bytes "it is rate limiting us",
      bytes "Wait for the window to reset or switch to another model or key.",
    )
    else if has_one lower (bytes "500" ∷ bytes "502" ∷ bytes "503" ∷ bytes "504" ∷ [])
    then (
      bytes "it returned a server error",
      bytes "The far side is unhealthy. Retry, and check its own log.",
    )
    else if has_one lower (bytes "not configured" ∷ bytes "is required" ∷ bytes "missing" ∷ [])
    then (trim e.text, config_hint layer)
    else (trim e.text, layer_hint layer)

abbrev pub sentence : Text → Text × Text → Text
sentence place d =
    bytes "Failed in the "
    ++ (place ++ (bytes ": " ++ (d.0 ++ (if is_empty d.1 then [] else 10 ∷ d.1))))

abbrev pub is_conversation : Layer → Bool
is_conversation conversation = true
is_conversation _ = false

abbrev pub same_layer : Layer → Layer → Bool
same_layer a b = text_eq (layer_name a) (layer_name b)

abbrev log_hint : Text × Text → Text × Text
log_hint d =
    (d.0, if is_empty d.1 then bytes "Check the process log for the failing step." else d.1)

abbrev pub own : Fault → Option Layer → Text
own e (some layer) = sentence (layer_name layer) (diagnose layer e)
own e none = sentence (bytes "agent") (log_hint (diagnose no_layer e))

abbrev pub or_none : Option Layer → Layer
or_none (some l) = l
or_none none = no_layer

-- The place that a layer is named as, when the far side named it.
abbrev pub place_of : Layer → Layer → Text
place_of outer inner =
    if is_conversation outer then bytes "merchant's " ++ layer_name inner else layer_name inner

abbrev pub explained : Fault → Layer → Option Layer → Text
explained e outer none = own e e.attributed
explained e outer (some inner) =
    if same_layer inner outer
    then own e e.attributed
    else sentence (place_of outer inner) (diagnose inner e)

-- `Explain`, of an error that is not nil.
unfoldable pub explain : Fault → Text
explain e = explained e (or_none e.attributed) (embedded_layer e.text)
