-- ===== src/Failure/Tests.antt =====
-- A merchant's provider that timed out, seen from the buyer's side, and the theorem at it.
use agent_mart.Prelude.{◌≡◌, refl, ◌++◌, none, some, ◌∷◌, false}
use agent_mart.Prelude.Text.{bytes, trim_space}
use agent_mart.Shopping.Words.{to_lower}
use agent_mart.Failure.Hints.{reasoning, conversation, payment, timeout_hint}
use agent_mart.Failure.Explain.{Fault, in_layer, embedded_layer, diagnose, trim, explain}
use agent_mart.Failure.Layers.{Attributes, explain-Attributes}

abbrev far : Fault
far = record {
  attributed = none;
  timed_out = false;
  text = bytes "agent said: Reasoning layer: request timeout";
}

abbrev over_wire : Fault
over_wire = record {
  attributed = some conversation;
  timed_out = false;
  text = bytes "merchant conversation channel: agent said: Reasoning layer: request timeout";
}

far_attributed : in_layer conversation far ≡ over_wire
unfolding in_layer
far_attributed = refl

far_explained :
    explain over_wire
    ≡ bytes "Failed in the merchant's reasoning layer: it did not answer in time"
      ++ (10 ∷ timeout_hint reasoning)
unfolding explain embedded_layer diagnose to_lower
far_explained = refl

unknown_explained :
    explain (record { attributed = none; timed_out = false; text = bytes "HTTP 429" })
    ≡ bytes "Failed in the agent: it is rate limiting us"
      ++ (10 ∷ bytes "Wait for the window to reset or switch to another model or key.")
unfolding explain embedded_layer diagnose to_lower
unknown_explained = refl

short : trim (bytes " a\nb ") ≡ bytes "a b"
unfolding trim trim_space
short = refl

explain-Attributes_example :
    Attributes over_wire conversation (explain (in_layer payment over_wire))
explain-Attributes_example = explain-Attributes over_wire conversation payment refl
