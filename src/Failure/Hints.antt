-- ===== src/Failure/Hints.antt =====
-- The layers of internal/failure/failure.go and the hints for them.
use agent_mart.Prelude.{[]}
use agent_mart.Prelude.Text.{Text, bytes}

-- `Layer`; `no_layer` is the empty one.
pub data Layer : Type 0 where
  reasoning catalog conversation payment ledger gate records no_layer : Layer

abbrev pub layer_name : Layer → Text
layer_name reasoning = bytes "reasoning layer"
layer_name catalog = bytes "catalog tool channel"
layer_name conversation = bytes "merchant conversation channel"
layer_name payment = bytes "payment layer"
layer_name ledger = bytes "wallet ledger"
layer_name gate = bytes "spend gate"
layer_name records = bytes "records database"
layer_name no_layer = []

-- `timeoutHint`
abbrev pub timeout_hint : Layer → Text
timeout_hint reasoning =
    bytes
      "The model provider accepted the request but never finished. Check the model name and whether the provider is degraded."
timeout_hint conversation =
    bytes
      "The merchant received the message but its own reasoning did not finish. Check the market process log for a provider error."
timeout_hint catalog = bytes "The catalog server is slow or wedged. Check the market process log."
timeout_hint payment = bytes "The payment gateway did not respond. No money moved."
timeout_hint _ = bytes "Check the far side's log for the step that hung."

-- `reachHint`
abbrev pub reach_hint : Layer → Text
reach_hint conversation =
    bytes
      "The market process is not running or is on another port. Start it and confirm its address."
reach_hint catalog =
    bytes
      "The market process is not running or is on another port. Start it and confirm its address."
reach_hint reasoning = bytes "Check the provider base URL."
reach_hint records = bytes "Check the database URL."
reach_hint _ = bytes "Confirm the address and that the far side is running."

-- `credentialHint`
abbrev pub credential_hint : Layer → Text
credential_hint reasoning =
    bytes "Check the provider API key and that the key is allowed to use this model."
credential_hint conversation =
    bytes "The shared token differs between the two processes. Make them match."
credential_hint catalog =
    bytes "The shared token differs between the two processes. Make them match."
credential_hint payment = bytes "Check the payment key id and secret."
credential_hint records = bytes "Check the database service key."
credential_hint _ = bytes "Check the credentials for that layer."

-- `configHint`
abbrev pub config_hint : Layer → Text
config_hint reasoning =
    bytes "The model provider is not configured. Set the API key, base URL, and model name."
config_hint conversation = bytes "The merchant conversation endpoint is not configured."
config_hint catalog = bytes "The catalog endpoint is not configured."
config_hint _ = bytes "A required setting is missing for that layer."

-- `layerHint`
abbrev pub layer_hint : Layer → Text
layer_hint reasoning = bytes "This came from the model provider, not from our own rules."
layer_hint gate = bytes "The spend gate refused. That is a limit working, not a fault."
layer_hint ledger = bytes "No money moved. The ledger write was refused."
layer_hint _ = []
