-- ===== src/Serve/Defaults.antt =====
-- hydralisk/serve/proxy.py: the payload that the proxy sends upstream.
pub mod Sent
use hydralisk.Prelude.{String, Bool, true, false, Option, none, some}
use hydralisk.Json.{Json, Fields, bool, str, obj, end, get, put, set_default}
use hydralisk.Serve.Settings.{HydraliskSettings}

-- `if value is not None: payload.setdefault(key, value)`
abbrev pub default_to : String → Option Json → Fields → Fields
default_to key none payload = payload
default_to key (some v) payload = set_default key v payload

-- An object's fields; any other value counts as an empty object.
abbrev pub fields_or_empty : Option Json → Fields
fields_or_empty (some (obj fields)) = fields
fields_or_empty _ = end

abbrev pub or_value : Option Json → Json → Json
or_value none v = v
or_value (some w) v = w

abbrev pub thinking : Option Bool → Fields → Fields
thinking none payload = payload
thinking (some enable) payload =
    let kwargs = fields_or_empty (get "chat_template_kwargs" payload) in
    put "chat_template_kwargs"
      (obj (put "enable_thinking" (or_value (get "enable_thinking" kwargs) (bool enable)) kwargs))
      payload

unfoldable pub apply_chat_defaults : Fields → HydraliskSettings → Fields
apply_chat_defaults payload config = thinking config.default_enable_thinking (
    default_to "max_tokens" config.default_max_tokens (
      default_to "repetition_penalty" config.default_repetition_penalty
        (default_to "min_p" config.default_min_p payload)))

unfoldable pub request_stream_usage : Fields → Fields
request_stream_usage payload =
    put "stream_options"
      (obj (put "include_usage" (bool true) (fields_or_empty (get "stream_options" payload))))
      payload

-- `payload.get("stream") is True`
unfoldable pub streams : Fields → Bool
streams payload = elim (get "stream" payload) [ some (bool true) ↦ true | _ ↦ false ]

abbrev pub stream_payload : Fields → Fields
stream_payload payload = if_streams (streams payload)
  where
    if_streams : Bool → Fields
    if_streams true = request_stream_usage payload
    if_streams false = payload

-- What `chat_completions` sends, and what `responses` sends.
unfoldable pub chat_payload : Fields → HydraliskSettings → Fields
chat_payload payload config =
    stream_payload (apply_chat_defaults (put "model" (str config.served_model) payload) config)

unfoldable pub responses_payload : Fields → HydraliskSettings → Fields
responses_payload payload config = stream_payload (put "model" (str config.served_model) payload)
