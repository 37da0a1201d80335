-- ===== src/Serve/Defaults/Sent.antt =====
-- How the payload that hydralisk/serve/proxy.py sends relates to the client's.
use hydralisk.Prelude.{
  ◌≡◌, refl, inl, inr, ap, ◌∙◌, arith, String, Bool, true, false, Option, none, some, List, [], ◌∷◌,
  str_eq, eq_iff, if◌then◌else◌, Option-cases, Bool-cases,
}
use hydralisk.Json.{Json, Fields, bool, str, obj, get, put, get-put, get-set_default}
use hydralisk.Text.{is_in}
use hydralisk.Serve.Settings.{HydraliskSettings}
use hydralisk.Serve.Defaults.{
  default_to, fields_or_empty, or_value, thinking, apply_chat_defaults, request_stream_usage,
  streams, stream_payload, chat_payload,
}

-- The client's value, or the lane's.
abbrev pub or_default : Option Json → Option Json → Option Json
or_default none default = default
or_default (some v) default = some v

get-default_to :
    (key j : String) (v : Option Json) (payload : Fields)
    → get j (default_to key v payload)
      ≡ (if str_eq key j then or_default (get j payload) v else get j payload)
get-default_to key j none payload = elim (Option-cases (get j payload)) [
  | inl e ↦ ground (arith, e)
  | inr (w, e) ↦ ground (arith, e)
]
get-default_to key j (some v) payload = elim (Option-cases (get key payload)) [
  | inl e ↦ ground (arith, get-set_default key j v payload, eq_iff key j, e)
  | inr (w, e) ↦ ground (arith, get-set_default key j v payload, eq_iff key j, e)
]

get-thinking :
    (j : String) (v : Option Bool) (payload : Fields)
    → str_eq "chat_template_kwargs" j ≡ false
    → get j (thinking v payload) ≡ get j payload
get-thinking j none payload h = refl
get-thinking j (some b) payload h = ground (
  arith,
  h,
  get-put "chat_template_kwargs" j
      (obj (
        put "enable_thinking"
          (or_value (get "enable_thinking" (fields_or_empty (get "chat_template_kwargs" payload)))
            (bool b))
          (fields_or_empty (get "chat_template_kwargs" payload))))
      payload,
)

get-stream_payload :
    (j : String) (payload : Fields)
    → str_eq "stream_options" j ≡ false
    → get j (stream_payload payload) ≡ get j payload
unfolding request_stream_usage
get-stream_payload j payload h = elim (Bool-cases (streams payload)) [
  | inl e ↦ ground (
    arith,
    e,
    h,
    get-put "stream_options" j
        (obj (put "include_usage" (bool true) (fields_or_empty (get "stream_options" payload))))
        payload,
  )
  | inr e ↦ ground (arith, e)
]

abbrev default_at : String → String → Option Json → Option Json → Option Json
default_at key j v o = if str_eq key j then or_default o v else o

-- The value of a key that is neither an object that the proxy changes nor looked into.
chat_get :
    (j : String) (payload : Fields) (config : HydraliskSettings)
    → str_eq "stream_options" j ≡ false
    → str_eq "chat_template_kwargs" j ≡ false
    → get j (chat_payload payload config)
      ≡ default_at "max_tokens" j config.default_max_tokens (
          default_at "repetition_penalty" j config.default_repetition_penalty (
            default_at "min_p" j config.default_min_p
              (if str_eq "model" j then some (str config.served_model) else get j payload)))
unfolding chat_payload apply_chat_defaults
chat_get j payload config h k =
    get-stream_payload j _ h
    ∙ get-thinking j config.default_enable_thinking _ k
    ∙ get-default_to "max_tokens" j config.default_max_tokens _
    ∙ ap (default_at "max_tokens" j config.default_max_tokens) (
        get-default_to "repetition_penalty" j config.default_repetition_penalty _
        ∙ ap (default_at "repetition_penalty" j config.default_repetition_penalty) (
            get-default_to "min_p" j config.default_min_p _
            ∙ ap (default_at "min_p" j config.default_min_p)
                (get-put "model" j (str config.served_model) payload)))

abbrev pub own_keys : List String
own_keys =
    "model" ∷ "min_p" ∷ "repetition_penalty" ∷ "max_tokens" ∷ "chat_template_kwargs"
    ∷ "stream_options" ∷ []

-- What a chat request sends upstream: always the served model; for each sampling parameter the
-- client's value, and the lane's default only where the client gives none.
pub chat_payload_lem :
    (payload : Fields) (config : HydraliskSettings)
    → let sent = chat_payload payload config in
      (get "model" sent ≡ some (str config.served_model))
      × (get "min_p" sent ≡ or_default (get "min_p" payload) config.default_min_p)
      × (get "repetition_penalty" sent
          ≡ or_default (get "repetition_penalty" payload) config.default_repetition_penalty)
      × (get "max_tokens" sent ≡ or_default (get "max_tokens" payload) config.default_max_tokens)
chat_payload_lem payload config = (
  chat_get "model" payload config refl refl,
  chat_get "min_p" payload config refl refl,
  chat_get "repetition_penalty" payload config refl refl,
  chat_get "max_tokens" payload config refl refl,
)

-- What a chat request says under any other key reaches the upstream unchanged.
pub chat_payload-keeps :
    (j : String) (payload : Fields) (config : HydraliskSettings)
    → is_in j own_keys ≡ false
    → get j (chat_payload payload config) ≡ get j payload
chat_payload-keeps j payload config h =
    chat_get j payload config (other "stream_options" refl) (other "chat_template_kwargs" refl)
    ∙ ground (
      arith,
      other "model" refl,
      other "min_p" refl,
      other "repetition_penalty" refl,
      other "max_tokens" refl,
    )
  where
    other : (k : String) → is_in k own_keys ≡ true → str_eq k j ≡ false
    other k member = elim (Bool-cases (str_eq k j)) [
      | inl same ↦ absurd (ground (arith, same, eq_iff k j, member, h))
      | inr e ↦ e
    ]

-- A request that streams asks the upstream for its token usage, and keeps its other stream options.
pub request_stream_usage_lem :
    (payload : Fields) (j : String)
    → streams payload ≡ true
    → let sent = fields_or_empty (get "stream_options" (stream_payload payload)) in
      (get "include_usage" sent ≡ some (bool true))
      × (get j sent ≡ (
          if str_eq "include_usage" j
          then some (bool true)
          else get j (fields_or_empty (get "stream_options" payload))))
unfolding request_stream_usage
request_stream_usage_lem payload j h = (read "include_usage", read j)
  where
    options : Fields
    options = fields_or_empty (get "stream_options" payload)

    asked : Fields
    asked = put "include_usage" (bool true) options

    found : get "stream_options" (stream_payload payload) ≡ some (obj asked)
    found = ground (arith, h, get-put "stream_options" "stream_options" (obj asked) payload)

    read :
        (k : String)
        → get k (fields_or_empty (get "stream_options" (stream_payload payload)))
          ≡ (if str_eq "include_usage" k then some (bool true) else get k options)
    read k =
        ap (λ v. get k (fields_or_empty v)) found ∙ get-put "include_usage" k (bool true) options
