-- ===== src/Avatar/Protocol/Tests.antt =====
-- Examples for hydralisk/avatar/protocol.py.
use hydralisk.Prelude.{
  ℕ, ◌≡◌, ◌≢◌, refl, ap, String, true, Option, none, some, List, [], ◌∷◌, arith, str_eq,
  if◌then◌else◌,
}
use hydralisk.Json.{Fields, str, obj, end, field, get}
use hydralisk.Avatar.Protocol.{
  Codecs, text, ok, ControlMessage, speak, to_bytes, encode_pcm16, decode_pcm16, payload_of,
  parse_payload, parse_control_message, parse_typed, require_event_id, control_type,
}
use hydralisk.Avatar.Protocol.Accepts.{IsMessage, parse_control_message-IsMessage}
use hydralisk.Avatar.Protocol.RoundTrip.{parse_control_message-speak}

-- A code that knows one word: the bytes of the samples 513 and 3.
abbrev encode_word : List ℕ → String
encode_word bs = "AQIDAA=="

abbrev decode_word : String → Option (List ℕ)
decode_word s = if str_eq s "AQIDAA==" then some (1 ∷ 2 ∷ 3 ∷ 0 ∷ []) else none

abbrev speak_fields : Fields
speak_fields =
    field "type" (str "agent.speak")
      (field "event_id" (str "e1") (field "audio" (str "AQIDAA==") end))

abbrev one_frame : Codecs
one_frame = record {
  utf8 = λ _. none;
  loads = λ _. some (obj speak_fields);
  b64decode = decode_word;
}

abbrev spoken : ControlMessage
spoken = record { type = speak; event_id = some "e1"; pcm = some (513 ∷ 3 ∷ []) }

code_waits : ◌≢◌ {A = String} "AQIDAA==" ""
code_waits h = let same : str_eq "AQIDAA==" "" ≡ true = ap (λ s. str_eq s "") h in absurd (cc)

id_waits : ◌≢◌ {A = String} "e1" ""
id_waits h = let same : str_eq "e1" "" ≡ true = ap (λ s. str_eq s "") h in absurd (cc)

parse_one_frame : parse_control_message one_frame (text "{}") ≡ ok spoken
unfolding parse_control_message payload_of parse_payload parse_typed require_event_id control_type
    decode_pcm16 get
parse_one_frame = refl

parse_control_message-IsMessage_example : IsMessage spoken
parse_control_message-IsMessage_example =
    parse_control_message-IsMessage one_frame (text "{}") spoken parse_one_frame

parse_control_message-speak_example : parse_control_message one_frame (text "{}") ≡ ok spoken
unfolding to_bytes payload_of get encode_pcm16
parse_control_message-speak_example =
    parse_control_message-speak one_frame encode_word (text "{}") speak_fields "e1" (513 ∷ 3 ∷ [])
      refl refl refl refl refl code_waits (omega arith, (omega arith, tt))
      (omega arith, omega arith) (id_waits, omega arith)
