-- ===== src/Avatar/Protocol.antt =====
-- hydralisk/avatar/protocol.py: the control messages of one session.
-- The parsers of the standard library are arguments: `utf8` decodes bytes, `loads` is `json.loads`
-- and `b64decode` is strict base64; each gives `none` where it raises. A `ProtocolError` is its
-- code; the message texts, one for each raise, are left out.
pub mod Accepts
pub mod RoundTrip
pub mod Tests
use Prim.Native.String.{count}
use hydralisk.Prelude.{
  ℕ, zero, suc, ◌+◌, ◌*◌, ◌/◌, ◌%◌, String, Bool, true, false, not, ◌||◌, Option, none, some, List,
  [], ◌∷◌, ltb, ◌==◌, str_eq, ◌≡◌, refl, ◌⊎◌, inl, inr, if◌then◌else◌, length,
}
use hydralisk.Json.{Json, Fields, null, bool, int, float, str, arr, obj, get}
use hydralisk.Avatar.Audio.{Sample, is_empty}
use hydralisk.Avatar.State.{AvatarState}

abbrev pub max_audio_chunk_bytes : ℕ
max_audio_chunk_bytes = 1_048_576

abbrev pub max_event_id_length : ℕ
max_event_id_length = 128

pub data ControlType : Type 0 where
  speak speak_end interrupt start_listening stop_listening keepalive : ControlType

pub data Code : Type 0 where
  invalid_audio audio_chunk_too_large missing_event_id invalid_event_id invalid_message : Code
  unknown_message_type : Code

pub data Result {ℓ} (A : Type ℓ) : Type ℓ where
  ok : A → Result A
  err : Code → Result A

infixl 5 ◌>>=◌ ◌>>◌
abbrev pub ◌>>=◌ {ℓ κ} : {A : Type ℓ} {B : Type κ} → Result A → (A → Result B) → Result B
ok a >>= f = f a
err c >>= f = err c

abbrev pub ◌>>◌ {ℓ} : {B : Type ℓ} → Result (Unit {0}) → Result B → Result B
m >> k = m >>= λ _. k

pub Result-cases {ℓ} :
    {A : Type ℓ} (r : Result A) → ((a : A) × (r ≡ ok a)) ⊎ ((c : Code) × (r ≡ err c))
Result-cases (ok a) = inl (a, refl)
Result-cases (err c) = inr (c, refl)

-- `if test: raise ProtocolError(code, …)`
abbrev pub raise_if : Bool → Code → Result (Unit {0})
raise_if true c = err c
raise_if false c = ok tt

abbrev pub or_raise {ℓ} : {A : Type ℓ} → Option A → Code → Result A
or_raise none c = err c
or_raise (some a) c = ok a

pub record ControlMessage : Type 0 where
  pub type : ControlType
  pub event_id : Option String
  pub pcm : Option (List Sample)

-- `np.frombuffer(raw, dtype="<i2")`, of an even number of bytes.
unfoldable pub from_bytes : List ℕ → List Sample
from_bytes [] = []
from_bytes (lo ∷ []) = []
from_bytes (lo ∷ hi ∷ rest) = (lo + 256 * hi) ∷ from_bytes rest

-- `samples.tobytes()`
unfoldable pub to_bytes : List Sample → List ℕ
to_bytes [] = []
to_bytes (x ∷ xs) = (x % 256) ∷ (x / 256 % 256) ∷ to_bytes xs

-- `isinstance(value, str) and value`
abbrev pub text? : Json → Option String
text? (str s) = if str_eq s "" then none else some s
text? _ = none

unfoldable pub decode_pcm16 : (String → Option (List ℕ)) → Json → Result (List Sample)
unfolding from_bytes
decode_pcm16 b64decode audio = do
  text ← or_raise (text? audio) invalid_audio
  raw ← or_raise (b64decode text) invalid_audio
  raise_if (is_empty raw) invalid_audio
  raise_if (ltb max_audio_chunk_bytes (length raw)) audio_chunk_too_large
  raise_if (not (length raw % 2 == 0)) invalid_audio
  ok (from_bytes raw)

unfoldable pub encode_pcm16 : (List ℕ → String) → List Sample → String
unfolding to_bytes
encode_pcm16 b64encode samples = b64encode (to_bytes samples)

-- A missing key and a `null` are both `None`.
abbrev pub present : Option Json → Option Json
present (some null) = none
present o = o

abbrev check_event_id : Json → Result (Option String)
check_event_id v = do
  id ← or_raise (text? v) invalid_event_id
  raise_if (ltb max_event_id_length (count id)) invalid_event_id
  ok (some id)

abbrev event_id_of : Bool → Option Json → Result (Option String)
event_id_of required none = do raise_if required missing_event_id; ok none
event_id_of required (some v) = check_event_id v

unfoldable pub require_event_id : Bool → Fields → Result (Option String)
require_event_id required payload = event_id_of required (present (get "event_id" payload))

-- `ControlType(type_value)`
unfoldable pub control_type : Option Json → Option ControlType
control_type (some (str s)) =
    if str_eq s "agent.speak"
    then some speak
    else if str_eq s "agent.speak_end"
    then some speak_end
    else if str_eq s "agent.interrupt"
    then some interrupt
    else if str_eq s "agent.start_listening"
    then some start_listening
    else if str_eq s "agent.stop_listening"
    then some stop_listening
    else if str_eq s "agent.keepalive"
    then some keepalive
    else none
control_type _ = none

abbrev bare : ControlType → Result ControlMessage
bare t = ok (record { type = t; event_id = none; pcm = none })

unfoldable pub parse_typed :
    (String → Option (List ℕ)) → ControlType → Fields → Result ControlMessage
parse_typed b64decode speak payload = do
  id ← require_event_id true payload
  audio ← or_raise (get "audio" payload) invalid_audio
  pcm ← decode_pcm16 b64decode audio
  ok (record { type = speak; event_id = id; pcm = some pcm })
parse_typed b64decode speak_end payload = do
  id ← require_event_id false payload
  ok (record { type = speak_end; event_id = id; pcm = none })
parse_typed b64decode t payload = bare t

abbrev pub fields? : Json → Option Fields
fields? (obj fields) = some fields
fields? _ = none

-- One client frame, as text or as bytes.
pub data Raw : Type 0 where
  text : String → Raw
  bytes : List ℕ → Raw

abbrev decode_raw : (List ℕ → Option String) → Raw → Result String
decode_raw utf8 (text s) = ok s
decode_raw utf8 (bytes bs) = or_raise (utf8 bs) invalid_message

-- What the module takes from the standard library.
pub record Codecs : Type 0 where
  pub utf8 : List ℕ → Option String
  pub loads : String → Option Json
  pub b64decode : String → Option (List ℕ)

-- The JSON object of a frame.
unfoldable pub payload_of : Codecs → Raw → Result Fields
payload_of c raw = do
  s ← decode_raw c.utf8 raw
  value ← or_raise (c.loads s) invalid_message
  or_raise (fields? value) invalid_message

unfoldable pub parse_payload : Codecs → Fields → Result ControlMessage
parse_payload c payload = do
  t ← or_raise (control_type (get "type" payload)) unknown_message_type
  parse_typed c.b64decode t payload

unfoldable pub parse_control_message : Codecs → Raw → Result ControlMessage
parse_control_message c raw = do payload ← payload_of c raw; parse_payload c payload

-- The events that a session sends to its client.
pub data ServerEvent : Type 0 where
  session_state : AvatarState → ServerEvent
  speak_started speak_ended : Option String → ServerEvent
  keepalive_ack : ServerEvent
  session_error : String → ServerEvent
  session_stopped : String → ServerEvent
