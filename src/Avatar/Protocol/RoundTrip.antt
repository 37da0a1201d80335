-- ===== src/Avatar/Protocol/RoundTrip.antt =====
-- Encoded PCM of hydralisk/avatar/protocol.py decodes to itself, and an encoded utterance is parsed.
use hydralisk.Prelude.{
  ap, ◌∙◌, ℕ, ◌*◌, ◌%◌, ◌≤◌, ◌<◌, ◌≡◌, ◌≢◌, refl, String, true, false, Option, some, List, [], ◌∷◌,
  arith, eq_iff, length, All,
}
use mathlib.Core.Path.{ap₂}
use hydralisk.Json.{Json, Fields, str, get}
use hydralisk.Avatar.Audio.{Sample, is_empty}
use hydralisk.Avatar.Protocol.{
  speak, ok, Raw, Codecs, max_audio_chunk_bytes, from_bytes, to_bytes, text?, decode_pcm16,
  encode_pcm16, require_event_id, control_type, parse_typed, payload_of, parse_payload,
  parse_control_message,
}
use hydralisk.Avatar.Protocol.Accepts.{IsPcm, IsEventId}

to_bytes_waits : (x : Sample) (xs : List Sample) → is_empty (to_bytes (x ∷ xs)) ≡ false
unfolding to_bytes
to_bytes_waits x xs = refl

abbrev pub AreSamples : List Sample → Type 0
AreSamples = All λ x. x < 65536

from_bytes-to_bytes : (xs : List Sample) → AreSamples xs → from_bytes (to_bytes xs) ≡ xs
unfolding from_bytes to_bytes
from_bytes-to_bytes [] h = refl
from_bytes-to_bytes (x ∷ xs) h = ap₂ ◌∷◌ (omega arith) (from_bytes-to_bytes xs h.1)

length-to_bytes : (xs : List Sample) → length (to_bytes xs) ≡ 2 * length xs
unfolding to_bytes
length-to_bytes [] = omega arith
length-to_bytes (x ∷ xs) = omega (arith, length-to_bytes xs)

decode_pcm16_ok :
    (b64decode : String → Option (List ℕ)) (audio : Json) (t : String) (raw : List ℕ)
    → text? audio ≡ some t
    → b64decode t ≡ some raw
    → is_empty raw ≡ false
    → length raw ≤ max_audio_chunk_bytes
    → length raw % 2 ≡ 0
    → decode_pcm16 b64decode audio ≡ ok (from_bytes raw)
unfolding decode_pcm16
decode_pcm16_ok b64decode audio t raw e f g h k = ground arith

text?-str : (s : String) → s ≢ "" → text? (str s) ≡ some s
text?-str s h = ground (arith, eq_iff s "")

-- PCM of int16 samples, not empty and within the limit, decodes from its base64 code to itself, if
-- strict base64 decodes that code to the bytes, and the code is not empty.
pub decode_pcm16-encode_pcm16 :
    (b64encode : List ℕ → String) (b64decode : String → Option (List ℕ)) (pcm : List Sample)
    → b64decode (b64encode (to_bytes pcm)) ≡ some (to_bytes pcm)
    → b64encode (to_bytes pcm) ≢ ""
    → AreSamples pcm
    → IsPcm pcm
    → decode_pcm16 b64decode (str (encode_pcm16 b64encode pcm)) ≡ ok pcm
unfolding encode_pcm16
decode_pcm16-encode_pcm16 b64encode b64decode [] inverse coded samples within = absurd (omega arith)
decode_pcm16-encode_pcm16 b64encode b64decode (x ∷ xs) inverse coded samples within =
    decode_pcm16_ok b64decode (str (b64encode raw)) (b64encode raw) raw
      (text?-str (b64encode raw) coded) inverse (to_bytes_waits x xs)
      (omega (arith, length-to_bytes (x ∷ xs))) (omega (arith, length-to_bytes (x ∷ xs)))
    ∙ ap ok (from_bytes-to_bytes (x ∷ xs) samples)
  where
    raw : List ℕ
    raw = to_bytes (x ∷ xs)

require_event_id-IsEventId_ok :
    (payload : Fields) (e : String)
    → get "event_id" payload ≡ some (str e)
    → IsEventId e
    → require_event_id true payload ≡ ok (some e)
unfolding require_event_id
require_event_id-IsEventId_ok payload e h v = ground (arith, h, eq_iff e "")

-- An utterance that a client encodes is parsed to itself: a frame whose object has the type
-- `agent.speak`, an event id that is not empty and not too long, and the base64 code of its PCM.
pub parse_control_message-speak :
    (c : Codecs) (b64encode : List ℕ → String) (raw : Raw) (payload : Fields) (e : String)
    (pcm : List Sample)
    → payload_of c raw ≡ ok payload
    → get "type" payload ≡ some (str "agent.speak")
    → get "event_id" payload ≡ some (str e)
    → get "audio" payload ≡ some (str (encode_pcm16 b64encode pcm))
    → c.b64decode (b64encode (to_bytes pcm)) ≡ some (to_bytes pcm)
    → b64encode (to_bytes pcm) ≢ ""
    → AreSamples pcm
    → IsPcm pcm
    → IsEventId e
    → parse_control_message c raw ≡ ok (record { type = speak; event_id = some e; pcm = some pcm })
unfolding parse_control_message parse_payload parse_typed control_type
parse_control_message-speak c b64encode raw payload e pcm parsed t id audio inverse coded samples
      within valid =
    ground (
      arith,
      parsed,
      require_event_id-IsEventId_ok payload e id valid,
      decode_pcm16-encode_pcm16 b64encode c.b64decode pcm inverse coded samples within,
    )
