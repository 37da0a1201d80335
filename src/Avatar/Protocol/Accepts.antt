-- ===== src/Avatar/Protocol/Accepts.antt =====
-- What the parser of hydralisk/avatar/protocol.py accepts.
use Prim.Native.String.{count}
use mathlib.Core.Path.{subst}
use hydralisk.Prelude.{
  ℕ, zero, suc, ◌*◌, ◌/◌, ◌≤◌, ◌<◌, ◌≡◌, ◌≢◌, ◌⊎◌, inl, inr, String, Bool, true, false, Option,
  none, some, List, [], ◌∷◌, arith, eq_iff, length, Option-cases,
}
use hydralisk.Json.{Json, Fields, null, str, get}
use hydralisk.Avatar.Audio.{Sample}
use hydralisk.Avatar.Protocol.{
  ControlType, speak, speak_end, interrupt, start_listening, stop_listening, keepalive, ok,
  Result-cases, payload_of, parse_payload, ControlMessage, Raw, Codecs, max_audio_chunk_bytes,
  max_event_id_length, from_bytes, text?, decode_pcm16, present, require_event_id, control_type,
  parse_typed, parse_control_message,
}

length-from_bytes : (bs : List ℕ) (k : ℕ) → length bs ≡ 2 * k → length (from_bytes bs) ≡ k
unfolding from_bytes
length-from_bytes [] k h = omega arith
length-from_bytes (b ∷ []) k h = absurd (omega arith)
length-from_bytes (lo ∷ hi ∷ rest) zero h = absurd (omega arith)
length-from_bytes (lo ∷ hi ∷ rest) (suc k) h = omega (arith, length-from_bytes rest k)

-- PCM that a session may be given: some samples, at most half of `MAX_AUDIO_CHUNK_BYTES`.
abbrev pub IsPcm : List Sample → Type 0
IsPcm pcm = (0 < length pcm) × (2 * length pcm ≤ max_audio_chunk_bytes)

decode_pcm16-IsPcm :
    (b64decode : String → Option (List ℕ)) (audio : Json) (pcm : List Sample)
    → decode_pcm16 b64decode audio ≡ ok pcm
    → IsPcm pcm
unfolding decode_pcm16
decode_pcm16-IsPcm b64decode audio pcm h = elim (Option-cases (text? audio)) [
  | inl e ↦ absurd (ground (arith, e))
  | inr (t, e) ↦ elim (Option-cases (b64decode t)) [
    | inl f ↦ absurd (ground (arith, e, f))
    | inr (raw, f) ↦ ground (arith, e, f, length-from_bytes raw (length raw / 2))
  ]
]

text?-nonempty : (v : Json) (t : String) → text? v ≡ some t → t ≢ ""
text?-nonempty (str s) t e = ground (arith, eq_iff s "")
text?-nonempty null t e = absurd (cc)
text?-nonempty _ t e = absurd (cc)

abbrev pub IsEventId : String → Type 0
IsEventId e = (e ≢ "") × (count e ≤ max_event_id_length)

require_event_id-IsEventId :
    (required : Bool) (payload : Fields) (id : Option String)
    → require_event_id required payload ≡ ok id
    → ((required ≡ false) × (id ≡ none)) ⊎ ((e : String) × (id ≡ some e) × IsEventId e)
unfolding require_event_id
require_event_id-IsEventId required payload id h =
    elim (Option-cases (present (get "event_id" payload))) [
      | inl e ↦ inl (ground (arith, e), ground (arith, e))
      | inr (v, e) ↦ elim (Option-cases (text? v)) [
        | inl f ↦ absurd (ground (arith, e, f))
        | inr (t, f) ↦ inr (t, ground (arith, e, f), (text?-nonempty v t f, ground (arith, e, f)))
      ]
    ]

-- What each kind of message carries: an utterance its id and PCM, its end an id or nothing, and any
-- other message nothing.
abbrev pub IsMessage : ControlMessage → Type 0
IsMessage m = Carried m.type m.event_id m.pcm
  where
    Carried : ControlType → Option String → Option (List Sample) → Type 0
    Carried speak (some e) (some pcm) = IsEventId e × IsPcm pcm
    Carried speak _ _ = ⊥
    Carried speak_end none none = Unit {0}
    Carried speak_end (some e) none = IsEventId e
    Carried speak_end _ (some pcm) = ⊥
    Carried _ none none = Unit {0}
    Carried _ _ _ = ⊥

parse_typed-IsMessage :
    (b64decode : String → Option (List ℕ)) (t : ControlType) (payload : Fields) (m : ControlMessage)
    → parse_typed b64decode t payload ≡ ok m
    → IsMessage m
unfolding parse_typed
parse_typed-IsMessage b64decode speak payload m h =
    elim (Result-cases (require_event_id true payload)) [
      | inr (c, e) ↦ absurd (ground (arith, e))
      | inl (id, e) ↦ elim (Option-cases (get "audio" payload)) [
        | inl f ↦ absurd (ground (arith, e, f))
        | inr (audio, f) ↦ elim (Result-cases (decode_pcm16 b64decode audio)) [
          | inr (c, g) ↦ absurd (ground (arith, e, f, g))
          | inl (pcm, g) ↦
              spoken id pcm (ground (arith, e, f, g)) (require_event_id-IsEventId true payload id e)
                (decode_pcm16-IsPcm b64decode audio pcm g)
        ]
      ]
    ]
  where
    spoken :
        (id : Option String) (pcm : List Sample)
        → record { type = speak; event_id = id; pcm = some pcm } ≡ m
        → ((true ≡ false) × (id ≡ none)) ⊎ ((e : String) × (id ≡ some e) × IsEventId e)
        → IsPcm pcm
        → IsMessage m
    spoken id pcm q (inl r) p = absurd (cc r.0)
    spoken id pcm q (inr (e, r, i)) p = subst IsMessage q (rw r (i, p))
parse_typed-IsMessage b64decode speak_end payload m h =
    elim (Result-cases (require_event_id false payload)) [
      | inr (c, e) ↦ absurd (ground (arith, e))
      | inl (id, e) ↦ ended id (ground (arith, e)) (require_event_id-IsEventId false payload id e)
    ]
  where
    ended :
        (id : Option String)
        → record { type = speak_end; event_id = id; pcm = none } ≡ m
        → ((false ≡ false) × (id ≡ none)) ⊎ ((e : String) × (id ≡ some e) × IsEventId e)
        → IsMessage m
    ended id q (inl r) = subst IsMessage q (rw r.1 tt)
    ended id q (inr (e, r, i)) = subst IsMessage q (rw r i)
parse_typed-IsMessage b64decode interrupt payload m h = ground arith
parse_typed-IsMessage b64decode start_listening payload m h = ground arith
parse_typed-IsMessage b64decode stop_listening payload m h = ground arith
parse_typed-IsMessage b64decode keepalive payload m h = ground arith

parse_payload-IsMessage :
    (c : Codecs) (payload : Fields) (m : ControlMessage)
    → parse_payload c payload ≡ ok m
    → IsMessage m
unfolding parse_payload
parse_payload-IsMessage c payload m h = elim (Option-cases (control_type (get "type" payload))) [
  | inl e ↦ absurd (ground (arith, e))
  | inr (t, e) ↦ parse_typed-IsMessage c.b64decode t payload m (ground (arith, e))
]

-- Fail closed: a frame that parses, whatever its bytes, is a message with what its kind must carry,
-- and with nothing else.
pub parse_control_message-IsMessage :
    (c : Codecs) (raw : Raw) (m : ControlMessage) → parse_control_message c raw ≡ ok m → IsMessage m
unfolding parse_control_message
parse_control_message-IsMessage c raw m h = elim (Result-cases (payload_of c raw)) [
  | inr (k, e) ↦ absurd (ground (arith, e))
  | inl (payload, e) ↦ parse_payload-IsMessage c payload m (ground (arith, e))
]
