-- ===== src/Tts/Seam.antt =====
-- hydralisk/tts/seam.py: a stream of an adapter and what is measured of it.
-- A stream is the list of its chunks, each with the milliseconds since the start, and its end. The
-- duration that a receipt shows, a float, is an argument.
pub mod Measured
use hydralisk.Prelude.{ℕ, ◌+◌, String, Option, none, some, List, [], ◌∷◌, length}
use hydralisk.Prelude.Int.{pos}
use hydralisk.Json.{Json, Fields, null, int, str, obj, end, field}

pub record VoiceRef : Type 0 where
  pub voice_id : String
  pub language_code : String

pub record TtsAdapter : Type 0 where
  pub adapter_ref : String
  pub default_voice : VoiceRef

pub record SynthesisMetrics : Type 0 where
  pub adapter_ref : String
  pub voice : VoiceRef
  pub chars_in : ℕ
  pub ms_to_first_chunk : Option ℕ
  pub total_ms : Option ℕ
  pub chunks_out : ℕ
  pub bytes_out : ℕ
  pub error_code : Option String

-- How a stream ends: it is exhausted, the adapter raises, the task is cancelled while it waits for the
-- adapter, or the reader goes away with a chunk, which leaves the measured stream suspended.
pub data Finish : Type 0 where
  exhausted : ℕ → Finish
  adapter_failed : String → ℕ → Finish
  cancelled : ℕ → Finish
  disconnected : Finish

abbrev pub Chunk : Type 0
Chunk = List ℕ × ℕ

abbrev pub voice_or_default : Option VoiceRef → TtsAdapter → VoiceRef
voice_or_default none adapter = adapter.default_voice
voice_or_default (some voice) adapter = voice

unfoldable pub new_synthesis : TtsAdapter → ℕ → Option VoiceRef → SynthesisMetrics
new_synthesis adapter chars_in voice_ref = record {
  adapter_ref = adapter.adapter_ref;
  voice = voice_or_default voice_ref adapter;
  chars_in = chars_in;
  ms_to_first_chunk = none;
  total_ms = none;
  chunks_out = 0;
  bytes_out = 0;
  error_code = none;
}

abbrev pub first_time : Option ℕ → ℕ → Option ℕ
first_time none at = some at
first_time (some first) at = some first

-- One round of the loop of `measured`, with the chunk that it yields.
unfoldable pub measure_chunk : Chunk → SynthesisMetrics → List (List ℕ) × SynthesisMetrics
measure_chunk ([], at) m = ([], m)
measure_chunk (b ∷ bytes, at) m = (
  (b ∷ bytes) ∷ [],
  record m {
    ms_to_first_chunk = first_time m.ms_to_first_chunk at;
    chunks_out = m.chunks_out + 1;
    bytes_out = m.bytes_out + length (b ∷ bytes);
  },
)

abbrev pub yielded : List Chunk → List (List ℕ)
yielded [] = []
yielded (([], at) ∷ chunks) = yielded chunks
yielded ((b ∷ bytes, at) ∷ chunks) = (b ∷ bytes) ∷ yielded chunks

unfoldable pub measure_chunks : List Chunk → SynthesisMetrics → SynthesisMetrics
measure_chunks [] m = m
measure_chunks (chunk ∷ chunks) m = measure_chunks chunks (measure_chunk chunk m).1

-- The `except` and the `finally` of `measured`.
unfoldable pub finish_stream : Finish → SynthesisMetrics → SynthesisMetrics
finish_stream (exhausted at) m = record m { total_ms = some at }
finish_stream (adapter_failed name at) m = record m { error_code = some name; total_ms = some at }
finish_stream (cancelled at) m = record m { total_ms = some at }
finish_stream disconnected m = m

unfoldable pub instrument_stream :
    TtsAdapter → ℕ → Option VoiceRef → List Chunk → Finish → SynthesisMetrics
unfolding new_synthesis measure_chunks finish_stream
instrument_stream adapter chars_in voice_ref chunks finish =
    finish_stream finish (measure_chunks chunks (new_synthesis adapter chars_in voice_ref))

abbrev millis : Option ℕ → Json
millis none = null
millis (some n) = int (pos n)

abbrev code_or_null : Option String → Json
code_or_null none = null
code_or_null (some s) = str s

abbrev voice_fields : VoiceRef → Fields
voice_fields voice =
    field "voiceId" (str voice.voice_id) (field "languageCode" (str voice.language_code) end)

abbrev pcm_fields : Fields
pcm_fields =
    field "sampleRateHz" (int (pos 24000))
      (field "sampleWidthBytes" (int (pos 2)) (field "channels" (int (pos 1)) end))

-- `SynthesisMetrics.public_safe`, in front of further keys.
unfoldable pub public_safe : (ℕ → Json) → SynthesisMetrics → Fields → Fields
public_safe audio_seconds_out m rest = field "adapterRef" (str m.adapter_ref) (
    field "voice" (obj (voice_fields m.voice)) (
      field "charsIn" (int (pos m.chars_in)) (
        field "msToFirstChunk" (millis m.ms_to_first_chunk) (
          field "totalMs" (millis m.total_ms) (
            field "chunksOut" (int (pos m.chunks_out)) (
              field "bytesOut" (int (pos m.bytes_out)) (
                field "audioSecondsOut" (audio_seconds_out m.bytes_out) (
                  field "pcm" (obj pcm_fields)
                    (field "errorCode" (code_or_null m.error_code) rest)))))))))
