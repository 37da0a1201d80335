-- ===== src/Tts/Service.antt =====
-- hydralisk/tts/service.py: what a request for speech must be, and what its run leaves behind.
-- A refusal is its status and code, without the message. A request's body is `none` where it is no JSON.
pub mod Admits
pub mod Runs
use Prim.Native.String.{◌++◌ as append_text}
use Prim.Native.Char.{code}
use hydralisk.Prelude.{
  ℕ, suc, ◌+◌, String, Bool, true, false, not, ◌&&◌, ◌||◌, Option, none, some, List, [], ◌∷◌, ◌++◌,
  str_eq, ◌==◌, ltb, if◌then◌else◌, length,
}
use hydralisk.Prelude.Int.{ℤ, pos, leb_ℤ}
use hydralisk.Text.{is_blank, strip, size}
use hydralisk.Json.{Json, Fields, null, int, float, str, obj, get}
use hydralisk.Tts.Seam.{
  voice_or_default, VoiceRef, TtsAdapter, SynthesisMetrics, Finish, adapter_failed, Chunk, yielded,
  instrument_stream,
}
use hydralisk.Tts.Receipts.{append_receipt, build_tts_receipt}
use hydralisk.Tts.Settings.{TtsServiceSettings}

pub data Checked {ℓ} (A : Type ℓ) : Type ℓ where
  pass : A → Checked A
  refuse : ℕ → String → Checked A

infixl 5 ◌>>=◌ ◌>>◌
abbrev pub ◌>>=◌ {ℓ κ} : {A : Type ℓ} {B : Type κ} → Checked A → (A → Checked B) → Checked B
pass a >>= f = f a
refuse status code >>= f = refuse status code

abbrev pub ◌>>◌ {ℓ κ} : {A : Type ℓ} {B : Type κ} → Checked A → Checked B → Checked B
m >> k = m >>= λ _. k

abbrev check : Bool → ℕ → String → Checked (Unit {0})
check true status code = pass tt
check false status code = refuse status code

abbrev bearer_is : Option String → String → Bool
bearer_is none expected = false
bearer_is (some header) expected = str_eq header expected

abbrev check_bearer : Option String → Bool → Option String → Checked (Unit {0})
check_bearer none allow_insecure_dev authorization =
    check allow_insecure_dev 503 "hydralisk_tts_unarmed"
check_bearer (some token) allow_insecure_dev authorization =
    check (bearer_is authorization (append_text "Bearer " token)) 401 "unauthorized"

abbrev has_token : Option String → Bool
has_token none = false
has_token (some token) = not (is_blank token)

unfoldable pub require_tts_bearer : TtsServiceSettings → Option String → Checked (Unit {0})
require_tts_bearer config authorization =
    check_bearer config.bearer_token config.allow_insecure_dev authorization

-- What the health route says of the lane: whether it is armed, and whether it asks for a token.
unfoldable pub tts_health : TtsServiceSettings → String × Bool
tts_health config = (
  if has_token config.bearer_token || config.allow_insecure_dev then "ready" else "unarmed",
  not config.allow_insecure_dev,
)

-- `_json_object`
unfoldable pub json_object : Option Json → Checked Fields
json_object none = refuse 400 "invalid_json"
json_object (some (obj payload)) = pass payload
json_object (some _) = refuse 400 "invalid_request_body"

-- A text that is not blank.
abbrev spoken_text : Option Json → Option String
spoken_text (some (str s)) = if is_blank (strip s) then none else some s
spoken_text _ = none

abbrev is_null : Option Json → Bool
is_null none = true
is_null (some null) = true
is_null _ = false

abbrev or_refuse {ℓ} : {A : Type ℓ} → Option A → ℕ → String → Checked A
or_refuse none status code = refuse status code
or_refuse (some a) status code = pass a

abbrev voice : String → String → VoiceRef
voice voice_id language_code = record {
  voice_id = strip voice_id;
  language_code = strip language_code;
}

unfoldable pub language_of : Fields → Checked String
language_of payload =
    if is_null (get "languageCode" payload)
    then pass "en-US"
    else or_refuse (spoken_text (get "languageCode" payload)) 400 "invalid_language_code"

unfoldable pub voice_ref_from_payload : Fields → Checked (Option VoiceRef)
unfolding language_of
voice_ref_from_payload payload = if is_null (get "voiceId" payload) then pass none else do
  voice_id ← or_refuse (spoken_text (get "voiceId" payload)) 400 "invalid_voice_id"
  language ← language_of payload
  pass (some (voice voice_id language))

-- The checks of `synthesize`, up to the run.
unfoldable pub check_synthesis : TtsServiceSettings → Fields → Checked (String × Option VoiceRef)
check_synthesis config payload = do
  text ← or_refuse (spoken_text (get "text" payload)) 400 "missing_text"
  check (leb_ℤ (pos (size text)) config.max_text_chars) 413 "text_too_long"
  voice_ref ← voice_ref_from_payload payload
  pass (text, voice_ref)

abbrev is_pcm_format : Option Json → Bool
is_pcm_format (some (str s)) = str_eq s "pcm_s16le"
is_pcm_format v = is_null v

abbrev is_rate : ℤ → Bool
is_rate (pos n) = n == 24000
is_rate _ = false

abbrev is_pcm_rate : Option Json → Bool
is_pcm_rate (some (int z)) = is_rate z
is_pcm_rate (some (float (some z))) = is_rate z
is_pcm_rate v = is_null v

-- The checks of `compat_synthesize` that are its own.
unfoldable pub check_compat : Fields → Checked (Unit {0})
check_compat payload = do
  check (is_pcm_format (get "format" payload)) 422 "unsupported_format"
  check (is_pcm_rate (get "sample_rate_hz" payload)) 422 "unsupported_sample_rate"

pub record SynthRequest : Type 0 where
  pub compat : Bool
  pub authorization : Option String
  pub body : Option Json

unfoldable pub admit : TtsServiceSettings → SynthRequest → Checked (String × Option VoiceRef)
admit config request = do
  require_tts_bearer config request.authorization
  payload ← json_object request.body
  (if request.compat then check_compat payload else pass tt)
  check_synthesis config payload

-- `_ServiceMetrics`; `by_status` is never spoken_log.
pub record ServiceMetrics : Type 0 where
  pub synth_requests_total : ℕ
  pub synth_completed_total : ℕ
  pub synth_errors_total : ℕ
  pub last_ms_to_first_chunk : Option ℕ
  pub last_total_ms : Option ℕ

pub record TtsService : Type 0 where
  pub metrics : ServiceMetrics
  pub log : List Fields

abbrev pub new_service : TtsService
new_service = record {
  metrics = record {
    synth_requests_total = 0;
    synth_completed_total = 0;
    synth_errors_total = 0;
    last_ms_to_first_chunk = none;
    last_total_ms = none;
  };
  log = [];
}

abbrev stream_blockers : Finish → List String
stream_blockers (adapter_failed name at) = "synthesis_stream_failed" ∷ []
stream_blockers _ = []

-- The blockers of a run, at the end of `pcm_chunks`.
unfoldable pub run_blockers : Finish → SynthesisMetrics → List String
run_blockers finish m = elim (stream_blockers finish) [
  | [] ↦ if m.bytes_out == 0 then "empty_synthesis" ∷ [] else []
  | code ∷ codes ↦ code ∷ codes
]

unfoldable pub count_run : List String → SynthesisMetrics → ServiceMetrics → ServiceMetrics
count_run [] m s = record s {
  last_ms_to_first_chunk = m.ms_to_first_chunk;
  last_total_ms = m.total_ms;
  synth_completed_total = s.synth_completed_total + 1;
}
count_run (code ∷ codes) m s = record s {
  last_ms_to_first_chunk = m.ms_to_first_chunk;
  last_total_ms = m.total_ms;
  synth_errors_total = s.synth_errors_total + 1;
}

-- A text that a header can carry: `str.encode("latin-1")`.
unfoldable pub is_latin_1 : String → Bool
is_latin_1 String.[] = true
is_latin_1 (String.◌∷◌ c s) = ltb (code c) 256 && is_latin_1 s

-- What the adapter and the surroundings do during a run: whether `get_adapter` gives one, and whether
-- the client still takes the start of the response, before the generator's first step.
pub record Run : Type 0 where
  pub run_ref : String
  pub adapter_ready : Bool
  pub begins : Bool
  pub chunks : List Chunk
  pub finish : Finish
  pub disk : Bool

unfoldable pub logged :
    List String → SynthesisMetrics → TtsService → Option (List Fields) → TtsService
logged blockers m service none = service
logged blockers m service (some log) = record {
  metrics = count_run blockers m service.metrics;
  log = log;
}

module _ (audio_seconds_out : ℕ → Json) (adapter : TtsAdapter) (config : TtsServiceSettings) where
  -- The `finally` of `pcm_chunks`; a receipt that cannot be spoken_log leaves the counters as they are.
  unfoldable pub settle_run : Run → SynthesisMetrics → TtsService → TtsService
  settle_run run m service =
      let blockers = run_blockers run.finish m in
      logged blockers m service (
        append_receipt run.disk (build_tts_receipt audio_seconds_out run.run_ref m blockers)
          service.log)

  abbrev start_run : TtsService → TtsService
  start_run service = record service {
    metrics = record service.metrics {
      synth_requests_total = service.metrics.synth_requests_total + 1;
    };
  }

  -- The run of a request that is admitted, or a refusal. It is counted before the headers of the
  -- response are encoded, which raises for a voice, say, that is no Latin-1.
  unfoldable pub answer :
      Checked (String × Option VoiceRef) → Run → TtsService → Checked (List (List ℕ)) × TtsService
  answer (refuse status code) run service = (refuse status code, service)
  answer (pass (text, voice_ref)) run service =
      if not run.adapter_ready
      then (refuse 500 "Internal Server Error", service)
      else if not (
          is_latin_1 run.run_ref
          && (is_latin_1 adapter.adapter_ref
              && is_latin_1 (voice_or_default voice_ref adapter).voice_id))
      then (refuse 500 "Internal Server Error", start_run service)
      else if not run.begins
      then (pass [], start_run service)
      else (
        pass (yielded run.chunks),
        settle_run run (instrument_stream adapter (size text) voice_ref run.chunks run.finish)
            (start_run service),
      )

  -- A request for speech: the chunks that are sent, or a refusal, and the service after.
  unfoldable pub synthesize : SynthRequest → Run → TtsService → Checked (List (List ℕ)) × TtsService
  synthesize request run service = answer (admit config request) run service

  unfoldable pub serve : List (SynthRequest × Run) → TtsService → TtsService
  serve [] service = service
  serve ((request, run) ∷ calls) service = serve calls (synthesize request run service).1
