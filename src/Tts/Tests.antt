-- ===== src/Tts/Tests.antt =====
-- Examples for hydralisk/tts.
use hydralisk.Prelude.{ℕ, ◌≡◌, refl, Bool, true, false, none, some, List, [], ◌∷◌}
use hydralisk.Prelude.Int.{pos}
use hydralisk.Text.{strip}
use hydralisk.Json.{null, str, obj, end, field, get}
use hydralisk.Tts.Normalize.{
  Text, punctuated, spelled, codes, normalize_spoken, speak_words, speak_word, heuristic_spell_out,
}
use hydralisk.Tts.Normalize.Words.{speak_words_idem}
use hydralisk.Tts.Seam.{
  VoiceRef, TtsAdapter, exhausted, adapter_failed, disconnected, Chunk, instrument_stream,
  measure_chunk,
}
use hydralisk.Tts.Seam.Measured.{IsMeasured, instrument_stream-IsMeasured}
use hydralisk.Tts.Settings.{TtsServiceSettings}
use hydralisk.Tts.Service.{
  pass, SynthRequest, Run, new_service, admit, require_tts_bearer, json_object, check_synthesis,
  check_compat, voice_ref_from_payload, serve, synthesize, answer, settle_run, logged, run_blockers,
  count_run, is_latin_1,
}
use hydralisk.Tts.Service.Admits.{MayAsk, Says, IsSpeakable, admit-IsSpeakable}
use hydralisk.Tts.Service.Runs.{IsSound, lost, serve-IsSound}
use hydralisk.Tts.Receipts.{append_receipt, has_forbidden, build_tts_receipt}

abbrev ascii_only : ℕ → Bool
ascii_only c = false

abbrev sample : Text
sample = codes "Our API, ERP and US AI.. at OpenAgents.com"

spoken :
    normalize_spoken ascii_only punctuated sample
    ≡ codes "Our A.P.I., E.R.P. and US A.I... at open agents dot com"
unfolding normalize_spoken speak_word heuristic_spell_out
spoken = refl

speak_words_idem_example :
    speak_words spelled [] (speak_words spelled [] sample) ≡ speak_words spelled [] sample
speak_words_idem_example = speak_words_idem spelled sample

abbrev sulafat : VoiceRef
sulafat = record { voice_id = "en-US-Chirp3-HD-Sulafat"; language_code = "en-US" }

abbrev adapter : TtsAdapter
adapter = record { adapter_ref = "chirp3hd"; default_voice = sulafat }

abbrev chunks : List Chunk
chunks = (1 ∷ 2 ∷ [], 40) ∷ ([], 50) ∷ (3 ∷ 4 ∷ [], 60) ∷ []

instrument_stream-IsMeasured_example :
    IsMeasured chunks (instrument_stream adapter 5 none chunks (adapter_failed "RuntimeError" 70))
instrument_stream-IsMeasured_example =
    instrument_stream-IsMeasured adapter 5 none chunks (adapter_failed "RuntimeError" 70)

abbrev config : TtsServiceSettings
config = record {
  adapter_name = "chirp3hd";
  bearer_token = some "secret";
  allow_insecure_dev = false;
  receipt_path = ".hydralisk/tts-receipts.jsonl";
  max_text_chars = pos 4000;
}

abbrev hello : SynthRequest
hello = record {
  compat = true;
  authorization = some "Bearer secret";
  body = some (obj (field "text" (str "hello") (field "format" (str "pcm_s16le") end)));
}

hello_admitted : admit config hello ≡ pass ("hello", none)
unfolding admit require_tts_bearer json_object check_compat check_synthesis voice_ref_from_payload
    strip get
hello_admitted = refl

admit-IsSpeakable_example :
    MayAsk (some "secret") false (some "Bearer secret")
    × Says hello.body "hello"
    × IsSpeakable config "hello"
admit-IsSpeakable_example = admit-IsSpeakable config hello "hello" none hello_admitted

abbrev gone : Run
gone = record {
  adapter_ready = true;
  begins = true;
  run_ref = "run-1";
  chunks = chunks;
  finish = disconnected;
  disk = true;
}

abbrev full : Run
full = record {
  adapter_ready = true;
  begins = true;
  run_ref = "run-2";
  chunks = chunks;
  finish = exhausted 90;
  disk = false;
}

abbrev silent : Run
silent = record {
  adapter_ready = true;
  begins = true;
  run_ref = "run-3";
  chunks = [];
  finish = exhausted 9;
  disk = true;
}

-- A voice that no header can carry.
abbrev hello_kanji : SynthRequest
hello_kanji = record {
  compat = false;
  authorization = some "Bearer secret";
  body = some (obj (field "text" (str "hello") (field "voiceId" (str "声") end)));
}

kanji_lost : serve (λ n. null) adapter config ((hello_kanji, silent) ∷ []) new_service ≡ record {
  log = [];
  metrics = record {
    synth_requests_total = 1;
    synth_completed_total = 0;
    synth_errors_total = 0;
    last_ms_to_first_chunk = none;
    last_total_ms = none;
  };
}
unfolding serve synthesize answer admit require_tts_bearer json_object check_compat check_synthesis
    voice_ref_from_payload strip get is_latin_1
kanji_lost = refl

abbrev calls : List (SynthRequest × Run)
calls = (hello, gone) ∷ (hello, full) ∷ (hello, silent) ∷ []

serve-IsSound_example :
    IsSound (lost adapter config calls) (serve (λ n. null) adapter config calls new_service)
serve-IsSound_example = serve-IsSound (λ n. null) adapter config calls

-- A run that the client left counts as completed.
gone_completed :
    (serve
      (λ n. null)
      adapter
      config
      ((hello, gone) ∷ [])
      new_service).metrics.synth_completed_total
    ≡ 1
unfolding serve synthesize answer admit require_tts_bearer json_object check_compat check_synthesis
    voice_ref_from_payload strip get settle_run logged run_blockers count_run append_receipt
    has_forbidden build_tts_receipt instrument_stream measure_chunk is_latin_1
gone_completed = refl
