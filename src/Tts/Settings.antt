-- ===== src/Tts/Settings.antt =====
-- hydralisk/tts/service.py: the settings of the lane, read from the environment.
-- `env` is `os.environ.get(name, "")`, `read_int` is `int` of a text, `none` where it raises.
use hydralisk.Prelude.{String, Bool, ◌||◌, Option, none, some, if◌then◌else◌, ◌>>=◌}
use hydralisk.Prelude.Int.{ℤ}
use hydralisk.Text.{is_blank, strip, lower, reads_as}

pub record TtsServiceSettings : Type 0 where
  pub adapter_name : String
  pub bearer_token : Option String
  pub allow_insecure_dev : Bool
  pub receipt_path : String
  pub max_text_chars : ℤ

-- `text or other`
abbrev text_or : String → String → String
text_or text other = if is_blank text then other else text

abbrev text_or_none : String → Option String
text_or_none text = if is_blank text then none else some text

unfoldable pub flag : (String → String) → String → Bool
flag env name =
    let value = strip (env name) in
    reads_as lower value "1"
    || reads_as lower value "true"
    || reads_as lower value "yes"
    || reads_as lower value "on"

unfoldable pub load_tts_settings :
    (String → Option ℤ) → (String → String) → Option TtsServiceSettings
unfolding flag
load_tts_settings read_int env = do
  max_text_chars ← read_int (text_or (strip (env "HYDRALISK_TTS_MAX_TEXT_CHARS")) "4000")
  some (record {
    adapter_name = text_or (strip (env "HYDRALISK_TTS_ADAPTER")) "chirp3hd";
    bearer_token = text_or_none (strip (env "HYDRALISK_TTS_BEARER_TOKEN"));
    allow_insecure_dev = flag env "HYDRALISK_TTS_ALLOW_INSECURE_DEV";
    receipt_path =
        text_or (strip (env "HYDRALISK_TTS_RECEIPT_PATH")) ".hydralisk/tts-receipts.jsonl";
    max_text_chars = max_text_chars;
  })
