-- ===== src/Tts/Receipts.antt =====
-- hydralisk/tts/receipts.py: the receipt of a synthesis, and the log that it is appended to.
-- The log is the list of its lines. What raises in the code, the disk included, is `none`.
use hydralisk.Prelude.{
  ℕ, String, Bool, true, false, not, ◌||◌, Option, none, some, List, [], ◌∷◌, ◌++◌, str_eq,
  if◌then◌else◌,
}
use hydralisk.Text.{is_in}
use hydralisk.Json.{Json, Items, Fields, bool, str, arr, obj, nil, cons, end, field, get}
use hydralisk.Tts.Seam.{SynthesisMetrics, public_safe}

-- `_FORBIDDEN_RECEIPT_KEYS`
abbrev pub forbidden_receipt_keys : List String
forbidden_receipt_keys = "text" ∷ "promptText" ∷ "promptWav" ∷ "token" ∷ "authorization" ∷ []

unfoldable pub has_forbidden : Fields → Bool
has_forbidden end = false
has_forbidden (field key v rest) = is_in key forbidden_receipt_keys || has_forbidden rest

-- `TtsReceiptLog.append`; `disk` tells whether the file can be spoken_log.
unfoldable pub append_receipt : Bool → Fields → List Fields → Option (List Fields)
append_receipt disk receipt log =
    if has_forbidden receipt || not disk then none else some (log ++ receipt ∷ [])

abbrev blocker_of : String → Json
blocker_of code = obj (field "code" (str code) end)

abbrev blockers_of : List String → Items
blockers_of [] = nil
blockers_of (code ∷ codes) = cons (blocker_of code) (blockers_of codes)

-- `build_tts_receipt`, without the time; a blocker is its code, without the message.
unfoldable pub build_tts_receipt : (ℕ → Json) → String → SynthesisMetrics → List String → Fields
unfolding public_safe
build_tts_receipt audio_seconds_out run_ref m blockers =
    field "schema" (str "hydralisk.tts.run_receipt.v1") (
      field "runRef" (str run_ref) (
        public_safe audio_seconds_out m
          (field "publicSafe" (bool true) (field "blockers" (arr (blockers_of blockers)) end))))

abbrev is_run : String → Option Json → Bool
is_run s (some (str t)) = str_eq s t
is_run s _ = false

-- The receipt route: the first receipt of a run.
unfoldable pub find_receipt : String → List Fields → Option Fields
find_receipt run_ref [] = none
find_receipt run_ref (r ∷ log) =
    let rest = find_receipt run_ref log in if is_run run_ref (get "runRef" r) then some r else rest
