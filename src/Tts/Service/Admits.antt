-- ===== src/Tts/Service/Admits.antt =====
-- Which requests hydralisk/tts/service.py admits, and what their receipts say.
use Prim.Native.String.{◌++◌ as append_text}
use hydralisk.Prelude.{
  ℕ, ◌≡◌, ap, refl, subst, String, Bool, true, false, Option, none, some, eq_iff, if◌then◌else◌,
  if_cases,
}
use hydralisk.Prelude.Int.{pos, leb_ℤ}
use hydralisk.Text.{is_blank, strip, size}
use hydralisk.Json.{Json, Fields, null, bool, int, float, arr, str, obj, get}
use hydralisk.Tts.Seam.{VoiceRef}
use hydralisk.Tts.Settings.{TtsServiceSettings}
use hydralisk.Tts.Service.{
  Checked, pass, refuse, SynthRequest, require_tts_bearer, json_object, voice_ref_from_payload,
  check_synthesis, check_compat, admit, ◌>>=◌, check, or_refuse, spoken_text, bearer_is,
  check_bearer,
}

-- A property of what passes.
abbrev pub Passes {ℓ κ} : {A : Type ℓ} → (A → Type κ) → Checked A → Type κ
Passes P (pass a) = P a
Passes P (refuse status code) = Unit

Passes-bind {ℓ κ μ} :
    {A : Type ℓ} {B : Type κ} (P : B → Type μ) (m : Checked A) (f : A → Checked B)
    → ((a : A) → m ≡ pass a → Passes P (f a))
    → Passes P (m >>= f)
Passes-bind P (pass a) f h = h a refl
Passes-bind P (refuse status code) f h = tt

Passes_pass {ℓ κ} :
    {A : Type ℓ} (P : A → Type κ) (m : Checked A) (a : A) → Passes P m → m ≡ pass a → P a
Passes_pass P (pass b) a h e = subst (λ m. Passes P m) e h
Passes_pass P (refuse status code) a h e = absurd (cc)

Passes-mono {ℓ κ μ} :
    {A : Type ℓ} (P : A → Type κ) {Q : A → Type μ} (m : Checked A)
    → ((a : A) → P a → Q a)
    → Passes P m
    → Passes Q m
Passes-mono P (pass a) f h = f a h
Passes-mono P (refuse status code) f h = tt

-- The sender knows the lane's token, or the lane has none and is marked insecure.
abbrev pub MayAsk : Option String → Bool → Option String → Type 0
MayAsk none allow_insecure_dev authorization = allow_insecure_dev ≡ true
MayAsk (some token) allow_insecure_dev authorization =
    authorization ≡ some (append_text "Bearer " token)

-- A text that is not blank and not too long.
abbrev pub IsSpeakable : TtsServiceSettings → String → Type 0
IsSpeakable config text =
    (is_blank (strip text) ≡ false) × (leb_ℤ (pos (size text)) config.max_text_chars ≡ true)

check_lem : (b : Bool) (status : ℕ) (code : String) → Passes (λ _. b ≡ true) (check b status code)
check_lem true status code = refl
check_lem false status code = tt

bearer_is_lem :
    (authorization : Option String) (expected : String)
    → bearer_is authorization expected ≡ true
    → authorization ≡ some expected
bearer_is_lem none expected h = absurd (cc)
bearer_is_lem (some header) expected h = ap some ((eq_iff header expected).0 h)

spoken_text_lem :
    (v : Option Json) (status : ℕ) (code : String)
    → Passes
        (λ t. (v ≡ some (str t)) × (is_blank (strip t) ≡ false))
        (or_refuse (spoken_text v) status code)
spoken_text_lem none status code = tt
spoken_text_lem (some (str s)) status code =
    if_cases
      (λ o.
        Passes (λ t. (some (str s) ≡ some (str t)) × (is_blank (strip t) ≡ false))
          (or_refuse o status code))
      (is_blank (strip s)) _ _ (λ _. tt) (λ e. (refl, e))
spoken_text_lem (some null) status code = tt
spoken_text_lem (some (bool b)) status code = tt
spoken_text_lem (some (int z)) status code = tt
spoken_text_lem (some (float z)) status code = tt
spoken_text_lem (some (arr vs)) status code = tt
spoken_text_lem (some (obj vs)) status code = tt

check_bearer-MayAsk :
    (bearer_token : Option String) (allow_insecure_dev : Bool) (authorization : Option String)
    → Passes
        (λ _. MayAsk bearer_token allow_insecure_dev authorization)
        (check_bearer bearer_token allow_insecure_dev authorization)
check_bearer-MayAsk none allow_insecure_dev authorization = check_lem allow_insecure_dev _ _
check_bearer-MayAsk (some token) allow_insecure_dev authorization =
    Passes-mono _ _ (λ _ h. bearer_is_lem authorization (append_text "Bearer " token) h)
      (check_lem _ 401 "unauthorized")

check_synthesis-IsSpeakable :
    (config : TtsServiceSettings) (payload : Fields)
    → Passes
        (λ r. (get "text" payload ≡ some (str r.0)) × IsSpeakable config r.0)
        (check_synthesis config payload)
unfolding check_synthesis
check_synthesis-IsSpeakable config payload =
    Passes-bind P (or_refuse (spoken_text (get "text" payload)) 400 "missing_text") _ λ text et.
      Passes-bind P (check (leb_ℤ (pos (size text)) config.max_text_chars) 413 "text_too_long") _
        λ u ec. Passes-bind P (voice_ref_from_payload payload) _ λ v ev.
          let said =
            Passes_pass (λ t. (get "text" payload ≡ some (str t)) × (is_blank (strip t) ≡ false)) _
              text (spoken_text_lem (get "text" payload) 400 "missing_text") et in
          (
            said.0,
            (
              said.1,
              Passes_pass (λ _. leb_ℤ (pos (size text)) config.max_text_chars ≡ true) _ u
                  (check_lem _ 413 "text_too_long") ec,
            ),
          )
  where
    P : String × Option VoiceRef → Type 0
    P r = (get "text" payload ≡ some (str r.0)) × IsSpeakable config r.0

json_object_lem :
    (body : Option Json) → Passes (λ payload. body ≡ some (obj payload)) (json_object body)
unfolding json_object
json_object_lem none = tt
json_object_lem (some (obj vs)) = refl
json_object_lem (some null) = tt
json_object_lem (some (bool b)) = tt
json_object_lem (some (int z)) = tt
json_object_lem (some (float z)) = tt
json_object_lem (some (arr vs)) = tt
json_object_lem (some (str s)) = tt

-- The body is an object whose `text` is the text.
abbrev pub Says : Option Json → String → Type 0
Says body text =
    (payload : Fields) × (body ≡ some (obj payload)) × (get "text" payload ≡ some (str text))

-- A request for speech that is admitted carries the lane's token, or the lane has none and is marked
-- insecure; its body is a JSON object whose `text` is the text to be spoken; and that text is not
-- blank and within the limit.
pub admit-IsSpeakable :
    (config : TtsServiceSettings) (request : SynthRequest) (text : String)
    (voice_ref : Option VoiceRef)
    → admit config request ≡ pass (text, voice_ref)
    → MayAsk config.bearer_token config.allow_insecure_dev request.authorization
      × Says request.body text
      × IsSpeakable config text
unfolding admit require_tts_bearer
admit-IsSpeakable config request text voice_ref e =
    Passes_pass P _ (text, voice_ref)
      (Passes-bind P (require_tts_bearer config request.authorization) _ λ u eu.
        Passes-bind P (json_object request.body) _ λ payload ep.
          Passes-bind P (if request.compat then check_compat payload else pass tt) _ λ v ev.
            Passes-mono (λ r. (get "text" payload ≡ some (str r.0)) × IsSpeakable config r.0)
              (check_synthesis config payload)
              (λ _ h. (asked u eu, (payload, said payload ep, h.0), h.1))
              (check_synthesis-IsSpeakable config payload))
      e
  where
    asked :
        (u : Unit {0})
        → require_tts_bearer config request.authorization ≡ pass u
        → MayAsk config.bearer_token config.allow_insecure_dev request.authorization
    asked u eu =
        Passes_pass
          (λ _. MayAsk config.bearer_token config.allow_insecure_dev request.authorization) _ u
          (check_bearer-MayAsk config.bearer_token config.allow_insecure_dev request.authorization)
          eu

    said :
        (payload : Fields)
        → json_object request.body ≡ pass payload
        → request.body ≡ some (obj payload)
    said payload ep =
        Passes_pass (λ q. request.body ≡ some (obj q)) (json_object request.body) payload
          (json_object_lem request.body) ep

    P : String × Option VoiceRef → Type 0
    P r =
        MayAsk config.bearer_token config.allow_insecure_dev request.authorization
        × Says request.body r.0
        × IsSpeakable config r.0
