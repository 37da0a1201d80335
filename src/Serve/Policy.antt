-- ===== src/Serve/Policy.antt =====
-- hydralisk/serve/proxy.py: who may use a lane: bearer token, model, profile evidence, and the
-- authorized-security policy. A refusal is the error code; its status is `status_of`.
pub mod Admits
pub mod Tests
use hydralisk.Prelude.{
  ℕ, String, Bool, true, false, not, ◌&&◌, ◌||◌, Option, none, some, List, [], ◌∷◌, ◌++◌, str_eq,
  if◌then◌else◌,
}
use hydralisk.Json.{Json, Fields, str, obj, get}
use hydralisk.Text.{strip, is_blank, is_in}
use hydralisk.Serve.Settings.{HydraliskSettings, is_supported_model}

pub data Denial : Type 0 where
  proxy_unarmed unauthorized unsupported_model profile_evidence_incomplete : Denial
  metadata_required metadata_incomplete scope_not_allowed tool_policy_not_allowed : Denial
  network_policy_not_allowed : Denial

pub data Admitted {ℓ} (A : Type ℓ) : Type ℓ where
  admitted : A → Admitted A
  denied : Denial → Admitted A

infixl 5 ◌>>=◌ ◌>>◌
abbrev pub ◌>>=◌ {ℓ κ} : {A : Type ℓ} {B : Type κ} → Admitted A → (A → Admitted B) → Admitted B
admitted a >>= f = f a
denied d >>= f = denied d

abbrev pub ◌>>◌ {ℓ} : {B : Type ℓ} → Admitted (Unit {0}) → Admitted B → Admitted B
m >> k = m >>= λ _. k

abbrev pub deny_if : Bool → Denial → Admitted (Unit {0})
deny_if true d = denied d
deny_if false d = admitted tt

unfoldable pub status_of : Denial → ℕ
status_of proxy_unarmed = 503
status_of profile_evidence_incomplete = 503
status_of unauthorized = 401
status_of unsupported_model = 400
status_of _ = 403

abbrev pub is_none {ℓ} : {A : Type ℓ} → Option A → Bool
is_none none = true
is_none (some a) = false

-- `headers.get("authorization") != f"Bearer {token}"`; `bearer` is the text behind `Bearer `.
abbrev pub header_is : Option String → String → Bool
header_is none token = false
header_is (some bearer) token = str_eq bearer token

abbrev check_token : Option String → Option String → Admitted (Unit {0})
check_token bearer none = admitted tt
check_token bearer (some token) = deny_if (not (header_is bearer token)) unauthorized

unfoldable pub require_bearer : Option String → HydraliskSettings → Admitted (Unit {0})
require_bearer bearer config =
    if is_none config.bearer_token && not config.allow_insecure_dev
    then denied proxy_unarmed
    else check_token bearer config.bearer_token

-- `str(requested_model)`, of a model that is supported.
abbrev pub text_of : Option Json → String
text_of (some (str s)) = s
text_of _ = ""

unfoldable pub admit_model : Fields → HydraliskSettings → Admitted String
admit_model payload config =
    if is_supported_model (get "model" payload) config
    then admitted (text_of (get "model" payload))
    else denied unsupported_model

abbrev pub is_falsy : Option String → Bool
is_falsy none = true
is_falsy (some s) = is_blank s

abbrev pub blocker_if : Bool → String → List String
blocker_if true code = code ∷ []
blocker_if false code = []

-- The codes of the blockers.
unfoldable pub readiness_blockers : HydraliskSettings → List String
readiness_blockers config =
    if not config.require_profile_evidence
    then []
    else blocker_if (str_eq config.model_revision "unknown_model_revision") "unknown_model_revision"
      ++ (blocker_if (str_eq config.engine_version "unknown_engine_version")
            "unknown_engine_version"
          ++ (blocker_if (is_falsy config.model_profile_ref) "missing_model_profile_ref"
              ++ (blocker_if (is_falsy config.container_image) "missing_container_image"
                  ++ (blocker_if (is_falsy config.admission_ref) "missing_admission_ref"
                      ++ (blocker_if (is_falsy config.evidence_ref) "missing_evidence_ref"
                          ++ blocker_if (is_blank (strip config.receipt_dir))
                              "missing_receipt_dir")))))

abbrev pub no_blockers : List String → Bool
no_blockers [] = true
no_blockers (b ∷ bs) = false

unfoldable pub require_ready : HydraliskSettings → Admitted (Unit {0})
require_ready config =
    deny_if (not (no_blockers (readiness_blockers config))) profile_evidence_incomplete

pub data Health : Type 0 where
  blocked ready unarmed : Health

-- `config.bearer_token or config.allow_insecure_dev`
unfoldable pub health : HydraliskSettings → Health
health config =
    if not (no_blockers (readiness_blockers config))
    then blocked
    else if not (is_falsy config.bearer_token) || config.allow_insecure_dev
    then ready
    else unarmed

pub record PolicyContext : Type 0 where
  pub scope_id : String
  pub authorization_ref : String
  pub tool_policy : String
  pub network_policy : String

-- A text that is not blank, stripped.
abbrev pub policy_text : Option Json → Option String
policy_text (some (str s)) = if is_blank (strip s) then none else some (strip s)
policy_text _ = none

abbrev pub first_of : Option String → Admitted String → Admitted String
first_of none rest = rest
first_of (some s) rest = admitted s

unfoldable pub required_policy_string : Fields → List String → Admitted String
required_policy_string source [] = denied metadata_incomplete
required_policy_string source (key ∷ keys) =
    let rest = required_policy_string source keys in first_of (policy_text (get key source)) rest

abbrev pub fields? : Option Json → Option Fields
fields? (some (obj fields)) = some fields
fields? _ = none

-- `None` both for a missing key and for `null`.
abbrev pub or_get : Option Json → Option Json → Option Json
or_get none other = other
or_get (some Json.null) other = other
or_get (some v) other = some v

abbrev pub context_in : Option Fields → Option Json
context_in none = none
context_in (some metadata) =
    or_get (get "hydraliskAuthorizedSecurity" metadata)
      (get "hydralisk_authorized_security" metadata)

abbrev pub security_context : Fields → Option Fields
security_context payload = fields? (context_in (fields? (get "metadata" payload)))

-- A list that is configured and lacks the value.
abbrev pub excludes : List String → String → Bool
excludes [] s = false
excludes (x ∷ xs) s = not (is_in s (x ∷ xs))

abbrev or_deny {ℓ} : {A : Type ℓ} → Option A → Denial → Admitted A
or_deny none d = denied d
or_deny (some a) d = admitted a

abbrev pub check_policy : Fields → HydraliskSettings → Admitted PolicyContext
check_policy context config = do
  scope_id ← required_policy_string context ("scopeId" ∷ "scope_id" ∷ [])
  authorization_ref ←
      required_policy_string context
        ("authorizationRef" ∷ "authorization_ref" ∷ "labRunId" ∷ "lab_run_id" ∷ [])
  tool_policy ← required_policy_string context ("toolPolicy" ∷ "tool_policy" ∷ [])
  network_policy ← required_policy_string context ("networkPolicy" ∷ "network_policy" ∷ [])
  deny_if (excludes config.authorized_security_scope_ids scope_id) scope_not_allowed
  deny_if (excludes config.authorized_security_tool_policies tool_policy) tool_policy_not_allowed
  deny_if (excludes config.authorized_security_network_policies network_policy)
      network_policy_not_allowed
  admitted (record {
    scope_id = scope_id;
    authorization_ref = authorization_ref;
    tool_policy = tool_policy;
    network_policy = network_policy;
  })

abbrev pub admit_context : Option Fields → HydraliskSettings → Admitted (Option PolicyContext)
admit_context none config = denied metadata_required
admit_context (some context) config = do
  admission ← check_policy context config
  admitted (some admission)

-- `none` is a lane without a policy.
unfoldable pub admit_policy : Fields → HydraliskSettings → Admitted (Option PolicyContext)
admit_policy payload config =
    if str_eq config.model_policy "authorized_security_lab_only"
    then admit_context (security_context payload) config
    else admitted none
