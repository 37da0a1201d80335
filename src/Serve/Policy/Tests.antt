-- ===== src/Serve/Policy/Tests.antt =====
-- Examples for hydralisk/serve/proxy.py: admission.
use hydralisk.Prelude.{◌≡◌, refl, true, false, none, some, [], ◌∷◌}
use hydralisk.Json.{Fields, str, obj, end, field, get}
use hydralisk.Text.{strip}
use hydralisk.Serve.Settings.{HydraliskSettings}
use hydralisk.Serve.Policy.{admit_policy, admitted, PolicyContext, required_policy_string}
use hydralisk.Serve.Policy.Admits.{Follows, admit_policy-Follows}

abbrev lab : HydraliskSettings
lab = record {
  served_model = "openai/gpt-oss-20b";
  public_model_aliases = "khala" ∷ [];
  bearer_token = some "secret";
  allow_insecure_dev = false;
  engine_version = "0.9";
  model_revision = "r1";
  model_profile_ref = some "profile";
  container_image = some "image";
  admission_ref = some "admission";
  evidence_ref = none;
  model_policy = "authorized_security_lab_only";
  authorized_security_scope_ids = "s1" ∷ [];
  authorized_security_tool_policies = [];
  authorized_security_network_policies = "offline" ∷ [];
  receipt_dir = ".hydralisk/receipts";
  require_profile_evidence = true;
  default_min_p = none;
  default_repetition_penalty = none;
  default_max_tokens = none;
  default_enable_thinking = none;
}

abbrev lab_request : Fields
lab_request =
    field "metadata"
      (obj (
        field "hydraliskAuthorizedSecurity"
          (obj (
            field "scopeId" (str " s1 ") (
              field "labRunId" (str "run 7") (
                field "toolPolicy" (str "read_only")
                  (field "network_policy" (str "offline") end)))))
          end))
      end

abbrev lab_context : PolicyContext
lab_context = record {
  scope_id = "s1";
  authorization_ref = "run 7";
  tool_policy = "read_only";
  network_policy = "offline";
}

admit-lab_request : admit_policy lab_request lab ≡ admitted (some lab_context)
unfolding admit_policy required_policy_string strip get
admit-lab_request = refl

admit_policy-Follows_example : Follows lab_request lab (some lab_context)
admit_policy-Follows_example =
    admit_policy-Follows lab_request lab (some lab_context) admit-lab_request
