-- ===== src/Serve/Settings.antt =====
-- hydralisk/serve/config.py: the settings of a lane that decide what it admits and sends upstream.
-- The float settings are JSON numbers that are only passed on.
use hydralisk.Prelude.{String, Bool, false, Option, some, List, ◌∷◌}
use hydralisk.Text.{is_in}
use hydralisk.Json.{Json, str}

pub record HydraliskSettings : Type 0 where
  pub served_model : String
  pub public_model_aliases : List String
  pub bearer_token : Option String
  pub allow_insecure_dev : Bool
  pub engine_version : String
  pub model_revision : String
  pub model_profile_ref : Option String
  pub container_image : Option String
  pub admission_ref : Option String
  pub evidence_ref : Option String
  pub model_policy : String
  pub authorized_security_scope_ids : List String
  pub authorized_security_tool_policies : List String
  pub authorized_security_network_policies : List String
  pub receipt_dir : String
  pub require_profile_evidence : Bool
  pub default_min_p : Option Json
  pub default_repetition_penalty : Option Json
  pub default_max_tokens : Option Json
  pub default_enable_thinking : Option Bool

abbrev pub supported_models : HydraliskSettings → List String
supported_models config = config.served_model ∷ config.public_model_aliases

unfoldable pub is_supported_model : Option Json → HydraliskSettings → Bool
is_supported_model (some (str s)) config = is_in s (supported_models config)
is_supported_model _ config = false
