-- ===== src/Serve/Chat/Tests.antt =====
-- Examples for hydralisk/serve/proxy.py: requests.
use hydralisk.Prelude.{true, false, ◌&&◌, none, some, [], ◌∷◌}
use hydralisk.Prelude.Int.{pos}
use hydralisk.Json.{int, obj, end, field}
use hydralisk.Serve.Settings.{HydraliskSettings}
use hydralisk.Serve.Gate.{make_gate, acquire}
use hydralisk.Serve.Metrics.{new_metrics}
use hydralisk.Serve.Receipts.{is_run_ref}
use hydralisk.Serve.Chat.{Admission, parsed, Reply, Proxy, stream_to_upstream, flows}
use hydralisk.Serve.Chat.Flow.{SettlesAs, stream_to_upstream-SettlesAs}

abbrev lane : HydraliskSettings
lane = record {
  served_model = "openai/gpt-oss-20b";
  public_model_aliases = "khala" ∷ [];
  bearer_token = none;
  allow_insecure_dev = true;
  engine_version = "0.9";
  model_revision = "r1";
  model_profile_ref = none;
  container_image = none;
  admission_ref = none;
  evidence_ref = none;
  model_policy = "standard";
  authorized_security_scope_ids = [];
  authorized_security_tool_policies = [];
  authorized_security_network_policies = [];
  receipt_dir = ".hydralisk/receipts";
  require_profile_evidence = false;
  default_min_p = none;
  default_repetition_penalty = none;
  default_max_tokens = none;
  default_enable_thinking = none;
}

abbrev admission : Admission
admission = record {
  run_ref = "hydralisk-run-0123456789abcdef0123456789abcdef";
  admitted_model = "khala";
  policy_context = none;
  config = lane;
  loads = λ _. none;
}

-- A completion that says how many tokens it took, but not how many in all.
abbrev completion : Reply
completion = record {
  status_code = 200;
  body = parsed (
      obj (
        field "usage"
          (obj (field "prompt_tokens" (int (pos 3)) (field "completion_tokens" (int (pos 4)) end)))
          end));
}

abbrev proxy : Proxy
proxy = record {
  gate = (acquire false 0 (make_gate (some 1) 0)).1;
  metrics = new_metrics;
  files = [];
}

-- The disk is full when a stream ends.
stream_to_upstream-SettlesAs_example :
    SettlesAs
      (flows 200 (some 5) [])
      (is_run_ref admission.run_ref && false)
      proxy
      0
      (stream_to_upstream "responses" admission false 20 (flows 200 (some 5) []) 0 proxy)
stream_to_upstream-SettlesAs_example =
    stream_to_upstream-SettlesAs "responses" admission false 20 (flows 200 (some 5) []) 0 proxy
