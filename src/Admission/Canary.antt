-- ===== src/Admission/Canary.antt =====
-- hydralisk/admission/deepseek_v4_fable.py: the load canary of an adapter and the decision of its lab
-- evaluation. What a report copies, the messages, and the metrics that are always empty are left out.
use hydralisk.Prelude.{
  String, Bool, false, ◌&&◌, ◌≡◌, sym, some, List, [], ◌∷◌, ◌++◌, str_eq, if◌then◌else◌,
}
use hydralisk.Json.{Json, Fields}
use hydralisk.Admission.Targets.{CompatibilityReport, build_report}
use hydralisk.Admission.Retarget.{build_retarget_plan_report}
use hydralisk.Admission.Retarget.Ready.{is_ready, build_retarget_plan_report-build_report}

pub data CanaryBlocker : Type 0 where
  adapter_runtime_targets_missing : List String → CanaryBlocker
  lab_eval_metrics_missing : CanaryBlocker

pub data CanaryStatus : Type 0 where
  ready_for_load_canary : CanaryStatus
  blocked_adapter_incompatible : CanaryStatus

pub record LoadCanaryReport : Type 0 where
  pub status : CanaryStatus
  pub missing_targets : List String
  pub attempted : Bool
  pub blockers : List CanaryBlocker
  pub can_attempt : Bool

-- The load is not attempted here: the report comes before it.
unfoldable pub build_load_canary_report : CompatibilityReport → LoadCanaryReport
build_load_canary_report report =
    let can_attempt = report.can_attempt_private_adapter_load in
    record {
      status = if can_attempt then ready_for_load_canary else blocked_adapter_incompatible;
      missing_targets = report.missing_targets_list;
      attempted = false;
      blockers =
          if can_attempt
          then []
          else adapter_runtime_targets_missing report.missing_targets_list ∷ [];
      can_attempt = can_attempt;
    }

pub data LabStatus : Type 0 where
  rejected_quality_or_safety_gate_failed : LabStatus
  rejected_runtime_unstable : LabStatus

pub record LabEvalReport : Type 0 where
  pub status : LabStatus
  pub load_canary_attempted : Bool
  pub can_attempt_load : Bool
  pub unscoped_requests_blocked : Bool
  pub attempted : Bool
  pub blockers : List CanaryBlocker

unfoldable pub build_lab_eval_report : LoadCanaryReport → String → LabEvalReport
build_lab_eval_report report policy_status =
    let attempted = report.can_attempt && report.attempted in
    record {
      status =
          if attempted then rejected_quality_or_safety_gate_failed else rejected_runtime_unstable;
      load_canary_attempted = report.attempted;
      can_attempt_load = report.can_attempt;
      unscoped_requests_blocked = str_eq policy_status "policy_harness_implemented_fail_closed";
      attempted = attempted;
      blockers =
          if attempted then report.blockers ++ lab_eval_metrics_missing ∷ [] else report.blockers;
    }

-- An adapter's load canary may be attempted exactly if its retarget plan is ready.
pub can_attempt-build_load_canary_report :
    (print : Json → String) (adapter_config : Fields) (runtime_modules : List String)
    (report : CompatibilityReport)
    → build_report print adapter_config runtime_modules ≡ some report
    → (build_load_canary_report report).can_attempt
      ≡ is_ready (build_retarget_plan_report report).status
unfolding build_load_canary_report
can_attempt-build_load_canary_report print adapter_config runtime_modules report e =
    sym (build_retarget_plan_report-build_report print adapter_config runtime_modules report e)
