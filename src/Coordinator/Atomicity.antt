-- ===== src/Coordinator/Atomicity.antt =====
-- The transactions of coordinator.rs are atomic: the committed database changes only with the
-- outcome `Applied`.
use ratatoskr_channel_digest.Prelude.{
  ℕ, String, Bool, true, false, Option, none, some, List, [], ◌∷◌,
}
use ratatoskr_channel_digest.Contracts.{
  Bytes, RecapRequested, RecapCompleted, RecapFailed, OutputLanguage, External,
}
use ratatoskr_channel_digest.Schema.{RunState, Run, Manifest}
use ratatoskr_channel_digest.Storage.{Result}
use ratatoskr_channel_digest.Storage.Rules.{Quiet, Guarded, quiet_rules, guarded_rules, Quiet-bind}
use ratatoskr_channel_digest.Reports.{
  ReportError, OperationReportRow, enqueue, on_demand_operation, report_completion,
  report_recap_failure, queue_if_owned,
}
use ratatoskr_channel_digest.Coordinator.{
  IntakeOutcome, CanonicalManifest, exactly_one, in_i32, replay_manifest, send_manifest,
  commit_manifest, report_end, complete_empty_run, fail_run, RunFailure,
}
use ratatoskr_channel_digest.Coordinator.Settlement.{
  record_completion, replayed_delivery, settle_new, settle_completion, record_failure,
  settle_failed_run, settle_failure,
}
use ratatoskr_channel_digest.Coordinator.Occurrence.{
  OccurrenceRequest, fan_out_to, fan_out, serve_occurrence, accept_occurrence,
}

abbrev pub may_change : IntakeOutcome → Bool
may_change IntakeOutcome.applied = true
may_change IntakeOutcome.replayed = false

pub exactly_one-Quiet : (n : ℕ) → Quiet (exactly_one n)
unfolding exactly_one
exactly_one-Quiet n = search quiet_rules

module _ ⦃ext : External⦄ where
  pub enqueue-Quiet : (row : OperationReportRow) → Quiet (enqueue row)
  unfolding enqueue
  enqueue-Quiet row = search quiet_rules

  pub on_demand_operation-Quiet : (run owner : ℕ) → Quiet (on_demand_operation run owner)
  unfolding on_demand_operation
  on_demand_operation-Quiet run owner = search quiet_rules

  queue_if_owned-Quiet :
      (o : Option ℕ) (build : ℕ → Result ReportError OperationReportRow)
      → Quiet (queue_if_owned o build)
  unfolding queue_if_owned
  queue_if_owned-Quiet none build = search quiet_rules
  queue_if_owned-Quiet (some op) build = search (quiet_rules, enqueue-Quiet)

  pub report_completion-Quiet :
      (run owner event : ℕ) (ref : String) (omitted : ℕ) (incomplete : Bool)
      → Quiet (report_completion run owner event ref omitted incomplete)
  unfolding report_completion
  report_completion-Quiet run owner event ref omitted incomplete =
      search (quiet_rules, on_demand_operation-Quiet, queue_if_owned-Quiet)

  pub report_recap_failure-Quiet :
      (run owner event : ℕ) (class : String) (retryable : Bool)
      → Quiet (report_recap_failure run owner event class retryable)
  unfolding report_recap_failure
  report_recap_failure-Quiet run owner event class retryable =
      search (quiet_rules, on_demand_operation-Quiet, queue_if_owned-Quiet)

  ruleset parts = (
    guarded_rules, exactly_one-Quiet, enqueue-Quiet, on_demand_operation-Quiet,
    report_completion-Quiet, report_recap_failure-Quiet,
  )

  replay_manifest-Guarded : (m : CanonicalManifest) → Guarded may_change (replay_manifest m)
  unfolding replay_manifest
  replay_manifest-Guarded m = search parts

  send_manifest-Guarded :
      (m : CanonicalManifest) (request : RecapRequested) (operation : ℕ)
      → Guarded may_change (send_manifest m request operation)
  unfolding send_manifest
  send_manifest-Guarded m request operation = search parts depth 30

  -- Committing a manifest changes the database only when it answers `Applied`: a refusal, a replay
  -- and every failed call of the database leave it as it was.
  pub commit_manifest-Guarded :
      (m : CanonicalManifest) (raw : Bytes) → Guarded may_change (commit_manifest m raw)
  unfolding commit_manifest in_i32
  commit_manifest-Guarded m raw =
      search (parts, replay_manifest-Guarded, send_manifest-Guarded) depth 20

  record_completion-Guarded :
      (message : ℕ) (fact : RecapCompleted) (analysis : ℕ) (outcome : RunState) (incomplete : Bool)
      → Guarded may_change (record_completion message fact analysis outcome incomplete)
  unfolding record_completion
  record_completion-Guarded message fact analysis outcome incomplete = search parts depth 30

  replayed_delivery-Guarded : Guarded may_change replayed_delivery
  unfolding replayed_delivery
  replayed_delivery-Guarded = search parts

  settle_new-Guarded :
      (message : ℕ) (bytes : Bytes) (fact : RecapCompleted) (analysis : ℕ) (outcome : RunState)
      (incomplete : Bool)
      → Guarded may_change (settle_new message bytes fact analysis outcome incomplete)
  unfolding settle_new
  settle_new-Guarded message bytes fact analysis outcome incomplete =
      search (parts, record_completion-Guarded, replayed_delivery-Guarded) depth 20

  -- Settling a completion changes the database only when it answers `Applied`: a refusal, a replay
  -- and every failed call of the database leave it as it was.
  pub settle_completion-Guarded :
      (message : ℕ) (bytes : Bytes) → Guarded may_change (settle_completion message bytes)
  unfolding settle_completion
  settle_completion-Guarded message bytes = search (parts, settle_new-Guarded) depth 20

  record_failure-Guarded :
      (message : ℕ) (fact : RecapFailed) (m : Manifest)
      → Guarded may_change (record_failure message fact m)
  unfolding record_failure
  record_failure-Guarded message fact m = search parts depth 30

  settle_failed_run-Guarded :
      (message : ℕ) (bytes : Bytes) (fact : RecapFailed) (rm : Run × Manifest)
      → Guarded may_change (settle_failed_run message bytes fact rm)
  unfolding settle_failed_run
  settle_failed_run-Guarded message bytes fact (r, m) =
      search (parts, record_failure-Guarded, replayed_delivery-Guarded) depth 20

  -- Settling a failure changes the database only when it answers `Applied`.
  pub settle_failure-Guarded :
      (message : ℕ) (bytes : Bytes) → Guarded may_change (settle_failure message bytes)
  unfolding settle_failure
  settle_failure-Guarded message bytes = search (parts, settle_failed_run-Guarded) depth 20

  fan_out_to-Quiet :
      (key : String) (operation previous due : ℕ) (language : OutputLanguage)
      (owners : List (ℕ × ℕ))
      → Quiet (fan_out_to key operation previous due language owners)
  unfolding fan_out_to
  fan_out_to-Quiet key operation previous due language [] = search quiet_rules
  fan_out_to-Quiet key operation previous due language ((owner, at) ∷ rest) =
      Quiet-bind _ _ (search quiet_rules) λ window. Quiet-bind _ _ (search quiet_rules) λ id.
        Quiet-bind _ _ (search quiet_rules)
          λ _. fan_out_to-Quiet key operation previous due language rest

  fan_out-Quiet :
      (key : String) (operation previous due : ℕ) (language : OutputLanguage)
      → Quiet (fan_out key operation previous due language)
  unfolding fan_out
  fan_out-Quiet key operation previous due language = search (quiet_rules, fan_out_to-Quiet)

  serve_occurrence-Guarded : (o : OccurrenceRequest) → Guarded may_change (serve_occurrence o)
  unfolding serve_occurrence
  serve_occurrence-Guarded o = search (parts, fan_out-Quiet) depth 20

  -- A schedule occurrence changes the database only when it answers `Applied`: the runs of its
  -- owners, its report and its inbox row are committed together or not at all.
  pub accept_occurrence-Guarded : (o : OccurrenceRequest) → Guarded may_change (accept_occurrence o)
  unfolding accept_occurrence
  accept_occurrence-Guarded o = search (parts, serve_occurrence-Guarded) depth 20

  -- A schedule occurrence, and a manifest that is committed with its request, change the database only
  -- when they answer `Applied`.
  pub requests-Guarded :
      (o : OccurrenceRequest) (m : CanonicalManifest) (raw : Bytes)
      → Guarded may_change (accept_occurrence o) × Guarded may_change (commit_manifest m raw)
  requests-Guarded o m raw = (accept_occurrence-Guarded o, commit_manifest-Guarded m raw)

  report_end-Quiet :
      (run owner : ℕ) (build : ℕ → Result ReportError OperationReportRow)
      → Quiet (report_end run owner build)
  unfolding report_end
  report_end-Quiet run owner build = search parts depth 20

  -- A run that ends without a recap changes the database only if the whole transaction went through.
  pub complete_empty_run-Guarded :
      (run owner : ℕ) → Guarded (λ _. true) (complete_empty_run run owner)
  unfolding complete_empty_run
  complete_empty_run-Guarded run owner = search (parts, report_end-Quiet) depth 20

  -- A run that fails before its recap changes the database only if the whole transaction went
  -- through.
  pub fail_run-Guarded :
      (run owner : ℕ) (failure : RunFailure) → Guarded (λ _. true) (fail_run run owner failure)
  unfolding fail_run
  fail_run-Guarded run owner failure = search (parts, report_end-Quiet) depth 20
