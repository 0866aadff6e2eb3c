-- ===== src/Worker/Operations.antt =====
-- Every operation keeps every invariant of the database that respects the statements.
use ratatoskr_channel_digest.Prelude.{
  ℕ, String, Bool, Option, none, some, List, [], ◌∷◌, ◌≡◌, refl, subst, arith,
}
use ratatoskr_channel_digest.Contracts.{
  Bytes, OutputLanguage, RecapCompleted, RecapRequested, RecapFailed, External,
}
use ratatoskr_channel_digest.Schema.{Db, Run, RunState, Manifest}
use ratatoskr_channel_digest.Storage.{Result, reading}
use ratatoskr_channel_digest.Storage.Rules.{Stable, Keeps, Keeps-bind, keeps_rules}
use ratatoskr_channel_digest.Reports
use ratatoskr_channel_digest.Reports.{ReportError, OperationReportRow}
use ratatoskr_channel_digest.Coordinator
use ratatoskr_channel_digest.Coordinator.{
  RunFailure, CanonicalManifest, CoordinatorError, unsent_run, move_to, fail_with,
}
use ratatoskr_channel_digest.Coordinator.Settlement
use ratatoskr_channel_digest.Coordinator.Settlement.{waiting_run}
use ratatoskr_channel_digest.Coordinator.Occurrence
use ratatoskr_channel_digest.Coordinator.Occurrence.{OccurrenceRequest}
use ratatoskr_channel_digest.Worker.{IsLegal, Respects}

IsLegal-unsent : (run owner : ℕ) (s : RunState) → IsLegal (unsent_run run owner) (move_to s)
IsLegal-unsent run owner s now r h = record {
  run_id = refl;
  settled = ground arith;
  class = λ _. refl;
}

IsLegal-fail : (run owner : ℕ) (c : String) → IsLegal (unsent_run run owner) (fail_with c)
IsLegal-fail run owner c now r h = record {
  run_id = refl;
  settled = ground arith;
  class = ground arith;
}

IsLegal-waiting : (run owner : ℕ) (s : RunState) → IsLegal (waiting_run run owner) (move_to s)
IsLegal-waiting run owner s now r h = record {
  run_id = refl;
  settled = ground arith;
  class = λ _. refl;
}

IsLegal-waiting_fail : (run owner : ℕ) (c : String) → IsLegal (waiting_run run owner) (fail_with c)
IsLegal-waiting_fail run owner c now r h = record {
  run_id = refl;
  settled = ground arith;
  class = ground arith;
}

pub reading-Stable : {I : Db → Type 0} {A : Type 0} (f : Db → A) → Stable I (reading f)
reading-Stable {I} f = record {
  at = λ now d a d' k e. let same : d ≡ d' = ground arith in subst I same k;
}

ruleset parts = (keeps_rules, reading-Stable)

exactly_one-Keeps : {I : Db → Type 0} (n : ℕ) → Keeps I (Coordinator.exactly_one n)
unfolding Coordinator.exactly_one
exactly_one-Keeps n = search parts

module _ ⦃ext : External⦄ {I : Db → Type 0} (i : Respects I) where
  pub enqueue-Keeps : (row : OperationReportRow) → Keeps I (Reports.enqueue row)
  unfolding Reports.enqueue
  enqueue-Keeps row = search (parts, i.report)

  pub on_demand_operation-Keeps : (run owner : ℕ) → Keeps I (Reports.on_demand_operation run owner)
  unfolding Reports.on_demand_operation
  on_demand_operation-Keeps run owner = search parts

  queue_if_owned-Keeps :
      (o : Option ℕ) (build : ℕ → Result ReportError OperationReportRow)
      → Keeps I (Reports.queue_if_owned o build)
  unfolding Reports.queue_if_owned
  queue_if_owned-Keeps none build = search parts
  queue_if_owned-Keeps (some op) build = search (parts, enqueue-Keeps)

  report_completion-Keeps :
      (run owner event : ℕ) (ref : String) (omitted : ℕ) (incomplete : Bool)
      → Keeps I (Reports.report_completion run owner event ref omitted incomplete)
  unfolding Reports.report_completion
  report_completion-Keeps run owner event ref omitted incomplete =
      search (parts, on_demand_operation-Keeps, queue_if_owned-Keeps)

  report_recap_failure-Keeps :
      (run owner event : ℕ) (class : String) (retryable : Bool)
      → Keeps I (Reports.report_recap_failure run owner event class retryable)
  unfolding Reports.report_recap_failure
  report_recap_failure-Keeps run owner event class retryable =
      search (parts, on_demand_operation-Keeps, queue_if_owned-Keeps)

  replay_manifest-Keeps : (m : CanonicalManifest) → Keeps I (Coordinator.replay_manifest m)
  unfolding Coordinator.replay_manifest
  replay_manifest-Keeps m = search parts depth 20

  send_manifest-Keeps :
      (m : CanonicalManifest) (request : RecapRequested) (operation : ℕ)
      → Keeps I (Coordinator.send_manifest m request operation)
  unfolding Coordinator.send_manifest
  send_manifest-Keeps m request operation =
      search (parts, exactly_one-Keeps, i.messages, i.recap, i.runs_moved, IsLegal-unsent) depth 30

  pub commit_manifest-Keeps :
      (m : CanonicalManifest) (raw : Bytes) → Keeps I (Coordinator.commit_manifest m raw)
  unfolding Coordinator.commit_manifest Coordinator.in_i32
  commit_manifest-Keeps m raw =
      search (parts, replay_manifest-Keeps, send_manifest-Keeps, i.manifest) depth 20

  report_end-Keeps :
      (run owner : ℕ) (build : ℕ → Result ReportError OperationReportRow)
      → Keeps I (Coordinator.report_end run owner build)
  unfolding Coordinator.report_end
  report_end-Keeps run owner build =
      search (parts, on_demand_operation-Keeps, enqueue-Keeps) depth 20

  pub complete_empty_run-Keeps :
      (run owner : ℕ) → Keeps I (Coordinator.complete_empty_run run owner)
  unfolding Coordinator.complete_empty_run
  complete_empty_run-Keeps run owner =
      search (parts, exactly_one-Keeps, report_end-Keeps, i.runs_moved, IsLegal-unsent) depth 20

  pub fail_run-Keeps :
      (run owner : ℕ) (failure : RunFailure) → Keeps I (Coordinator.fail_run run owner failure)
  unfolding Coordinator.fail_run
  fail_run-Keeps run owner failure =
      search (parts, exactly_one-Keeps, report_end-Keeps, i.runs_moved, IsLegal-fail) depth 20

  record_completion-Keeps :
      (message : ℕ) (fact : RecapCompleted) (analysis : ℕ) (outcome : RunState) (incomplete : Bool)
      → Keeps I (Settlement.record_completion message fact analysis outcome incomplete)
  unfolding Settlement.record_completion
  record_completion-Keeps message fact analysis outcome incomplete =
      search
        (
          parts, exactly_one-Keeps, report_completion-Keeps, i.completion, i.runs_moved,
          IsLegal-waiting, i.inbox_completed,
        )
        depth 30

  replayed_delivery-Keeps : Keeps I Settlement.replayed_delivery
  unfolding Settlement.replayed_delivery
  replayed_delivery-Keeps = search parts

  settle_new-Keeps :
      (message : ℕ) (bytes : Bytes) (fact : RecapCompleted) (analysis : ℕ) (outcome : RunState)
      (incomplete : Bool)
      → Keeps I (Settlement.settle_new message bytes fact analysis outcome incomplete)
  unfolding Settlement.settle_new
  settle_new-Keeps message bytes fact analysis outcome incomplete =
      search (parts, record_completion-Keeps, replayed_delivery-Keeps, i.inbox) depth 20

  pub settle_completion-Keeps :
      (message : ℕ) (bytes : Bytes) → Keeps I (Settlement.settle_completion message bytes)
  unfolding Settlement.settle_completion
  settle_completion-Keeps message bytes = search (parts, settle_new-Keeps) depth 20

  record_failure-Keeps :
      (message : ℕ) (fact : RecapFailed) (m : Manifest)
      → Keeps I (Settlement.record_failure message fact m)
  unfolding Settlement.record_failure
  record_failure-Keeps message fact m =
      search
        (
          parts, exactly_one-Keeps, report_recap_failure-Keeps, i.result, i.runs_moved,
          IsLegal-waiting_fail, i.inbox_completed,
        )
        depth 30

  settle_failed_run-Keeps :
      (message : ℕ) (bytes : Bytes) (fact : RecapFailed) (rm : Run × Manifest)
      → Keeps I (Settlement.settle_failed_run message bytes fact rm)
  unfolding Settlement.settle_failed_run
  settle_failed_run-Keeps message bytes fact (r, m) =
      search (parts, record_failure-Keeps, replayed_delivery-Keeps, i.inbox) depth 20

  pub settle_failure-Keeps :
      (message : ℕ) (bytes : Bytes) → Keeps I (Settlement.settle_failure message bytes)
  unfolding Settlement.settle_failure
  settle_failure-Keeps message bytes = search (parts, settle_failed_run-Keeps) depth 20

  fan_out_to-Keeps :
      (key : String) (operation previous due : ℕ) (language : OutputLanguage)
      (owners : List (ℕ × ℕ))
      → Keeps I (Occurrence.fan_out_to key operation previous due language owners)
  unfolding Occurrence.fan_out_to
  fan_out_to-Keeps key operation previous due language [] = search parts
  fan_out_to-Keeps key operation previous due language ((owner, at) ∷ rest) =
      Keeps-bind _ _ (search parts) λ window. Keeps-bind _ _ (search parts) λ id.
        Keeps-bind _ _ (search (parts, i.run_fanned_out))
          λ _. fan_out_to-Keeps key operation previous due language rest

  fan_out-Keeps :
      (key : String) (operation previous due : ℕ) (language : OutputLanguage)
      → Keeps I (Occurrence.fan_out key operation previous due language)
  unfolding Occurrence.fan_out
  fan_out-Keeps key operation previous due language = search (parts, fan_out_to-Keeps)

  serve_occurrence-Keeps : (o : OccurrenceRequest) → Keeps I (Occurrence.serve_occurrence o)
  unfolding Occurrence.serve_occurrence
  serve_occurrence-Keeps o =
      search (parts, fan_out-Keeps, enqueue-Keeps, i.inbox_completed) depth 20

  pub accept_occurrence-Keeps : (o : OccurrenceRequest) → Keeps I (Occurrence.accept_occurrence o)
  unfolding Occurrence.accept_occurrence
  accept_occurrence-Keeps o = search (parts, serve_occurrence-Keeps, i.inbox) depth 20
