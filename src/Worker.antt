-- ===== src/Worker.antt =====
-- The worker as a sequence of its operations, and the interface by which an invariant of the
-- database is shown for all of them: `Respects` has one law for each statement that writes.
pub mod Operations
pub mod Commands
pub mod Execution
pub mod Preservation
pub mod Frames
pub mod Settled
pub mod Limit
pub mod Privacy
pub mod Publishing
pub mod Tasks
use ratatoskr_channel_digest.Prelude.{
  ℕ, suc, ◌+◌, String, Bool, true, false, Option, none, some, List, [], ◌∷◌, ◌≡◌,
}
use ratatoskr_channel_digest.Contracts.{
  Bytes, OutputLanguage, RecapCompleted, RecapRequested, External,
}
use ratatoskr_channel_digest.Schema.{
  Db, Run, RunState, RunTrigger, Manifest, ManifestMessage, DigestResult, Inbox, Payload, Lease,
  is_terminal,
}
use ratatoskr_channel_digest.Storage.{World}
use ratatoskr_channel_digest.Storage.Rules.{Stable}
use ratatoskr_channel_digest.Statements.{
  insert_outbox, insert_outbox_once, insert_inbox, complete_inbox, update_runs, new_run,
  create_digest_run, insert_run_once, insert_manifest, insert_messages, insert_result,
  set_subscription, new_outbox,
}
use ratatoskr_channel_digest.Reports.{OperationReportRow, report_row}
use ratatoskr_channel_digest.Coordinator.{
  CanonicalManifest, RunFailure, commit_manifest, complete_empty_run, fail_run, recap_row,
}
use ratatoskr_channel_digest.Coordinator.Settlement.{insert_completion}
use ratatoskr_channel_digest.Envelopes.{OutboundMessage, registration_type}
use ratatoskr_channel_digest.Reaper.{reap_runs, reap_once}
use ratatoskr_channel_digest.Runs.{create, transition}
use ratatoskr_channel_digest.Revisions.{ObservedRevision, revision_row, append_revision, withdraw}
use ratatoskr_channel_digest.Provider.{PublicChannelProvider}
use ratatoskr_channel_digest.Acquisition.{put_lease}
use ratatoskr_channel_digest.Maintenance.{minimize_revisions, minimize_manifests, sweep_once}
use ratatoskr_channel_digest.Executor.Execution.{execute_one}
use ratatoskr_channel_digest.Executor.{begin_acquisition, record_acquisition}
use ratatoskr_channel_digest.Registration.{
  ScheduleConfig, upsert_registration, enqueue_schedule_registration,
}
use ratatoskr_channel_digest.Bus.{handle}
use ratatoskr_channel_digest.Bus.Outbox.{mark_published, mark_refused, publish_outbox}

-- What an update may do to a row: its identity stays, and so does the end of a settled run.
pub record Moves (r s : Run) : Type 0 where
  pub run_id : s.run_id ≡ r.run_id
  pub settled : is_terminal r.state ≡ true → s.state ≡ r.state
  pub class : is_terminal r.state ≡ true → s.safe_failure_class ≡ r.safe_failure_class

abbrev pub IsLegal : (Run → Bool) → (ℕ → Run → Run) → Type 0
IsLegal p f = (now : ℕ) (r : Run) → p r ≡ true → Moves r (f now r)

pub record Respects ⦃ext : External⦄ (I : Db → Type 0) : Type 0 where
  pub report :
      (id : ℕ) (row : OperationReportRow) → Stable I (insert_outbox_once (report_row id row))
  pub recap :
      (id : ℕ) (m : CanonicalManifest) (request : RecapRequested) (operation : ℕ)
      → Stable I (insert_outbox (recap_row id m request operation))
  pub registration :
      (id : ℕ) (key : String) (owner : ℕ) (payload : Payload)
      → Stable I (upsert_registration (new_outbox id registration_type key owner none none payload))
  pub published : (id : ℕ) → Stable I (mark_published id)
  pub refused : (id : ℕ) → Stable I (mark_refused id)
  pub inbox : (row : ℕ → Inbox) → Stable I (insert_inbox row)
  pub inbox_completed : (id : ℕ) → Stable I (complete_inbox id)
  pub run_created :
      (id owner operation : ℕ) (t : RunTrigger) (key : String) (start end : ℕ) (l : OutputLanguage)
      → Stable I (create_digest_run (new_run id owner operation t key start end l))
  pub run_fanned_out :
      (id owner operation : ℕ) (t : RunTrigger) (key : String) (start end : ℕ) (l : OutputLanguage)
      → Stable I (insert_run_once (new_run id owner operation t key start end l))
  pub runs_moved : (p : Run → Bool) (f : ℕ → Run → Run) → IsLegal p f → Stable I (update_runs p f)
  pub runs_reaped : (now deadline : ℕ) → Stable I (reap_runs now deadline)
  pub manifest : (row : Manifest) → Stable I (insert_manifest row)
  pub messages : (held : List ManifestMessage) → Stable I (insert_messages held)
  pub result : (row : ℕ → DigestResult) → Stable I (insert_result row)
  pub completion :
      (fact : RecapCompleted) (analysis : ℕ) (outcome : RunState)
      → Stable I (insert_completion fact analysis outcome)
  pub subscription :
      (id channel owner : ℕ) (username : String) (enabled : Bool)
      → Stable I (set_subscription id channel owner username enabled)
  pub appended :
      (id : ℕ) (o : ObservedRevision) (published observed : ℕ)
      → Stable I (append_revision (revision_row id o published observed))
  pub withdrawn : (channel : ℕ) (gone : ℕ → Bool) → Stable I (withdraw channel gone)
  pub leased : (row : ℕ → Lease) → Stable I (put_lease row)
  pub bodies_minimized : (before limit : ℕ) → Stable I (minimize_revisions before limit)
  pub texts_minimized : (before limit : ℕ) → Stable I (minimize_manifests before limit)

-- What the worker process, its executor and its clock do to the world, one operation at a time.
pub data Operation : Type 0 where
  deliver : OutputLanguage → String → Bytes → Operation
  commit_run : CanonicalManifest → Bytes → Operation
  complete_run : ℕ → ℕ → Operation
  abandon_run : ℕ → ℕ → RunFailure → Operation
  reap : ℕ → ℕ → Operation
  create_run : ℕ → ℕ → RunTrigger → String → ℕ → ℕ → Operation
  start_run : ℕ → ℕ → Operation
  record_run : ℕ → Bool → Operation
  execute : PublicChannelProvider → ℕ → Operation
  sweep : ℕ → ℕ → Operation
  move_run : ℕ → RunState → RunState → Option String → Operation
  register : Option ScheduleConfig → Operation
  publish : (OutboundMessage → Bool) → Operation
  wait : ℕ → Operation

module _ ⦃ext : External⦄ where
  unfoldable pub perform : Operation → World → World
  perform (deliver language subject bytes) w = (handle language subject bytes w).1
  perform (commit_run m raw) w = (commit_manifest m raw w).1
  perform (complete_run run owner) w = (complete_empty_run run owner w).1
  perform (abandon_run run owner failure) w = (fail_run run owner failure w).1
  perform (reap now deadline) w = (reap_once now deadline w).1
  perform (create_run owner operation t key start end) w =
      (create owner operation t key start end w).1
  perform (start_run run owner) w = (begin_acquisition run owner w).1
  perform (record_run run incomplete) w = (record_acquisition run incomplete w).1
  perform (execute provider source_count) w = (execute_one provider source_count w).1
  perform (sweep days now) w = (sweep_once days now w).1
  perform (move_run run expected target class) w = (transition run expected target class w).1
  perform (register schedule) w = (enqueue_schedule_registration schedule w).1
  perform (publish acknowledges) w = (publish_outbox acknowledges w).1
  perform (wait time) w = record w { clock = w.clock + time }

  unfoldable pub perform_all : List Operation → World → World
  perform_all [] w = w
  perform_all (o ∷ os) w = perform_all os (perform o w)
