-- ===== src/Executor.antt =====
-- src/executor.rs: the two writes of `RunExecutor` before the manifest, `begin_acquisition` and
-- `record_acquisition`; Selection and Execution have the rest of it.
pub mod Atomicity
pub mod Selection
pub mod Execution
pub mod Requests
pub mod Selected
use ratatoskr_channel_digest.Prelude.{ℕ, Bool, true, false, ◌&&◌, ◌==◌, if◌then◌else◌, maybe}
use ratatoskr_channel_digest.Contracts.{OperationStatus, External}
use ratatoskr_channel_digest.Schema.{Run, RunState, state_eq}
use ratatoskr_channel_digest.Storage.{
  M, pure, lift, ◌>>=◌, ◌>>◌, map_err, begin, commit, execute, execute_alone,
}
use ratatoskr_channel_digest.Statements.{update_runs}
use ratatoskr_channel_digest.Reports.{ReportError, new_report, enqueue, on_demand_operation}
use ratatoskr_channel_digest.Coordinator.{move_to}

pub data RunExecutionError : Type 0 where
  unavailable : RunExecutionError

abbrev pub from_report : ReportError → RunExecutionError
from_report e = RunExecutionError.unavailable

-- `where run_id = $1 and state = 'accepted'`
abbrev pub is_accepted : ℕ → Run → Bool
is_accepted run r = r.run_id == run && state_eq r.state RunState.accepted

module _ ⦃ext : External⦄ where
  -- `RunExecutor::begin_acquisition`
  unfoldable pub begin_acquisition : ℕ → ℕ → M RunExecutionError Bool
  begin_acquisition run owner = do
    begin RunExecutionError.unavailable
    changed ←
        execute RunExecutionError.unavailable
          (update_runs (is_accepted run) (move_to RunState.acquiring))
    if changed == 1
        then (do
          owned ← map_err from_report (on_demand_operation run owner)
          maybe owned (pure tt) λ operation. do
            row ←
                map_err from_report
                  (lift (new_report operation owner OperationStatus.running "acquiring"))
            map_err from_report (enqueue row)
          commit RunExecutionError.unavailable
          pure true)
        else pure false

-- `RunExecutor::record_acquisition`
unfoldable pub record_acquisition : ℕ → Bool → M RunExecutionError ℕ
record_acquisition run incomplete = execute_alone RunExecutionError.unavailable (
    update_runs (λ (r : Run). r.run_id == run)
      (λ now r. record r { acquisition_incomplete = incomplete }))
