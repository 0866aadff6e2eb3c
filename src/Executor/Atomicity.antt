-- ===== src/Executor/Atomicity.antt =====
-- The start of an acquisition is atomic.
use ratatoskr_channel_digest.Prelude.{ℕ, true}
use ratatoskr_channel_digest.Contracts.{External}
use ratatoskr_channel_digest.Storage.Rules.{Guarded, guarded_rules}
use ratatoskr_channel_digest.Coordinator.Atomicity.{
  enqueue-Quiet, on_demand_operation-Quiet, complete_empty_run-Guarded, fail_run-Guarded,
}
use ratatoskr_channel_digest.Coordinator.{RunFailure, complete_empty_run, fail_run}
use ratatoskr_channel_digest.Executor.{begin_acquisition}

-- The start of an acquisition changes the database only when it answers that it started: the state
-- `acquiring` and the report `running` are committed together or not at all.
begin_acquisition-Guarded :
    ⦃ext : External⦄ (run owner : ℕ) → Guarded (λ started. started) (begin_acquisition run owner)
unfolding begin_acquisition
begin_acquisition-Guarded ⦃ext⦄ run owner =
    search (guarded_rules, enqueue-Quiet, on_demand_operation-Quiet) depth 20

-- A run that ends empty or fails before its recap changes the committed database only when its whole
-- transaction went through; the start of an acquisition changes it only when it answers that the
-- acquisition started.
pub transactions-Guarded :
    ⦃ext : External⦄ (run owner : ℕ) (failure : RunFailure)
    → Guarded (λ started. started) (begin_acquisition run owner)
      × Guarded (λ _. true) (complete_empty_run run owner)
      × Guarded (λ _. true) (fail_run run owner failure)
transactions-Guarded ⦃ext⦄ run owner failure = (
  begin_acquisition-Guarded run owner,
  complete_empty_run-Guarded run owner,
  fail_run-Guarded run owner failure,
)
