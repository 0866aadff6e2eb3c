-- ===== src/Runs.antt =====
-- src/runs.rs: `RunRepository`, over schema.sql's `create_digest_run` and `transition_run`.
use ratatoskr_channel_digest.Prelude.{ℕ, String, Bool, not, ◌&&◌, Option, ◌==◌, ltb}
use ratatoskr_channel_digest.Contracts.{OutputLanguage}
use ratatoskr_channel_digest.Schema.{Run, RunState, RunTrigger, state_eq, is_terminal}
use ratatoskr_channel_digest.Storage.{M, pure, ◌>>=◌, fresh, execute_alone}
use ratatoskr_channel_digest.Statements.{new_run, create_digest_run, update_runs}

pub data RunError : Type 0 where
  unavailable : RunError

-- `RunRepository::create`
unfoldable pub create : ℕ → ℕ → RunTrigger → String → ℕ → ℕ → M RunError ℕ
create owner operation trigger key start end = do
  id ← fresh
  execute_alone RunError.unavailable
      (create_digest_run (new_run id owner operation trigger key start end OutputLanguage.ru))

-- schema.sql: the `where` of transition_run
abbrev pub may_transition : ℕ → RunState → Run → Bool
may_transition run expected r =
    r.run_id == run && state_eq r.state expected && not (is_terminal r.state)

-- `RunRepository::transition`
unfoldable pub transition : ℕ → RunState → RunState → Option String → M RunError Bool
transition run expected target class = do
  changed ← execute_alone RunError.unavailable (
      update_runs (may_transition run expected)
        (λ now r. record r { state = target; safe_failure_class = class; updated_at = now }))
  pure (ltb 0 changed)
