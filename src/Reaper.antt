-- ===== src/Reaper.antt =====
-- src/reaper.rs: `Reaper::reap_once` fails the runs that outlived their deadline. The clock of the
-- worker is the argument `now`; the `update` is one statement with its subquery.
pub mod Batch
use ratatoskr_channel_digest.Prelude.{
  ℕ, sort, ◌+◌, String, Bool, true, ◌&&◌, ◌||◌, not, some, List, [], ◌∷◌, ltb, ◌==◌, if◌then◌else◌,
  contains, rows, update, take, length,
}
use ratatoskr_channel_digest.Contracts.{OperationStatus, External}
use ratatoskr_channel_digest.Schema.{Run, RunTrigger, trigger_eq, is_terminal}
use ratatoskr_channel_digest.Storage.{
  Result, M, Sql, pure, lift, ◌>>=◌, ◌>>◌, and_then, map_err, begin, commit, execute,
}
use ratatoskr_channel_digest.Reports.{
  ReportError, OperationReportRow, new_report, with_error, enqueue,
}
use ratatoskr_channel_digest.Coordinator.{fail_with}

abbrev pub failure_class : String
failure_class = "deadline_exceeded"

abbrev pub batch : ℕ
batch = 100

pub data ReaperError : Type 0 where
  storage : ReaperError

abbrev pub from_report : ReportError → ReaperError
from_report e = ReaperError.storage

-- `state in ('accepted', 'acquiring', 'waiting_recap') and updated_at < now - deadline`
abbrev pub is_overdue : ℕ → ℕ → Run → Bool
is_overdue now deadline r = not (is_terminal r.state) && ltb (r.updated_at + deadline) now

-- `order by updated_at, run_id`
abbrev pub is_older : Run → Run → Bool
is_older a b =
    ltb a.updated_at b.updated_at || a.updated_at == b.updated_at && ltb a.run_id b.run_id

-- The subquery: the oldest overdue runs, at most `batch` of them.
unfoldable pub overdue_batch : ℕ → ℕ → List Run → List Run
overdue_batch now deadline runs = take batch (sort is_older (rows (is_overdue now deadline) runs))

abbrev pub among : List Run → Run → Bool
among chosen r = contains (λ (c : Run). c.run_id == r.run_id) chosen

-- `update … where run_id in (…) returning …`
unfoldable pub reap_runs : ℕ → ℕ → Sql (List Run)
unfolding overdue_batch
reap_runs now deadline at d =
    let chosen = overdue_batch now deadline d.runs in
    some (
      rows (among chosen) d.runs,
      record d { runs = update (among chosen) (fail_with failure_class at) d.runs },
    )

module _ ⦃ext : External⦄ where
  unfoldable pub deadline_report : Run → Result ReportError OperationReportRow
  deadline_report r =
      and_then (new_report r.operation_id r.owner_id OperationStatus.failed "deadline") (
        with_error "channel_digest.run_deadline_exceeded"
          "The digest did not finish before its deadline." true)

  -- The loop over the reaped runs.
  unfoldable pub report_reaped : List Run → M ReaperError (Unit {0})
  report_reaped [] = pure tt
  report_reaped (r ∷ rs) =
      let others = report_reaped rs in
      if trigger_eq r.trigger RunTrigger.on_demand
      then (do
        row ← map_err from_report (lift (deadline_report r))
        map_err from_report (enqueue row)
        others)
      else others

  -- `Reaper::reap_once`
  unfoldable pub reap_once : ℕ → ℕ → M ReaperError ℕ
  unfolding report_reaped
  reap_once now deadline = do
    begin ReaperError.storage
    reaped ← execute ReaperError.storage (reap_runs now deadline)
    report_reaped reaped
    commit ReaperError.storage
    pure (length reaped)
