-- ===== src/Maintenance.antt =====
-- src/maintenance.rs and src/retention.rs: the periodic minimization of stored bodies and manifest
-- texts. An instant counts from the first one that the clock can hold.
pub mod Batches
pub mod Counted
use ratatoskr_channel_digest.Prelude.{
  ℕ, ◌+◌, ◌-◌, ◌*◌, ◌^◌, ◌%◌, Bool, ◌&&◌, ◌||◌, Option, none, some, List, ltb, ◌==◌, if◌then◌else◌,
  is_some, holds, contains, count, select, rows, update, sort, take,
}
use ratatoskr_channel_digest.Schema.{Db, Run, Manifest, Revision, is_terminal}
use ratatoskr_channel_digest.Metrics.{add_bodies, add_manifests}
use ratatoskr_channel_digest.Storage.{M, Sql, pure, raise, ◌>>=◌, ◌>>◌, tally, execute_alone}

pub data MaintenanceError : Type 0 where
  unavailable : MaintenanceError

-- `published_at < $1 and body is not null`
abbrev pub has_expired : ℕ → Revision → Bool
has_expired before r = ltb r.published_at before && is_some r.body

-- `order by published_at, revision_id`
abbrev pub is_older_post : Revision → Revision → Bool
is_older_post a b =
    ltb a.published_at b.published_at
    || a.published_at == b.published_at && ltb a.revision_id b.revision_id

unfoldable pub expired_revisions : ℕ → ℕ → List Revision → List Revision
expired_revisions before limit revisions =
    take limit (sort is_older_post (rows (has_expired before) revisions))

abbrev pub among_revisions : List Revision → Revision → Bool
among_revisions chosen r = contains (λ (c : Revision). c.revision_id == r.revision_id) chosen

abbrev pub without_body : ℕ → Revision → Revision
without_body now r = record r { body = none; minimized_at = some now }

-- `update post_revisions set body = null … where revision_id in (…)`: the rows affected
unfoldable pub minimize_revisions : ℕ → ℕ → Sql ℕ
unfolding expired_revisions
minimize_revisions before limit now d =
    let chosen = among_revisions (expired_revisions before limit d.revisions) in
    some (
      count chosen d.revisions,
      record d { revisions = update chosen (without_body now) d.revisions },
    )

-- `Maintenance::minimize_before`
unfoldable pub minimize_before : ℕ → ℕ → M MaintenanceError ℕ
minimize_before before limit =
    execute_alone MaintenanceError.unavailable (minimize_revisions before limit)

-- The start of the window of the manifest's run.
abbrev pub window_of : List Run → Manifest → Option ℕ
window_of runs m = elim (select (λ (r : Run). r.run_id == m.run_id) runs) [
  | none ↦ none
  | some r ↦ some r.window_start
]

abbrev pub is_settled_before : ℕ → Run → Bool
is_settled_before before r = is_terminal r.state && ltb r.window_start before

-- The join with the run, and the `where`.
abbrev pub is_spent : ℕ → List Run → Manifest → Bool
is_spent before runs m =
    is_some m.canonical_text
    && holds (is_settled_before before) (select (λ (r : Run). r.run_id == m.run_id) runs)

abbrev pub start_or_zero : Option ℕ → ℕ
start_or_zero none = 0
start_or_zero (some at) = at

-- `order by r.window_start, m.manifest_id`, of manifests whose run is there
abbrev pub is_older_manifest : List Run → Manifest → Manifest → Bool
is_older_manifest runs a b =
    let x = start_or_zero (window_of runs a) in
    let y = start_or_zero (window_of runs b) in ltb x y || x == y && ltb a.manifest_id b.manifest_id

unfoldable pub spent_manifests : ℕ → ℕ → Db → List Manifest
spent_manifests before limit d =
    take limit (sort (is_older_manifest d.runs) (rows (is_spent before d.runs) d.manifests))

abbrev pub among_manifests : List Manifest → Manifest → Bool
among_manifests chosen m = contains (λ (c : Manifest). c.manifest_id == m.manifest_id) chosen

abbrev pub without_text : ℕ → Manifest → Manifest
without_text now m = record m { canonical_text = none; minimized_at = some now }

unfoldable pub minimize_manifests : ℕ → ℕ → Sql ℕ
unfolding spent_manifests
minimize_manifests before limit now d =
    let chosen = among_manifests (spent_manifests before limit d) in
    some (
      count chosen d.manifests,
      record d { manifests = update chosen (without_text now) d.manifests },
    )

-- `Maintenance::minimize_manifests_before`
unfoldable pub minimize_manifests_before : ℕ → ℕ → M MaintenanceError ℕ
minimize_manifests_before before limit =
    execute_alone MaintenanceError.unavailable (minimize_manifests before limit)

-- retention.rs

abbrev pub sweep_batch : ℕ
sweep_batch = 5_000

pub record SweepOutcome : Type 0 where
  pub bodies : ℕ
  pub manifests : ℕ

abbrev pub hour : ℕ
hour = 3_600_000_000

-- `RetentionSweeper::sweep_once`
unfoldable pub sweep_once : ℕ → ℕ → M MaintenanceError SweepOutcome
sweep_once body_days now =
    if ltb now (24 * body_days * hour) then raise MaintenanceError.unavailable else (do
      bodies ← minimize_before (now - 24 * body_days * hour) sweep_batch
      tally (add_bodies bodies)
      manifests ← minimize_manifests_before (now - 24 * body_days * hour) sweep_batch
      tally (add_manifests manifests)
      pure (record { bodies = bodies; manifests = manifests }))
