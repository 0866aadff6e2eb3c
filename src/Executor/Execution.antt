-- ===== src/Executor/Execution.antt =====
-- src/executor.rs: `RunExecutor::execute_one`, from the next pending run to its manifest, its end or
-- its deferral. The provider is an argument.
use text.Mathlib.Text.{starts_with}
use ratatoskr_channel_digest.Prelude.{
  ℕ, suc, String, concat, Bool, true, false, not, ◌&&◌, ◌||◌, Option, none, some, List, [], ◌∷◌,
  map, max, min, ltb, ◌==◌, str_eq, if◌then◌else◌, maybe, length, is_empty, contains, rows, sort,
  take,
}
use ratatoskr_channel_digest.Contracts.{Bytes, OutputLanguage, RecapDocument, External}
use ratatoskr_channel_digest.Schema.{
  Db, Run, RunState, state_eq, is_unsent, Lease, Subscription, Channel,
}
use ratatoskr_channel_digest.Storage.{
  Result, ok, err, M, Sql, pure, raise, ◌>>=◌, ◌>>◌, map_err, recover, fresh, execute_alone, query,
}
use ratatoskr_channel_digest.Statements.{active_of}
use ratatoskr_channel_digest.Coordinator.{
  CanonicalManifest, CoordinatorError, RunFailure, commit_manifest, complete_empty_run, fail_run,
}
use ratatoskr_channel_digest.Provider.{PublicChannelProvider}
use ratatoskr_channel_digest.Acquisition.{AcquisitionRequest, AcquisitionError, AcquisitionReport}
use ratatoskr_channel_digest.Acquisition.Engine
use ratatoskr_channel_digest.ManifestBuilder.{ManifestSource, ManifestError, build, text_before}
use ratatoskr_channel_digest.Executor.{RunExecutionError, begin_acquisition, record_acquisition}
use ratatoskr_channel_digest.Executor.Selection.{Selection, selection}

pub record PendingRun : Type 0 where
  pub run_id : ℕ
  pub owner_id : ℕ
  pub window_start : String
  pub window_end : String
  pub language : OutputLanguage
  pub state : RunState
  pub operation_id : ℕ

pub data Acquired : Type 0 where
  complete incomplete deferred unavailable : Acquired

abbrev pub from_coordinator : CoordinatorError → RunExecutionError
from_coordinator e = RunExecutionError.unavailable

-- A lease of the run says that the provider must be waited for.
abbrev pub is_waiting : ℕ → ℕ → Lease → Bool
is_waiting now run l =
    l.resource_id == run
    && starts_with l.resource_kind "acquisition:"
    && str_eq l.checkpoint.state "flood_wait"
    && ltb now l.expires_at

abbrev pub is_pending : ℕ → Db → Run → Bool
is_pending now d r = is_unsent r.state && not (contains (is_waiting now r.run_id) d.leases)

-- `order by r.created_at, r.run_id`
abbrev pub created_before : Run → Run → Bool
created_before a b =
    ltb a.created_at b.created_at || a.created_at == b.created_at && ltb a.run_id b.run_id

abbrev pub first_of : {A : Type 0} → List A → Option A
first_of [] = none
first_of (x ∷ xs) = some x

unfoldable pub next_pending : Sql (Option Run)
next_pending now d = some (first_of (sort created_before (rows (is_pending now d) d.runs)), d)

-- What the acquisition of the channels adds up to.
pub record Tally : Type 0 where
  pub successful : ℕ
  pub deferred : ℕ
  pub incomplete : Bool

abbrev pub counted : Result AcquisitionError AcquisitionReport → Tally → Tally
counted (ok report) t = record t {
  successful = suc t.successful;
  incomplete = t.incomplete || report.partial;
}
counted (err AcquisitionError.deferred) t = record t { deferred = suc t.deferred }
counted (err AcquisitionError.unavailable) t = record t { incomplete = true }

unfoldable pub judge : List (ℕ × String) → Tally → Acquired
judge subscriptions t =
    if ltb 0 t.deferred
    then Acquired.deferred
    else if not (is_empty subscriptions) && t.successful == 0
    then Acquired.unavailable
    else if t.incomplete
    then Acquired.incomplete
    else Acquired.complete

-- The owner's channels by username.
abbrev pub channels_of : ℕ → Db → List (ℕ × String)
channels_of owner d =
    map (λ (c : Channel). (c.channel_id, c.username))
      (take 20 (
        sort (λ (a b : Channel). text_before a.username b.username)
          (rows
            (λ (c : Channel).
              contains (λ (s : Subscription). active_of owner s && s.channel_id == c.channel_id)
                d.subscriptions)
            d.channels)))

-- `source_count.clamp(1, MAX_SOURCE_COUNT)`
abbrev pub clamp_count : ℕ → ℕ
clamp_count n = min 100 (max 1 n)

module _ ⦃ext : External⦄ where
  abbrev pub pending_of : Run → PendingRun
  pending_of r = record {
    run_id = r.run_id;
    owner_id = r.owner_id;
    window_start = ext.instant_text r.window_start;
    window_end = ext.instant_text r.window_end;
    language = r.output_language;
    state = r.state;
    operation_id = r.operation_id;
  }

  -- `recap_request`
  abbrev pub recap_document : PendingRun → CanonicalManifest → RecapDocument
  recap_document run m = record {
    operation_id = run.operation_id;
    owner = concat "user:" (ext.uuid_text run.owner_id);
    digest_run_id = ext.uuid_text run.run_id;
    window_start = run.window_start;
    window_end = run.window_end;
    output_language = run.language;
    source_count = m.source_count;
    channel_count = m.channel_count;
    manifest_ref = concat "channel-digest-manifest:" (ext.uuid_text m.manifest_id);
    manifest_digest_hex = m.sha256;
  }

  abbrev pub recap_request : PendingRun → CanonicalManifest → Bytes
  recap_request run m = ext.encode_document (recap_document run m)

  -- `RunExecutor::select_sources`; a text that PostgreSQL cannot read fails the statement.
  unfoldable pub select_sources : ℕ → PendingRun → M RunExecutionError Selection
  select_sources limit run =
      maybe (ext.cast_instant run.window_start) (raise RunExecutionError.unavailable) λ start.
        maybe (ext.cast_instant run.window_end) (raise RunExecutionError.unavailable)
          λ end. query RunExecutionError.unavailable (selection limit run.owner_id start end)

  -- The manifest of a selection that is not empty.
  unfoldable pub commit_built :
      PendingRun → Result ManifestError CanonicalManifest → M RunExecutionError (Unit {0})
  commit_built run (err e) =
      map_err from_coordinator (fail_run run.run_id run.owner_id RunFailure.manifest_invalid)
  commit_built run (ok m) = do
    map_err from_coordinator (commit_manifest m (recap_request run m))
    pure tt

  -- `RunExecutor::commit`
  unfoldable pub commit : PendingRun → List ManifestSource → Bool → M RunExecutionError (Unit {0})
  commit run sources gap =
      if is_empty sources
      then map_err from_coordinator (
          if gap
          then fail_run run.run_id run.owner_id RunFailure.provider_unavailable
          else complete_empty_run run.run_id run.owner_id)
      else (do
        id ← fresh
        commit_built run (build id run.owner_id run.run_id run.window_start run.window_end sources))

module _ ⦃ext : External⦄ (provider : PublicChannelProvider) (source_count : ℕ) where
  abbrev pub channel_request : PendingRun → ℕ × String → AcquisitionRequest
  channel_request run (channel, username) = record {
    run_id = run.run_id;
    channel_id = channel;
    username = username;
    window_start = run.window_start;
    window_end = run.window_end;
    max_pages = 20;
    page_size = 100;
  }

  -- The loop of `RunExecutor::acquire`
  unfoldable pub acquire_channels :
      PendingRun → Tally → List (ℕ × String) → M RunExecutionError Tally
  acquire_channels run t [] = pure t
  acquire_channels run t (c ∷ cs) = do
    outcome ← recover (Engine.acquire provider (channel_request run c))
    acquire_channels run (counted outcome t) cs

  -- `RunExecutor::acquire`
  unfoldable pub acquire : PendingRun → List (ℕ × String) → M RunExecutionError Acquired
  unfolding judge
  acquire run subscriptions = do
    t ←
        acquire_channels run (record { successful = 0; deferred = 0; incomplete = false })
          subscriptions
    pure (judge subscriptions t)

  -- Behind an acquisition that lets the run go on.
  unfoldable pub conclude : PendingRun → Bool → M RunExecutionError Bool
  conclude run gap = do
    chosen ← select_sources (clamp_count source_count) run
    record_acquisition run.run_id (gap || ltb (length chosen.sources) chosen.eligible)
    commit run chosen.sources (gap || ltb (length chosen.sources) chosen.eligible)
    pure true

  unfoldable pub proceed : PendingRun → Acquired → M RunExecutionError Bool
  proceed run Acquired.deferred = pure true
  proceed run Acquired.unavailable = do
    map_err from_coordinator (fail_run run.run_id run.owner_id RunFailure.provider_unavailable)
    pure true
  proceed run Acquired.complete = conclude run false
  proceed run Acquired.incomplete = conclude run true

  -- `execute_one` for the run that it selected
  unfoldable pub execute_run : PendingRun → M RunExecutionError Bool
  execute_run run = do
    started ←
        (if state_eq run.state RunState.accepted
          then begin_acquisition run.run_id run.owner_id
          else pure true)
    if started
        then (do
          subscriptions ← query RunExecutionError.unavailable (channels_of run.owner_id)
          acquired ← acquire run subscriptions
          proceed run acquired)
        else pure true

  -- `RunExecutor::execute_one`
  unfoldable pub execute_one : M RunExecutionError Bool
  unfolding next_pending
  execute_one = do
    pending ← execute_alone RunExecutionError.unavailable next_pending
    maybe pending (pure false) λ r. execute_run (pending_of r)
