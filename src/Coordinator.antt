-- ===== src/Coordinator.antt =====
-- src/coordinator.rs: `DigestCoordinator` from a built manifest to its recap request, and the two
-- ends of a run without a recap. The settlements and the schedule stand in the children.
pub mod Settlement
pub mod Occurrence
pub mod Window
pub mod Redelivery
pub mod Atomicity
use mathlib.Core.Option
use ratatoskr_channel_digest.Prelude.{
  ℕ, ◌-◌, ◌^◌, String, concat, Bool, true, false, not, ◌&&◌, Option, none, some, List, [], ◌∷◌, map,
  ◌==◌, ltb, str_eq, if◌then◌else◌, maybe, select, holds,
}
use ratatoskr_channel_digest.Contracts.{Bytes, OperationStatus, RecapRequested, External}
use ratatoskr_channel_digest.Schema.{
  Db, Run, RunState, is_unsent, Manifest, ManifestMessage, Outbox, Payload,
}
use ratatoskr_channel_digest.Storage.{
  Result, ok, err, M, Sql, pure, raise, lift, ◌>>=◌, ◌>>◌, and_then, map_err, begin, commit,
  rollback, fresh, execute, reading,
}
use ratatoskr_channel_digest.Statements.{
  new_outbox, insert_outbox, insert_manifest, insert_messages, update_runs,
}
use ratatoskr_channel_digest.Reports.{
  ReportError, OperationReportRow, new_report, with_error, enqueue, on_demand_operation,
}

-- intake.rs
pub data IntakeOutcome : Type 0 where
  applied replayed : IntakeOutcome

-- manifest.rs
pub record CanonicalManifest : Type 0 where
  pub manifest_id : ℕ
  pub owner_id : ℕ
  pub run_id : ℕ
  pub text : String
  pub sha256 : String
  pub source_count : ℕ
  pub channel_count : ℕ
  pub messages : List (ℕ × ℕ)

pub data CoordinatorError : Type 0 where
  invalid storage : CoordinatorError

abbrev pub from_report : ReportError → CoordinatorError
from_report ReportError.invalid = CoordinatorError.invalid
from_report ReportError.storage = CoordinatorError.storage

pub data RunFailure : Type 0 where
  provider_unavailable manifest_invalid : RunFailure

abbrev pub class : RunFailure → String
class RunFailure.provider_unavailable = "provider_unavailable"
class RunFailure.manifest_invalid = "manifest_invalid"

abbrev pub stage : RunFailure → String
stage RunFailure.provider_unavailable = "acquiring"
stage RunFailure.manifest_invalid = "manifest"

abbrev pub code : RunFailure → String
code RunFailure.provider_unavailable = "channel_digest.provider_unavailable"
code RunFailure.manifest_invalid = "channel_digest.manifest_invalid"

abbrev pub message : RunFailure → String
message RunFailure.provider_unavailable = "The channel posts could not be read from Telegram."
message RunFailure.manifest_invalid = "The selected posts cannot form a digest manifest."

abbrev pub retryable : RunFailure → Bool
retryable RunFailure.provider_unavailable = true
retryable RunFailure.manifest_invalid = false

-- The run of an owner that no manifest was committed for: `state in ('accepted', 'acquiring')`.
abbrev pub unsent_run : ℕ → ℕ → Run → Bool
unsent_run run owner r = r.run_id == run && r.owner_id == owner && is_unsent r.state

abbrev pub move_to : RunState → ℕ → Run → Run
move_to s now r = record r { state = s; updated_at = now }

abbrev pub fail_with : String → ℕ → Run → Run
fail_with c now r = record r {
  state = RunState.failed;
  safe_failure_class = some c;
  updated_at = now;
}

-- `i32::try_from`
abbrev pub fits_i32 : ℕ → Bool
fits_i32 n = ltb n (2 ^ 31)

-- `.map_err(|_| CoordinatorError::Invalid)?` after `i32::try_from`
unfoldable pub in_i32 : Bool → M CoordinatorError (Unit {0})
in_i32 fits = if fits then pure tt else raise CoordinatorError.invalid

-- `if changed.rows_affected() != 1 { return Err(Invalid) }`
unfoldable pub exactly_one : ℕ → M CoordinatorError (Unit {0})
exactly_one n = if n == 1 then pure tt else raise CoordinatorError.invalid

module _ ⦃ext : External⦄ where
  -- `checked_recap_request`: the conjunction `consistent`
  unfoldable pub consistent : CanonicalManifest → RecapRequested → Bool
  consistent manifest request =
      str_eq request.owner (concat "user:" (ext.uuid_text manifest.owner_id))
      && str_eq request.digest_run_id (ext.uuid_text manifest.run_id)
      && str_eq request.manifest_ref
          (concat "channel-digest-manifest:" (ext.uuid_text manifest.manifest_id))
      && str_eq request.manifest_digest_hex manifest.sha256
      && request.source_count == manifest.source_count
      && request.channel_count == manifest.channel_count

  unfoldable pub checked_recap_request :
      CanonicalManifest → Bytes → Result CoordinatorError (RecapRequested × ℕ)
  checked_recap_request manifest raw = elim (ext.decode_request raw) [
    | none ↦ err CoordinatorError.invalid
    | some request ↦
        if ext.request_valid request && consistent manifest request
        then ok (request, request.operation_id)
        else err CoordinatorError.invalid
  ]

  abbrev pub manifest_row : CanonicalManifest → Manifest
  manifest_row m = record {
    manifest_id = m.manifest_id;
    run_id = m.run_id;
    owner_id = m.owner_id;
    sha256 = m.sha256;
    source_count = m.source_count;
    channel_count = m.channel_count;
    canonical_text = some m.text;
    minimized_at = none;
  }

  -- `existing == Some((manifest_id, owner_id, sha256))`
  abbrev pub is_same_manifest : CanonicalManifest → Manifest → Bool
  is_same_manifest m row =
      row.manifest_id == m.manifest_id && row.owner_id == m.owner_id && str_eq row.sha256 m.sha256

  -- The run already has a manifest.
  unfoldable pub replay_manifest : CanonicalManifest → M CoordinatorError IntakeOutcome
  replay_manifest manifest = do
    existing ←
        execute CoordinatorError.storage
          (reading (λ (d : Db). select (λ (m : Manifest). m.run_id == manifest.run_id) d.manifests))
    rollback CoordinatorError.storage
    if holds (is_same_manifest manifest) existing
        then pure IntakeOutcome.replayed
        else raise CoordinatorError.invalid

  abbrev pub recap_row : ℕ → CanonicalManifest → RecapRequested → ℕ → ℕ → Outbox
  recap_row id manifest request operation =
      new_outbox id "knowledge.channel_digest_recap.requested.v1" (ext.uuid_text manifest.run_id)
        manifest.owner_id (some operation) none (Payload.recap_request request)

  unfoldable pub send_manifest :
      CanonicalManifest → RecapRequested → ℕ → M CoordinatorError IntakeOutcome
  unfolding exactly_one
  send_manifest manifest request operation = do
    execute CoordinatorError.storage (
        insert_messages (
          map
            (λ held. record {
              manifest_id = manifest.manifest_id;
              channel_id = held.0;
              provider_message_id = held.1;
            })
            manifest.messages))
    id ← fresh
    execute CoordinatorError.storage (insert_outbox (recap_row id manifest request operation))
    changed ← execute CoordinatorError.storage (
        update_runs (unsent_run manifest.run_id manifest.owner_id) (move_to RunState.waiting_recap))
    exactly_one changed
    commit CoordinatorError.storage
    pure IntakeOutcome.applied

  -- `DigestCoordinator::commit_manifest`
  unfoldable pub commit_manifest : CanonicalManifest → Bytes → M CoordinatorError IntakeOutcome
  unfolding replay_manifest send_manifest in_i32
  commit_manifest manifest raw = do
    (request, operation) ← lift (checked_recap_request manifest raw)
    begin CoordinatorError.storage
    in_i32 (fits_i32 manifest.source_count && fits_i32 manifest.channel_count)
    inserted ← execute CoordinatorError.storage (insert_manifest (manifest_row manifest))
    if inserted then send_manifest manifest request operation else replay_manifest manifest

  -- The report of a run that ends without a recap, if an operation owns the run.
  unfoldable pub report_end :
      ℕ → ℕ → (ℕ → Result ReportError OperationReportRow) → M CoordinatorError (Unit {0})
  report_end run owner build = do
    owned ← map_err from_report (on_demand_operation run owner)
    maybe owned (pure tt) λ operation. do
      row ← map_err from_report (lift (build operation))
      map_err from_report (enqueue row)

  -- `DigestCoordinator::complete_empty_run`
  unfoldable pub complete_empty_run : ℕ → ℕ → M CoordinatorError (Unit {0})
  unfolding exactly_one report_end
  complete_empty_run run owner = do
    begin CoordinatorError.storage
    changed ←
        execute CoordinatorError.storage
          (update_runs (unsent_run run owner) (move_to RunState.completed))
    exactly_one changed
    report_end run owner
        (λ operation. new_report operation owner OperationStatus.succeeded "no_sources")
    commit CoordinatorError.storage

  -- `DigestCoordinator::fail_run`
  unfoldable pub fail_run : ℕ → ℕ → RunFailure → M CoordinatorError (Unit {0})
  unfolding exactly_one report_end
  fail_run run owner failure = do
    begin CoordinatorError.storage
    changed ←
        execute CoordinatorError.storage
          (update_runs (unsent_run run owner) (fail_with (class failure)))
    exactly_one changed
    report_end run owner (λ operation.
        and_then (new_report operation owner OperationStatus.failed (stage failure))
          (with_error (code failure) (message failure) (retryable failure)))
    commit CoordinatorError.storage
