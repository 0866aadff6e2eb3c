-- ===== src/Coordinator/Settlement.antt =====
-- src/coordinator.rs: `settle_completion`, `settle_failure` and `classify_failure`, which end a run on
-- a fact of the Knowledge service.
use mathlib.Core.Option
use ratatoskr_channel_digest.Prelude.{
  ℕ, String, Bool, true, false, not, ◌&&◌, Option, none, some, ◌==◌, leb, str_eq, strip_prefix,
  if◌then◌else◌, maybe, select, holds,
}
use ratatoskr_channel_digest.Contracts.{
  Bytes, RecapCompleted, RecapFailed, RecapFailureCode, External,
}
use ratatoskr_channel_digest.Schema.{Db, Run, RunState, state_eq, Manifest, DigestResult}
use ratatoskr_channel_digest.Storage.{
  Result, ok, err, M, Sql, pure, raise, lift, ◌>>=◌, ◌>>◌, map_err, begin, commit, rollback, fresh,
  execute, query,
}
use ratatoskr_channel_digest.Statements.{
  processing_row, insert_inbox, complete_inbox, insert_result, update_runs,
}
use ratatoskr_channel_digest.Reports.{report_completion, report_recap_failure}
use ratatoskr_channel_digest.Coordinator.{
  IntakeOutcome, CoordinatorError, from_report, move_to, fail_with, exactly_one,
}

abbrev pub completed_subject : String
completed_subject = "knowledge.channel_digest_recap.completed.v1"

abbrev pub failed_subject : String
failed_subject = "knowledge.channel_digest_recap.failed.v1"

abbrev pub run_of : ℕ → ℕ → Run → Bool
run_of run owner r = r.run_id == run && r.owner_id == owner

-- `… and state = 'waiting_recap'`
abbrev pub waiting_run : ℕ → ℕ → Run → Bool
waiting_run run owner r =
    r.run_id == run && r.owner_id == owner && state_eq r.state RunState.waiting_recap

abbrev pub manifest_of : ℕ → ℕ → Manifest → Bool
manifest_of run owner m = m.run_id == run && m.owner_id == owner

-- `select acquisition_incomplete … .unwrap_or(false)`
abbrev pub incomplete_of : ℕ → ℕ → Db → Bool
incomplete_of run owner d =
    holds (λ (r : Run). r.acquisition_incomplete) (select (run_of run owner) d.runs)

abbrev pub outcome_for : ℕ → Bool → RunState
outcome_for omitted incomplete =
    if omitted == 0 && not incomplete then RunState.completed else RunState.partial

-- The join of a run and its manifest.
abbrev pub both : {A B : Type 0} → Option A → Option B → Option (A × B)
both (some a) (some b) = some (a, b)
both _ _ = none

-- `digest_runs r join digest_manifests m using (run_id) where r.run_id = $1 and r.owner_id = $2 …`
abbrev pub durable_run : ℕ → ℕ → Db → Option (Run × Manifest)
durable_run run owner d =
    both (select (run_of run owner) d.runs) (select (manifest_of run owner) d.manifests)

-- `classify_failure`
unfoldable pub classify_failure : RecapFailureCode → String × Bool
classify_failure RecapFailureCode.manifest_unavailable = ("manifest_unavailable", true)
classify_failure RecapFailureCode.manifest_integrity = ("manifest_integrity", false)
classify_failure RecapFailureCode.unsupported_language = ("unsupported_language", false)
classify_failure RecapFailureCode.context_budget = ("context_budget", false)
classify_failure RecapFailureCode.provider_unavailable = ("provider_unavailable", true)
classify_failure RecapFailureCode.provider_timeout = ("provider_timeout", true)
classify_failure RecapFailureCode.invalid_output = ("invalid_output", false)
classify_failure RecapFailureCode.cost_budget = ("cost_budget", false)
classify_failure RecapFailureCode.cancelled = ("cancelled", false)

-- The stored result that has the identity of a completion, with its manifest.
abbrev pub stored_result : ℕ → Db → Option (DigestResult × Manifest)
stored_result id d = elim (select (λ (r : DigestResult). r.result_id == id) d.results) [
  | none ↦ none
  | some r ↦ elim (select (λ (m : Manifest). m.manifest_id == r.manifest_id) d.manifests) [
    | none ↦ none
    | some m ↦ some (r, m)
  ]
]

-- `existing == (run_id, owner_id, manifest digest, analysis, result digest, outcome, citations)`
abbrev pub same_result : RecapCompleted → ℕ → RunState → ℕ → String → DigestResult → Manifest → Bool
same_result fact analysis outcome recap hex r m =
    r.run_id == fact.digest_run_id
    && r.owner_id == fact.owner
    && str_eq m.sha256 fact.manifest_digest_hex
    && recap == analysis
    && str_eq hex fact.result_digest_hex
    && state_eq r.outcome outcome
    && r.citation_count == fact.included_count

-- A failed row has no recap, and its NULL does not decode.
unfoldable pub compare_existing :
    RecapCompleted → ℕ → RunState → DigestResult × Manifest → Result CoordinatorError IntakeOutcome
compare_existing fact analysis outcome (r, m) = elim (both r.recap_id r.result_digest_hex) [
  | none ↦ err CoordinatorError.storage
  | some (recap, hex) ↦
      if same_result fact analysis outcome recap hex r m
      then ok IntakeOutcome.replayed
      else err CoordinatorError.invalid
]

abbrev pub result_row : RecapCompleted → ℕ → RunState → ℕ → ℕ → DigestResult
result_row fact analysis outcome manifest now = record {
  result_id = fact.digest_result_id;
  run_id = fact.digest_run_id;
  manifest_id = manifest;
  owner_id = fact.owner;
  outcome = outcome;
  recap_id = some analysis;
  result_digest_hex = some fact.result_digest_hex;
  citation_count = fact.included_count;
  safe_failure_class = none;
  created_at = now;
}

-- `insert into digest_results … select … from digest_runs r join digest_manifests m …`: the row count
unfoldable pub insert_completion : RecapCompleted → ℕ → RunState → Sql ℕ
insert_completion fact analysis outcome now d =
    maybe
      (both (select (run_of fact.digest_run_id fact.owner) d.runs)
        (select (λ (m : Manifest). m.run_id == fact.digest_run_id) d.manifests))
      (some (0, d))
      λ rm.
        maybe (insert_result (result_row fact analysis outcome rm.1.manifest_id) now d) none
          λ after. some (1, after.1)

-- The refusal of a completion that the durable run and manifest do not bear out.
abbrev pub bears_out : RecapCompleted → Run → Manifest → Bool
bears_out fact r m =
    state_eq r.state RunState.waiting_recap
    && str_eq fact.manifest_digest_hex m.sha256
    && fact.selected_count == m.source_count
    && leb fact.channel_count m.channel_count

abbrev pub failed_row : ℕ → ℕ → ℕ → ℕ → String → ℕ → DigestResult
failed_row id run owner manifest class now = record {
  result_id = id;
  run_id = run;
  manifest_id = manifest;
  owner_id = owner;
  outcome = RunState.failed;
  recap_id = none;
  result_digest_hex = none;
  citation_count = 0;
  safe_failure_class = some class;
  created_at = now;
}

module _ ⦃ext : External⦄ where
  -- The transaction of `settle_completion` behind its inbox row.
  unfoldable pub record_completion :
      ℕ → RecapCompleted → ℕ → RunState → Bool → M CoordinatorError IntakeOutcome
  unfolding exactly_one
  record_completion message fact analysis outcome incomplete = do
    inserted ← execute CoordinatorError.storage (insert_completion fact analysis outcome)
    exactly_one inserted
    changed ←
        execute CoordinatorError.storage
          (update_runs (waiting_run fact.digest_run_id fact.owner) (move_to outcome))
    exactly_one changed
    map_err from_report (
        report_completion fact.digest_run_id fact.owner message fact.result_ref fact.omitted_count
          incomplete)
    execute CoordinatorError.storage (complete_inbox message)
    commit CoordinatorError.storage
    pure IntakeOutcome.applied

  -- A delivery whose inbox row is there already.
  unfoldable pub replayed_delivery : M CoordinatorError IntakeOutcome
  replayed_delivery = do rollback CoordinatorError.storage; pure IntakeOutcome.replayed

  unfoldable pub settle_new :
      ℕ → Bytes → RecapCompleted → ℕ → RunState → Bool → M CoordinatorError IntakeOutcome
  unfolding record_completion replayed_delivery
  settle_new message bytes fact analysis outcome incomplete = do
    durable ← query CoordinatorError.storage (durable_run fact.digest_run_id fact.owner)
    if holds (λ (rm : Run × Manifest). bears_out fact rm.0 rm.1) durable
        then (do
          begin CoordinatorError.storage
          inserted ← execute CoordinatorError.storage (
              insert_inbox (λ now.
                processing_row message completed_subject (ext.uuid_text fact.digest_result_id)
                  (ext.sha256_hex bytes)))
          if inserted
              then record_completion message fact analysis outcome incomplete
              else replayed_delivery)
        else raise CoordinatorError.invalid

  -- `analysis_ref.strip_prefix("analysis:").and_then(Uuid::parse_str)`
  abbrev pub analysis_of : RecapCompleted → Option ℕ
  analysis_of fact = Option.bind (strip_prefix "analysis:" fact.analysis_ref) ext.parse_uuid

  unfoldable pub valid_completion : Bytes → Result CoordinatorError (RecapCompleted × ℕ)
  valid_completion bytes = elim (ext.decode_completed bytes) [
    | none ↦ err CoordinatorError.invalid
    | some fact ↦
        if ext.completed_valid fact
        then elim (analysis_of fact) [
          | none ↦ err CoordinatorError.invalid
          | some analysis ↦ ok (fact, analysis)
        ]
        else err CoordinatorError.invalid
  ]

  -- `DigestCoordinator::settle_completion`
  unfoldable pub settle_completion : ℕ → Bytes → M CoordinatorError IntakeOutcome
  unfolding settle_new
  settle_completion message bytes = do
    (fact, analysis) ← lift (valid_completion bytes)
    incomplete ← query CoordinatorError.storage (incomplete_of fact.digest_run_id fact.owner)
    existing ← query CoordinatorError.storage (stored_result fact.digest_result_id)
    maybe existing
        (settle_new message bytes fact analysis (outcome_for fact.omitted_count incomplete)
          incomplete)
        λ row. lift (compare_existing fact analysis (outcome_for fact.omitted_count incomplete) row)

  -- The transaction of `settle_failure` behind its inbox row.
  unfoldable pub record_failure : ℕ → RecapFailed → Manifest → M CoordinatorError IntakeOutcome
  unfolding exactly_one
  record_failure message fact manifest = do
    id ← fresh
    execute CoordinatorError.storage (
        insert_result (
          failed_row id fact.digest_run_id fact.owner manifest.manifest_id
            (classify_failure fact.failure_code).0))
    changed ← execute CoordinatorError.storage (
        update_runs (waiting_run fact.digest_run_id fact.owner)
          (fail_with (classify_failure fact.failure_code).0))
    exactly_one changed
    map_err from_report (
        report_recap_failure fact.digest_run_id fact.owner message
          (classify_failure fact.failure_code).0 (classify_failure fact.failure_code).1)
    execute CoordinatorError.storage (complete_inbox message)
    commit CoordinatorError.storage
    pure IntakeOutcome.applied

  unfoldable pub settle_failed_run :
      ℕ → Bytes → RecapFailed → Run × Manifest → M CoordinatorError IntakeOutcome
  unfolding record_failure replayed_delivery
  settle_failed_run message bytes fact (r, m) =
      if state_eq r.state RunState.failed
      then pure IntakeOutcome.replayed
      else if state_eq r.state RunState.waiting_recap && str_eq fact.manifest_digest_hex m.sha256
      then (do
        begin CoordinatorError.storage
        inserted ← execute CoordinatorError.storage (
            insert_inbox (λ now.
              processing_row message failed_subject (ext.uuid_text fact.digest_run_id)
                (ext.sha256_hex bytes)))
        if inserted then record_failure message fact m else replayed_delivery)
      else raise CoordinatorError.invalid

  unfoldable pub valid_failure : Bytes → Result CoordinatorError RecapFailed
  valid_failure bytes = elim (ext.decode_failed bytes) [
    | none ↦ err CoordinatorError.invalid
    | some fact ↦ if ext.failed_valid fact then ok fact else err CoordinatorError.invalid
  ]

  -- `DigestCoordinator::settle_failure`
  unfoldable pub settle_failure : ℕ → Bytes → M CoordinatorError IntakeOutcome
  unfolding settle_failed_run
  settle_failure message bytes = do
    fact ← lift (valid_failure bytes)
    durable ← query CoordinatorError.storage (durable_run fact.digest_run_id fact.owner)
    maybe durable (raise CoordinatorError.invalid) (settle_failed_run message bytes fact)
