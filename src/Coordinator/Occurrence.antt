-- ===== src/Coordinator/Occurrence.antt =====
-- src/coordinator.rs: `accept_occurrence` and `fan_out`, with schema.sql's `normalized_window`. An
-- instant is a number of microseconds.
use text.Mathlib.Text.{starts_with}
use ratatoskr_channel_digest.Prelude.{
  ℕ, ◌-◌, ◌*◌, String, concat, Bool, true, ◌&&◌, Option, none, some, List, [], ◌∷◌, max, min, ltb,
  ◌==◌, if◌then◌else◌, rows,
}
use ratatoskr_channel_digest.Contracts.{Bytes, OperationStatus, OutputLanguage, External}
use ratatoskr_channel_digest.Schema.{Db, Subscription, RunTrigger}
use ratatoskr_channel_digest.Storage.{
  M, pure, raise, lift, ◌>>=◌, ◌>>◌, map_err, begin, commit, rollback, fresh, execute, reading,
}
use ratatoskr_channel_digest.Statements.{
  processing_row, insert_inbox, complete_inbox, new_run, insert_run_once,
}
use ratatoskr_channel_digest.Reports.{new_report, caused_by, enqueue}
use ratatoskr_channel_digest.Coordinator.{IntakeOutcome, CoordinatorError, from_report}

pub record OccurrenceRequest : Type 0 where
  pub message_id : ℕ
  pub payload : Bytes
  pub occurrence_key : String
  pub previous_due_at : ℕ
  pub due_at : ℕ
  pub operation_id : ℕ
  pub owner_id : ℕ
  pub output_language : OutputLanguage

abbrev pub occurrence_subject : String
occurrence_subject = "channel_digest.schedule.occurrence_requested.v1"

abbrev pub day : ℕ
day = 86_400_000_000

-- `interval '7 days'`, `interval '24 hours'`
unfoldable pub normalized_window : Bool → ℕ → Option ℕ → ℕ → ℕ × ℕ
normalized_window scheduled activation prior end =
    let week_ago = end - 7 * day in
    (
      max activation (
          if scheduled
          then max (elim prior [ none ↦ week_ago | some at ↦ at ]) week_ago
          else end - day),
      end,
    )

abbrev pub due_subscription : ℕ → Subscription → Bool
due_subscription due s = s.enabled && ltb s.first_activated_at due

-- `group by owner_id order by owner_id`, with `min(first_activated_at)`
unfoldable pub insert_owner : ℕ → ℕ → List (ℕ × ℕ) → List (ℕ × ℕ)
insert_owner owner at [] = (owner, at) ∷ []
insert_owner owner at ((o, a) ∷ rest) =
    let later = (o, a) ∷ insert_owner owner at rest in
    if owner == o
    then (o, min a at) ∷ rest
    else if ltb owner o
    then (owner, at) ∷ (o, a) ∷ rest
    else later

unfoldable pub group_owners : List Subscription → List (ℕ × ℕ)
unfolding insert_owner
group_owners [] = []
group_owners (s ∷ rest) = insert_owner s.owner_id s.first_activated_at (group_owners rest)

-- The owners of a schedule occurrence, each with its first activation.
unfoldable pub due_owners : ℕ → Db → List (ℕ × ℕ)
unfolding group_owners
due_owners due d = group_owners (rows (due_subscription due) d.subscriptions)

-- The loop of `fan_out`.
unfoldable pub fan_out_to :
    String → ℕ → ℕ → ℕ → OutputLanguage → List (ℕ × ℕ) → M CoordinatorError (Unit {0})
fan_out_to key operation previous due language [] = pure tt
fan_out_to key operation previous due language ((owner, activation) ∷ rest) =
    let others = fan_out_to key operation previous due language rest in
    do
      window ←
          execute CoordinatorError.storage
            (reading (λ _. normalized_window true activation (some previous) due))
      id ← fresh
      execute CoordinatorError.storage (
          insert_run_once
            (new_run id owner operation RunTrigger.scheduled key window.0 window.1 language))
      others

-- `fan_out`
unfoldable pub fan_out : String → ℕ → ℕ → ℕ → OutputLanguage → M CoordinatorError (Unit {0})
unfolding fan_out_to
fan_out key operation previous due language = do
  owners ← execute CoordinatorError.storage (reading (due_owners due))
  fan_out_to key operation previous due language owners

module _ ⦃ext : External⦄ where
  -- The transaction of `accept_occurrence` behind its inbox row.
  unfoldable pub serve_occurrence : OccurrenceRequest → M CoordinatorError IntakeOutcome
  serve_occurrence o = do
    fan_out o.occurrence_key o.operation_id o.previous_due_at o.due_at o.output_language
    row ←
        map_err from_report
          (lift (new_report o.operation_id o.owner_id OperationStatus.succeeded "fanned_out"))
    map_err from_report (enqueue (caused_by (concat "command:" (ext.uuid_text o.message_id)) row))
    execute CoordinatorError.storage (complete_inbox o.message_id)
    commit CoordinatorError.storage
    pure IntakeOutcome.applied

  -- `DigestCoordinator::accept_occurrence`
  unfoldable pub accept_occurrence : OccurrenceRequest → M CoordinatorError IntakeOutcome
  unfolding serve_occurrence
  accept_occurrence o =
      if starts_with o.occurrence_key "schedule-occurrence:"
      then (do
        begin CoordinatorError.storage
        inserted ← execute CoordinatorError.storage (
            insert_inbox (λ now.
              processing_row o.message_id occurrence_subject o.occurrence_key
                (ext.sha256_hex o.payload)))
        if inserted
            then serve_occurrence o
            else (do rollback CoordinatorError.storage; pure IntakeOutcome.replayed))
      else raise CoordinatorError.invalid
