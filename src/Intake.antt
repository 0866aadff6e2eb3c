-- ===== src/Intake.antt =====
-- src/intake.rs: `CommandIntake`, the transactions that take a Platform command in.
pub mod Atomicity
use ratatoskr_channel_digest.Prelude.{
  ℕ, String, concat, Bool, true, false, ◌&&◌, Option, none, some, ◌==◌, if◌then◌else◌, maybe,
}
use ratatoskr_channel_digest.Contracts.{
  Bytes, OperationStatus, OutputLanguage, SubscriptionSet, RunRequested, External,
}
use ratatoskr_channel_digest.Schema.{Run, RunTrigger, Inbox, InboxState}
use ratatoskr_channel_digest.Storage.{
  Result, ok, err, M, pure, raise, lift, ◌>>=◌, ◌>>◌, and_then, map_err, begin, commit, rollback,
  fresh, execute,
}
use ratatoskr_channel_digest.Statements.{
  processing_row, insert_inbox, complete_inbox, set_subscription, new_run, create_digest_run,
  update_runs,
}
use ratatoskr_channel_digest.Reports.{
  ReportError, OperationReportRow, new_report, caused_by, with_error, enqueue,
}
use ratatoskr_channel_digest.Coordinator.{IntakeOutcome}

abbrev pub subscription_subject : String
subscription_subject = "channel_digest.subscription.set_requested.v1"

abbrev pub run_subject : String
run_subject = "channel_digest.run.requested.v1"

pub data IntakeError : Type 0 where
  invalid storage : IntakeError

abbrev pub from_report : ReportError → IntakeError
from_report ReportError.invalid = IntakeError.invalid
from_report ReportError.storage = IntakeError.storage

pub data CommandKind : Type 0 where
  subscription run : CommandKind

abbrev pub subject_of : CommandKind → String
subject_of CommandKind.subscription = subscription_subject
subject_of CommandKind.run = run_subject

pub data RejectionReason : Type 0 where
  subscription_limit command_invalid : RejectionReason

abbrev pub class : RejectionReason → String
class RejectionReason.subscription_limit = "subscription_limit"
class RejectionReason.command_invalid = "command_invalid"

abbrev pub code : RejectionReason → String
code RejectionReason.subscription_limit = "channel_digest.subscription_limit_reached"
code RejectionReason.command_invalid = "channel_digest.command_invalid"

abbrev pub message : RejectionReason → String
message RejectionReason.subscription_limit = "At most 20 channels can be active at the same time."
message RejectionReason.command_invalid = "The command was rejected because it is not valid."

pub record Rejection : Type 0 where
  pub message_id : ℕ
  pub subject : String
  pub semantic_key : String
  pub payload_sha256 : String
  pub operation_id : ℕ
  pub owner_id : ℕ
  pub reason : RejectionReason

-- The inbox row of a refusal.
abbrev pub rejected_row : Rejection → ℕ → Inbox
rejected_row r now = record {
  message_id = r.message_id;
  subject = r.subject;
  semantic_key = r.semantic_key;
  payload_sha256 = r.payload_sha256;
  state = InboxState.failed;
  completed_at = some now;
  safe_failure_class = some (class r.reason);
}

module _ ⦃ext : External⦄ where
  abbrev pub command_ref : ℕ → String
  command_ref message = concat "command:" (ext.uuid_text message)

  unfoldable pub rejection_report : Rejection → Result ReportError OperationReportRow
  rejection_report r =
      and_then (new_report r.operation_id r.owner_id OperationStatus.failed "rejected") λ row.
        with_error (code r.reason) (message r.reason) false
          (caused_by (command_ref r.message_id) row)

  -- `CommandIntake::reject`
  unfoldable pub reject : Rejection → M IntakeError IntakeOutcome
  reject r = do
    begin IntakeError.storage
    inserted ← execute IntakeError.storage (insert_inbox (rejected_row r))
    if inserted
        then (do
          row ← map_err from_report (lift (rejection_report r))
          map_err from_report (enqueue row)
          commit IntakeError.storage
          pure IntakeOutcome.applied)
        else (do rollback IntakeError.storage; pure IntakeOutcome.replayed)

  -- The report of an accepted command, its inbox row completed, and the commit.
  unfoldable pub finish : ℕ → Result ReportError OperationReportRow → M IntakeError IntakeOutcome
  finish message report = do
    row ← map_err from_report (lift report)
    map_err from_report (enqueue (caused_by (command_ref message) row))
    execute IntakeError.storage (complete_inbox message)
    commit IntakeError.storage
    pure IntakeOutcome.applied

  abbrev pub subscription_rejection : ℕ → Bytes → SubscriptionSet → RejectionReason → Rejection
  subscription_rejection message payload c reason = record {
    message_id = message;
    subject = subscription_subject;
    semantic_key = c.idempotency_key;
    payload_sha256 = ext.sha256_hex payload;
    operation_id = c.operation_id;
    owner_id = c.owner;
    reason = reason;
  }

  -- The transaction of `accept_subscription` behind its inbox row.
  unfoldable pub apply_subscription : ℕ → Bytes → SubscriptionSet → M IntakeError IntakeOutcome
  unfolding finish reject
  apply_subscription message payload c = do
    id ← fresh
    channel ← fresh
    applied ←
        execute IntakeError.storage
          (set_subscription id channel c.owner (ext.lower c.channel_username) c.desired_active)
    if applied
        then finish message (new_report c.operation_id c.owner OperationStatus.succeeded "applied")
        else (do
          rollback IntakeError.storage
          reject (subscription_rejection message payload c RejectionReason.subscription_limit))

  unfoldable pub take_subscription : ℕ → Bytes → SubscriptionSet → M IntakeError IntakeOutcome
  unfolding apply_subscription
  take_subscription message payload c = do
    begin IntakeError.storage
    inserted ← execute IntakeError.storage (
        insert_inbox (λ now.
          processing_row message subscription_subject c.idempotency_key (ext.sha256_hex payload)))
    if inserted
        then apply_subscription message payload c
        else (do rollback IntakeError.storage; pure IntakeOutcome.replayed)

  -- `CommandIntake::accept_subscription`
  unfoldable pub accept_subscription : ℕ → Bytes → M IntakeError IntakeOutcome
  unfolding take_subscription reject
  accept_subscription message payload =
      maybe (ext.decode_subscription payload) (raise IntakeError.invalid) (λ c.
        if ext.subscription_valid c
        then take_subscription message payload c
        else reject (subscription_rejection message payload c RejectionReason.command_invalid))

  -- `CommandIntake::reject_unreadable`
  unfoldable pub reject_unreadable : ℕ → CommandKind → ℕ → Bytes → M IntakeError IntakeOutcome
  unfolding reject
  reject_unreadable message kind tenant payload =
      maybe (ext.payload_operation payload) (raise IntakeError.invalid) (λ operation.
        maybe (ext.payload_owner payload) (raise IntakeError.invalid) (λ owner.
          if owner == tenant
          then reject (record {
            message_id = message;
            subject = subject_of kind;
            semantic_key = concat "invalid:" (ext.uuid_text message);
            payload_sha256 = ext.sha256_hex payload;
            operation_id = operation;
            owner_id = owner;
            reason = RejectionReason.command_invalid;
          })
          else raise IntakeError.invalid))

  abbrev pub run_rejection : ℕ → Bytes → RunRequested → Rejection
  run_rejection message payload c = record {
    message_id = message;
    subject = run_subject;
    semantic_key = c.idempotency_key;
    payload_sha256 = ext.sha256_hex payload;
    operation_id = c.operation_id;
    owner_id = c.owner;
    reason = RejectionReason.command_invalid;
  }

  abbrev pub trigger_of : RunRequested → RunTrigger
  trigger_of c = if c.on_demand then RunTrigger.on_demand else RunTrigger.scheduled

  -- The end of `accept_run`: only an on-demand run reports.
  unfoldable pub finish_run : ℕ → RunRequested → M IntakeError IntakeOutcome
  unfolding finish
  finish_run message c =
      if c.on_demand
      then finish message
          (new_report c.operation_id c.owner OperationStatus.queued "awaiting_acquisition")
      else (do
        execute IntakeError.storage (complete_inbox message)
        commit IntakeError.storage
        pure IntakeOutcome.applied)

  -- The transaction of `accept_run` behind its inbox row.
  unfoldable pub create_run : ℕ → Bytes → RunRequested → M IntakeError IntakeOutcome
  unfolding finish_run reject
  create_run message payload c = do
    selected ← execute IntakeError.storage (
        create_digest_run (
          new_run c.digest_run_id c.owner c.operation_id (trigger_of c) c.idempotency_key
            c.window_start c.window_end OutputLanguage.ru))
    if selected == c.digest_run_id
        then (do
          execute IntakeError.storage (
              update_runs (λ (r : Run). r.run_id == c.digest_run_id && r.owner_id == c.owner)
                (λ now r. record r { output_language = c.output_language }))
          finish_run message c)
        else (do rollback IntakeError.storage; reject (run_rejection message payload c))

  unfoldable pub take_run : ℕ → Bytes → RunRequested → M IntakeError IntakeOutcome
  unfolding create_run
  take_run message payload c = do
    begin IntakeError.storage
    inserted ← execute IntakeError.storage (
        insert_inbox
          (λ now. processing_row message run_subject c.idempotency_key (ext.sha256_hex payload)))
    if inserted
        then create_run message payload c
        else (do rollback IntakeError.storage; pure IntakeOutcome.replayed)

  -- `CommandIntake::accept_run`
  unfoldable pub accept_run : ℕ → Bytes → M IntakeError IntakeOutcome
  unfolding take_run reject
  accept_run message payload = maybe (ext.decode_run payload) (raise IntakeError.invalid) (λ c.
      if ext.run_valid c
      then take_run message payload c
      else reject (run_rejection message payload c))
