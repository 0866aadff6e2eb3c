-- ===== src/Intake/Atomicity.antt =====
-- The transactions of intake.rs are atomic, the refusals that follow a rollback included.
use ratatoskr_channel_digest.Prelude.{ℕ}
use ratatoskr_channel_digest.Contracts.{Bytes, SubscriptionSet, RunRequested, External}
use ratatoskr_channel_digest.Storage.{Result}
use ratatoskr_channel_digest.Storage.Rules.{Guarded, guarded_rules}
use ratatoskr_channel_digest.Reports.{ReportError, OperationReportRow}
use ratatoskr_channel_digest.Coordinator.Atomicity.{may_change, enqueue-Quiet}
use ratatoskr_channel_digest.Intake.{
  Rejection, CommandKind, reject, finish, apply_subscription, take_subscription,
  accept_subscription, reject_unreadable, finish_run, create_run, take_run, accept_run,
}

module _ ⦃ext : External⦄ where
  ruleset parts = (guarded_rules, enqueue-Quiet)

  pub reject-Guarded : (r : Rejection) → Guarded may_change (reject r)
  unfolding reject
  reject-Guarded r = search parts depth 20

  finish-Guarded :
      (message : ℕ) (report : Result ReportError OperationReportRow)
      → Guarded may_change (finish message report)
  unfolding finish
  finish-Guarded message report = search parts depth 20

  apply_subscription-Guarded :
      (message : ℕ) (payload : Bytes) (c : SubscriptionSet)
      → Guarded may_change (apply_subscription message payload c)
  unfolding apply_subscription
  apply_subscription-Guarded message payload c =
      search (parts, finish-Guarded, reject-Guarded) depth 20

  take_subscription-Guarded :
      (message : ℕ) (payload : Bytes) (c : SubscriptionSet)
      → Guarded may_change (take_subscription message payload c)
  unfolding take_subscription
  take_subscription-Guarded message payload c = search (parts, apply_subscription-Guarded) depth 20

  -- A subscription command changes the database only when it answers `Applied`, whether it was
  -- applied or refused for good.
  pub accept_subscription-Guarded :
      (message : ℕ) (payload : Bytes) → Guarded may_change (accept_subscription message payload)
  unfolding accept_subscription
  accept_subscription-Guarded message payload =
      search (parts, take_subscription-Guarded, reject-Guarded) depth 20

  -- A refusal of an unreadable command changes the database only when it is recorded.
  pub reject_unreadable-Guarded :
      (message : ℕ) (kind : CommandKind) (tenant : ℕ) (payload : Bytes)
      → Guarded may_change (reject_unreadable message kind tenant payload)
  unfolding reject_unreadable
  reject_unreadable-Guarded message kind tenant payload = search (parts, reject-Guarded) depth 20

  finish_run-Guarded : (message : ℕ) (c : RunRequested) → Guarded may_change (finish_run message c)
  unfolding finish_run
  finish_run-Guarded message c = search (parts, finish-Guarded) depth 20

  create_run-Guarded :
      (message : ℕ) (payload : Bytes) (c : RunRequested)
      → Guarded may_change (create_run message payload c)
  unfolding create_run
  create_run-Guarded message payload c = search (parts, finish_run-Guarded, reject-Guarded) depth 20

  take_run-Guarded :
      (message : ℕ) (payload : Bytes) (c : RunRequested)
      → Guarded may_change (take_run message payload c)
  unfolding take_run
  take_run-Guarded message payload c = search (parts, create_run-Guarded) depth 20

  -- A run command changes the database only when it answers `Applied`, whether it created a run or
  -- was refused for good.
  pub accept_run-Guarded :
      (message : ℕ) (payload : Bytes) → Guarded may_change (accept_run message payload)
  unfolding accept_run
  accept_run-Guarded message payload = search (parts, take_run-Guarded, reject-Guarded) depth 20

  -- A command to subscribe or to run changes the database only when it answers `Applied`, whether it
  -- was applied or refused for good.
  pub commands-Guarded :
      (message : ℕ) (payload : Bytes)
      → Guarded may_change (accept_subscription message payload)
        × Guarded may_change (accept_run message payload)
  commands-Guarded message payload =
      (accept_subscription-Guarded message payload, accept_run-Guarded message payload)
