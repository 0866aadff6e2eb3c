-- ===== src/Tests/Transactions.antt =====
-- The theorems on the operations of the worker at concrete inputs.
use mathlib.Core.Option
use ratatoskr_channel_digest.Prelude.{
  true, false, none, some, List, [], ◌∷◌, ◌≤◌, arith, concat, ◌≡◌, ◌≢◌, refl, sym, ◌∙◌, count,
  update, contains, str_eq, strip_prefix, maybe, select,
}
use ratatoskr_channel_digest.Contracts.{OutputLanguage}
use ratatoskr_channel_digest.Schema.{Db, empty_db, RunState, Outbox, Payload}
use ratatoskr_channel_digest.Storage.{
  World, lift, query, begin, execute, commit, attempt, raise, pure, fresh, ◌>>=◌, map_err, rollback,
}
use ratatoskr_channel_digest.Statements.{new_outbox, insert_inbox, insert_result, update_runs}
use ratatoskr_channel_digest.Storage.Rules.{Guarded}
use ratatoskr_channel_digest.Coordinator.{RunFailure, commit_manifest, complete_empty_run, fail_run}
use ratatoskr_channel_digest.Coordinator.Settlement.{
  insert_completion, valid_completion, settle_completion, settle_failure,
}
use ratatoskr_channel_digest.Coordinator.Occurrence.{accept_occurrence}
use ratatoskr_channel_digest.Coordinator.Atomicity.{
  may_change, settle_completion-Guarded, settle_failure-Guarded, requests-Guarded,
}
use ratatoskr_channel_digest.Intake.{
  CommandKind, accept_subscription, accept_run, reject_unreadable,
}
use ratatoskr_channel_digest.Intake.Atomicity.{commands-Guarded, reject_unreadable-Guarded}
use ratatoskr_channel_digest.Bus.{
  DeliveryDisposition, handle, answer, completed_event, subscription_command,
}
use ratatoskr_channel_digest.Bus.Delivery.{handle-unchanged}
use ratatoskr_channel_digest.Bus.Outbox.{backoff_seconds}
use ratatoskr_channel_digest.Bus.Backoff.{backoff_seconds-bounds}
use ratatoskr_channel_digest.Coordinator.Redelivery.{occurrence_row}
use ratatoskr_channel_digest.Envelopes.{OutboundMessage, recap_type, producer}
use ratatoskr_channel_digest.Worker.{Operation, perform_all}
use ratatoskr_channel_digest.Executor.{begin_acquisition}
use ratatoskr_channel_digest.Executor.Atomicity.{transactions-Guarded}
use ratatoskr_channel_digest.Worker.Limit.{IsLimited, perform_all-IsLimited}
use ratatoskr_channel_digest.Worker.Settled.{IsSettled, perform_all-IsSettled}
use ratatoskr_channel_digest.Tests.{request, toy, db_in, world, canonical, served}

-- The sixth call fails, behind the inbox row and the stored result.
sent_back :
    (handle ⦃ext = toy⦄ OutputLanguage.en completed_event []
      (world 6 (db_in RunState.waiting_recap))).0
    ≡ DeliveryDisposition.nak
unfolding handle answer settle_completion maybe str_eq strip_prefix lift query begin execute commit
    attempt raise pure fresh insert_inbox insert_completion insert_result update_runs contains
    select count update ◌>>=◌ map_err rollback valid_completion Option.bind
sent_back = refl

nak≢ack : (d : DeliveryDisposition) → d ≡ DeliveryDisposition.nak → d ≢ DeliveryDisposition.ack
nak≢ack d e f =
    let same : DeliveryDisposition.nak ≡ DeliveryDisposition.ack = sym e ∙ f in absurd (cc)

not_acknowledged :
    (handle ⦃ext = toy⦄ OutputLanguage.en completed_event []
      (world 6 (db_in RunState.waiting_recap))).0
    ≢ DeliveryDisposition.ack
not_acknowledged = nak≢ack _ sent_back

handle-unchanged_example :
    (handle ⦃ext = toy⦄ OutputLanguage.en completed_event []
      (world 6 (db_in RunState.waiting_recap))).1.committed
    ≡ db_in RunState.waiting_recap
handle-unchanged_example =
    handle-unchanged ⦃ext = toy⦄ OutputLanguage.en completed_event []
      (world 6 (db_in RunState.waiting_recap)) not_acknowledged

abbrev busy : List Operation
busy =
    Operation.move_run 1 RunState.completed RunState.failed (some "late")
    ∷ Operation.wait 500
    ∷ Operation.reap 400 10
    ∷ []

settled : IsSettled 1 RunState.completed none (db_in RunState.completed)
unfolding contains
settled = (refl, refl, ((λ e. (refl, refl)), tt))

perform_all-IsSettled_example :
    IsSettled 1 RunState.completed none
      (perform_all ⦃ext = toy⦄ busy (world 100 (db_in RunState.completed))).committed
perform_all-IsSettled_example =
    perform_all-IsSettled 1 RunState.completed none ⦃ext = toy⦄ busy
      (world 100 (db_in RunState.completed)) settled settled

settle_completion-Guarded_example : Guarded may_change (settle_completion ⦃ext = toy⦄ 4 [])
settle_completion-Guarded_example = settle_completion-Guarded ⦃ext = toy⦄ 4 []

settle_failure-Guarded_example : Guarded may_change (settle_failure ⦃ext = toy⦄ 4 [])
settle_failure-Guarded_example = settle_failure-Guarded ⦃ext = toy⦄ 4 []

requests-Guarded_example :
    Guarded may_change (accept_occurrence ⦃ext = toy⦄ served)
    × Guarded may_change (commit_manifest ⦃ext = toy⦄ canonical [])
requests-Guarded_example = requests-Guarded ⦃ext = toy⦄ served canonical []

commands-Guarded_example :
    Guarded may_change (accept_subscription ⦃ext = toy⦄ 4 [])
    × Guarded may_change (accept_run ⦃ext = toy⦄ 4 [])
commands-Guarded_example = commands-Guarded ⦃ext = toy⦄ 4 []

reject_unreadable-Guarded_example :
    Guarded may_change (reject_unreadable ⦃ext = toy⦄ 4 CommandKind.run 7 [])
reject_unreadable-Guarded_example = reject_unreadable-Guarded ⦃ext = toy⦄ 4 CommandKind.run 7 []

backoff_seconds-bounds_example : (1 ≤ backoff_seconds 5) × (backoff_seconds 5 ≤ 256)
backoff_seconds-bounds_example = backoff_seconds-bounds 5

abbrev queued : Outbox
queued = new_outbox 8 recap_type "run:u" 7 (some 9) none (Payload.recap_request request) 30

abbrev wrapped : OutboundMessage
wrapped = record {
  subject = concat "cmd." recap_type;
  message_id = 8;
  envelope = record {
    message_id = 8;
    message_type = recap_type;
    issued_at = 30;
    producer = producer;
    aggregate_id = "channel-digest-run:u";
    correlation_id = "operation:u";
    causation_id = none;
    tenant_id = 7;
    payload = Payload.recap_request request;
  };
}

abbrev subscribed : Db
subscribed = record empty_db {
  channels = record { channel_id = 11; username = "news"; display_name = none } ∷ [];
  subscriptions =
      record {
        subscription_id = 12;
        owner_id = 7;
        channel_id = 11;
        first_activated_at = 5;
        enabled = false;
        updated_at = 5;
      }
      ∷ [];
}

limited : IsLimited subscribed
unfolding contains count
limited = ((refl, tt), λ owner. ground arith)

perform_all-IsLimited_example :
    IsLimited
      (perform_all ⦃ext = toy⦄
        (Operation.deliver OutputLanguage.en subscription_command [] ∷ [])
        (world 100 subscribed)).committed
perform_all-IsLimited_example =
    perform_all-IsLimited ⦃ext = toy⦄
      (Operation.deliver OutputLanguage.en subscription_command [] ∷ []) (world 100 subscribed)
      limited limited

transactions-Guarded_example :
    Guarded (λ started. started) (begin_acquisition ⦃ext = toy⦄ 1 7)
    × Guarded (λ _. true) (complete_empty_run ⦃ext = toy⦄ 1 7)
    × Guarded (λ _. true) (fail_run ⦃ext = toy⦄ 1 7 RunFailure.manifest_invalid)
transactions-Guarded_example = transactions-Guarded ⦃ext = toy⦄ 1 7 RunFailure.manifest_invalid

-- The occurrence of another message with the same key is in the inbox.
abbrev recorded_world : World
recorded_world =
    record (world 0 (record empty_db {
      inbox = record (occurrence_row ⦃ext = toy⦄ served) { message_id = 99 } ∷ [];
    })) { fails = λ n. false }
