-- ===== src/Bus.antt =====
-- src/bus.rs: `WorkerMessageHandler`, which turns a delivery into an acknowledgement.
pub mod Outbox
pub mod Delivery
pub mod Backoff
pub mod Rounds
pub mod Consumers
pub mod Consumption
pub mod Answers
use ratatoskr_channel_digest.Prelude.{
  ℕ, String, Bool, true, false, not, ◌&&◌, ◌||◌, Option, none, some, ◌==◌, str_eq, if◌then◌else◌,
  maybe, holds,
}
use ratatoskr_channel_digest.Contracts.{
  Bytes, OutputLanguage, Envelope, OccurrenceRequested, SubscriptionSet, RunRequested,
  RecapCompleted, RecapFailed, External,
}
use ratatoskr_channel_digest.Storage.{Result, ok, err, World, M}
use ratatoskr_channel_digest.Coordinator.{CoordinatorError}
use ratatoskr_channel_digest.Coordinator.Settlement.{settle_completion, settle_failure}
use ratatoskr_channel_digest.Coordinator.Occurrence.{OccurrenceRequest, accept_occurrence}
use ratatoskr_channel_digest.Intake.{
  IntakeError, CommandKind, accept_subscription, accept_run, reject_unreadable as reject_payload,
}

pub data DeliveryDisposition : Type 0 where
  ack term nak : DeliveryDisposition

abbrev pub subscription_command : String
subscription_command = "cmd.channel_digest.subscription.set_requested.v1"

abbrev pub run_command : String
run_command = "cmd.channel_digest.run.requested.v1"

abbrev pub schedule_command : String
schedule_command = "cmd.channel_digest.schedule.occurrence_requested.v1"

abbrev pub completed_event : String
completed_event = "evt.knowledge.channel_digest_recap.completed.v1"

abbrev pub failed_event : String
failed_event = "evt.knowledge.channel_digest_recap.failed.v1"

abbrev pub platform_producer : String
platform_producer = "ratatoskr-platform"

abbrev pub knowledge_producer : String
knowledge_producer = "ratatoskr-knowledge"

-- A handler never fails: its answer is the acknowledgement.
abbrev pub Handler : Type 0
Handler = World → DeliveryDisposition × World

abbrev pub terminate : Handler
terminate w = (DeliveryDisposition.term, w)

abbrev pub of_coordinator : CoordinatorError → DeliveryDisposition
of_coordinator CoordinatorError.invalid = DeliveryDisposition.term
of_coordinator CoordinatorError.storage = DeliveryDisposition.nak

abbrev pub of_intake : IntakeError → DeliveryDisposition
of_intake IntakeError.invalid = DeliveryDisposition.term
of_intake IntakeError.storage = DeliveryDisposition.nak

abbrev pub disposition :
    {E A : Type 0} → (E → DeliveryDisposition) → Result E A → DeliveryDisposition
disposition f (ok a) = DeliveryDisposition.ack
disposition f (err e) = f e

-- `match … .await { Ok(_) => Ack, Err(Invalid) => Term, Err(Storage) => Nak }`
unfoldable pub answer : {E A : Type 0} → (E → DeliveryDisposition) → M E A → Handler
answer f m w = let (r, w') = m w in (disposition f r, w')

-- `occurrence_authority`
unfoldable pub occurrence_authority : Envelope → Option (ℕ × ℕ)
occurrence_authority e =
    if str_eq e.correlation_kind "operation"
    then maybe e.correlation_uuid (none)
        (λ operation. maybe e.tenant (none) (λ owner. some (operation, owner)))
    else none

module _ ⦃ext : External⦄ where
  unfoldable pub handle_occurrence : OutputLanguage → Envelope → Handler
  handle_occurrence language e =
      if str_eq e.message_type ext.occurrence_type
      then maybe (ext.decode_occurrence e.payload) (terminate) (λ c.
        if ext.occurrence_valid c && str_eq e.aggregate_id c.occurrence_ref
        then maybe (occurrence_authority e) (terminate) (λ (operation, owner).
          answer of_coordinator (
            accept_occurrence (record {
              message_id = e.message_id;
              payload = ext.encode_occurrence c;
              occurrence_key = c.occurrence_ref;
              previous_due_at = c.previous_due_at;
              due_at = c.due_at;
              operation_id = operation;
              owner_id = owner;
              output_language = language;
            })))
        else terminate)
      else terminate

  -- `WorkerMessageHandler::reject_unreadable`
  unfoldable pub reject_unreadable : Envelope → CommandKind → Handler
  reject_unreadable e kind =
      maybe e.tenant (terminate)
        (λ tenant. answer of_intake (reject_payload e.message_id kind tenant e.payload))

  unfoldable pub handle_subscription : Envelope → Handler
  unfolding reject_unreadable
  handle_subscription e =
      if str_eq e.message_type ext.subscription_type
      then maybe (ext.decode_subscription e.payload) (reject_unreadable e CommandKind.subscription)
          (λ c.
            if holds (λ tenant. tenant == c.owner) e.tenant
            then answer of_intake (accept_subscription e.message_id (ext.encode_subscription c))
            else terminate)
      else terminate

  unfoldable pub handle_run : Envelope → Handler
  unfolding reject_unreadable
  handle_run e =
      if str_eq e.message_type ext.run_type
      then maybe (ext.decode_run e.payload) (reject_unreadable e CommandKind.run) (λ c.
        if holds (λ tenant. tenant == c.owner) e.tenant
        then answer of_intake (accept_run e.message_id (ext.encode_run c))
        else terminate)
      else terminate

  -- `WorkerMessageHandler::handle_command`
  unfoldable pub handle_command : OutputLanguage → String → Bytes → Handler
  unfolding handle_occurrence handle_subscription handle_run
  handle_command language subject bytes = maybe (ext.decode_command bytes) (terminate) (λ e.
      if str_eq e.producer platform_producer
      then if str_eq subject schedule_command
        then handle_occurrence language e
        else if str_eq subject subscription_command
        then handle_subscription e
        else if str_eq subject run_command
        then handle_run e
        else terminate
      else terminate)

  unfoldable pub handle_completed : Envelope → Handler
  handle_completed e =
      if str_eq e.message_type ext.completed_type
      then maybe (ext.decode_completed e.payload) (terminate) (λ fact.
        if holds (λ tenant. tenant == fact.owner) e.tenant
        then answer of_coordinator (settle_completion e.message_id (ext.encode_completed fact))
        else terminate)
      else terminate

  unfoldable pub handle_failed : Envelope → Handler
  handle_failed e =
      if str_eq e.message_type ext.failed_type
      then maybe (ext.decode_failed e.payload) (terminate) (λ fact.
        if holds (λ tenant. tenant == fact.owner) e.tenant
        then answer of_coordinator (settle_failure e.message_id (ext.encode_failed fact))
        else terminate)
      else terminate

  -- `WorkerMessageHandler::handle_event`
  unfoldable pub handle_event : String → Bytes → Handler
  unfolding handle_completed handle_failed
  handle_event subject bytes = maybe (ext.decode_event bytes) (terminate) (λ e.
      if str_eq e.producer knowledge_producer
      then if str_eq subject completed_event
        then handle_completed e
        else if str_eq subject failed_event
        then handle_failed e
        else terminate
      else terminate)

  -- `WorkerMessageHandler::handle`
  unfoldable pub handle : OutputLanguage → String → Bytes → Handler
  unfolding handle_command handle_event
  handle language subject bytes =
      if str_eq subject subscription_command
        || str_eq subject run_command
        || str_eq subject schedule_command
      then handle_command language subject bytes
      else if str_eq subject completed_event || str_eq subject failed_event
      then handle_event subject bytes
      else terminate
