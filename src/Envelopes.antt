-- ===== src/Envelopes.antt =====
-- src/envelopes.rs: the contract envelope of an outbox row, built at publish time from the row alone.
pub mod Wrap
use ratatoskr_channel_digest.Prelude.{
  ℕ, String, concat, Bool, true, ◌&&◌, ◌||◌, Option, none, some, str_eq, if◌then◌else◌,
}
use ratatoskr_channel_digest.Contracts.{External}
use ratatoskr_channel_digest.Schema.{Outbox, Payload}
use ratatoskr_channel_digest.Reports.{report_subject}

abbrev pub producer : String
producer = "ratatoskr-channel-digests"

abbrev pub recap_type : String
recap_type = "knowledge.channel_digest_recap.requested.v1"

abbrev pub registration_type : String
registration_type = "platform.schedule.registration_requested.v1"

-- The envelope before it is serialized.
pub record OutboundEnvelope : Type 0 where
  pub message_id : ℕ
  pub message_type : String
  pub issued_at : ℕ
  pub producer : String
  pub aggregate_id : String
  pub correlation_id : String
  pub causation_id : Option String
  pub tenant_id : ℕ
  pub payload : Payload

pub record OutboundMessage : Type 0 where
  pub subject : String
  pub message_id : ℕ
  pub envelope : OutboundEnvelope

module _ ⦃ext : External⦄ where
  -- `causation`: an absent reference is one, a present one parses.
  abbrev pub causation_parses : Option String → Bool
  causation_parses none = true
  causation_parses (some reference) = ext.parses_entity reference

  -- `command_envelope`, and the same for an event
  unfoldable pub envelope : Outbox → String → Payload → String → String → Option OutboundEnvelope
  envelope row kind payload aggregate correlation =
      if ext.parses_producer producer
        && ext.parses_entity aggregate
        && ext.parses_entity correlation
        && causation_parses row.causation_ref
      then some (record {
        message_id = row.outbox_id;
        message_type = kind;
        issued_at = row.created_at;
        producer = producer;
        aggregate_id = aggregate;
        correlation_id = correlation;
        causation_id = row.causation_ref;
        tenant_id = row.owner_id;
        payload = payload;
      })
      else none

  -- `recap_request_envelope`
  unfoldable pub recap_request_envelope : Outbox → Option OutboundEnvelope
  recap_request_envelope row = elim row.payload [
    | Payload.recap_request request ↦
        if ext.request_valid request
        then envelope row recap_type (Payload.recap_request request)
            (concat "channel-digest-run:" request.digest_run_id)
            (concat "operation:" (ext.uuid_text request.operation_id))
        else none
    | _ ↦ none
  ]

  -- `registration_envelope`
  unfoldable pub registration_envelope : Outbox → Option OutboundEnvelope
  registration_envelope row = elim row.payload [
    | Payload.registration r ↦
        if str_eq r.service_name producer
        then envelope row registration_type (Payload.registration r)
            (concat "schedule-registration:" (concat r.service_name (concat "." r.name)))
            (concat "command:" (ext.uuid_text row.outbox_id))
        else none
    | _ ↦ none
  ]

  -- `report_envelope`
  unfoldable pub report_envelope : Outbox → Option OutboundEnvelope
  report_envelope row = elim row.payload [
    | Payload.report r ↦
        if ext.report_valid r
        then envelope row report_subject (Payload.report r)
            (concat "operation:" (ext.uuid_text r.operation_id))
            (concat "operation:" (ext.uuid_text r.operation_id))
        else none
    | _ ↦ none
  ]

  abbrev pub outbound : Outbox → String → Option OutboundEnvelope → Option OutboundMessage
  outbound row class none = none
  outbound row class (some e) =
      some (record { subject = concat class row.subject; message_id = row.outbox_id; envelope = e })

  -- `wrap_outbox_row`; `none` is `BusError::Unwrappable`
  unfoldable pub wrap_outbox_row : Outbox → Option OutboundMessage
  unfolding envelope report_envelope recap_request_envelope registration_envelope
  wrap_outbox_row row =
      if str_eq row.subject report_subject
      then outbound row "evt." (report_envelope row)
      else if str_eq row.subject recap_type || str_eq row.subject registration_type
      then outbound row "cmd." (
          if str_eq row.subject recap_type
          then recap_request_envelope row
          else registration_envelope row)
      else none
