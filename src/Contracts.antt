-- ===== src/Contracts.antt =====
-- The contract types of the pinned third-party crates (`ratatoskr_channel_digest_contracts`,
-- `ratatoskr_operation_contracts`, `ratatoskr_event_envelope`), with the fields that src/*.rs reads
-- or writes, and their functions as the interface `External`.
use ratatoskr_channel_digest.Prelude.{ℕ, String, Bool, Option, List}

abbrev pub Bytes : Type 0
Bytes = List ℕ

pub data OperationStatus : Type 0 where
  queued running succeeded partially_succeeded failed : OperationStatus

pub data OutputLanguage : Type 0 where
  ru en : OutputLanguage

pub record ErrorEnvelope : Type 0 where
  pub code : String
  pub message : String
  pub retryable : Bool

pub record WarningEnvelope : Type 0 where
  pub code : String
  pub message : String

pub record ResultRef : Type 0 where
  pub kind : String
  pub target : String

pub record OperationReported : Type 0 where
  pub operation_id : ℕ
  pub status : OperationStatus
  pub stage : String
  pub results : List ResultRef
  pub error : Option ErrorEnvelope
  pub warnings : List WarningEnvelope

-- The JSON members of a recap request; identities stand in it as text.
pub record RecapRequested : Type 0 where
  pub operation_id : ℕ
  pub owner : String
  pub digest_run_id : String
  pub window_start : ℕ
  pub window_end : ℕ
  pub output_language : OutputLanguage
  pub source_count : ℕ
  pub channel_count : ℕ
  pub manifest_ref : String
  pub manifest_digest_hex : String

-- The JSON document that the source writes for a recap request.
pub record RecapDocument : Type 0 where
  pub operation_id : ℕ
  pub owner : String
  pub digest_run_id : String
  pub window_start : String
  pub window_end : String
  pub output_language : OutputLanguage
  pub source_count : ℕ
  pub channel_count : ℕ
  pub manifest_ref : String
  pub manifest_digest_hex : String

pub record RecapCompleted : Type 0 where
  pub digest_run_id : ℕ
  pub owner : ℕ
  pub digest_result_id : ℕ
  pub analysis_ref : String
  pub result_ref : String
  pub result_digest_hex : String
  pub manifest_digest_hex : String
  pub omitted_count : ℕ
  pub included_count : ℕ
  pub selected_count : ℕ
  pub channel_count : ℕ

pub data RecapFailureCode : Type 0 where
  manifest_unavailable manifest_integrity unsupported_language context_budget : RecapFailureCode
  provider_unavailable provider_timeout invalid_output cost_budget cancelled : RecapFailureCode

pub record RecapFailed : Type 0 where
  pub digest_run_id : ℕ
  pub owner : ℕ
  pub failure_code : RecapFailureCode
  pub manifest_digest_hex : String

-- `desired_active` is `desired_state == SubscriptionDesiredState::Active`.
pub record SubscriptionSet : Type 0 where
  pub owner : ℕ
  pub operation_id : ℕ
  pub idempotency_key : String
  pub channel_username : String
  pub desired_active : Bool

-- `on_demand` is `matches!(trigger, ChannelDigestRunTrigger::OnDemand { .. })`.
pub record RunRequested : Type 0 where
  pub owner : ℕ
  pub operation_id : ℕ
  pub digest_run_id : ℕ
  pub idempotency_key : String
  pub on_demand : Bool
  pub window_start : ℕ
  pub window_end : ℕ
  pub output_language : OutputLanguage

pub record OccurrenceRequested : Type 0 where
  pub occurrence_ref : String
  pub previous_due_at : ℕ
  pub due_at : ℕ

pub record Registration : Type 0 where
  pub service_name : String
  pub name : String
  pub owner_user_id : ℕ
  pub cron_expression : String
  pub command_type : String
  pub operation_kind : String
  pub enabled : Bool

-- An inbound envelope: `message_type` is the wire form of its command or event type.
pub record Envelope : Type 0 where
  pub message_id : ℕ
  pub message_type : String
  pub producer : String
  pub aggregate_id : String
  pub correlation_kind : String
  pub correlation_uuid : Option ℕ
  pub tenant : Option ℕ
  pub payload : Bytes

-- The members of `ChannelDigestManifestSource` and `ChannelDigestManifest`; references and
-- instants that the source formats are texts, a message identity is as in the schema.
pub record ContractSource : Type 0 where
  pub revision_ref : String
  pub channel_ref : String
  pub channel_label : String
  pub message_id : ℕ
  pub published_at : ℕ
  pub content : String
  pub content_digest : String
  pub public_link : Option String
  pub revision : ℕ

pub record ContractManifest : Type 0 where
  pub manifest_ref : String
  pub owner : ℕ
  pub digest_run_id : String
  pub window_start : ℕ
  pub window_end : ℕ
  pub sources : List ContractSource

-- What the crates compute; the source relies on no more of them than their types. A decoder that
-- fails and a parser that refuses answer `none` or `false`.
pub record External : Type 0 where
  pub uuid_text : ℕ → String
  pub parse_uuid : String → Option ℕ
  pub status_text : OperationStatus → String
  pub sha256_hex : Bytes → String
  pub lower : String → String
  pub parses_stage : String → Bool
  pub parses_code : String → Bool
  pub parses_message : String → Bool
  pub parses_kind : String → Bool
  pub parses_entity : String → Bool
  pub report_valid : OperationReported → Bool
  pub decode_request : Bytes → Option RecapRequested
  pub encode_request : RecapRequested → Bytes
  pub request_valid : RecapRequested → Bool
  pub decode_completed : Bytes → Option RecapCompleted
  pub encode_completed : RecapCompleted → Bytes
  pub completed_valid : RecapCompleted → Bool
  pub decode_failed : Bytes → Option RecapFailed
  pub encode_failed : RecapFailed → Bytes
  pub failed_valid : RecapFailed → Bool
  pub decode_subscription : Bytes → Option SubscriptionSet
  pub encode_subscription : SubscriptionSet → Bytes
  pub subscription_valid : SubscriptionSet → Bool
  pub decode_run : Bytes → Option RunRequested
  pub encode_run : RunRequested → Bytes
  pub run_valid : RunRequested → Bool
  pub decode_occurrence : Bytes → Option OccurrenceRequested
  pub encode_occurrence : OccurrenceRequested → Bytes
  pub occurrence_valid : OccurrenceRequested → Bool
  pub parses_label : String → Bool
  pub parses_cron : String → Bool
  pub parses_operation_kind : String → Bool
  pub parses_producer : String → Bool
  -- `Sha256::digest` of a text's bytes, in hexadecimal digits
  pub sha256_text : String → String
  -- the wire names `COMMAND_TYPE` and `EVENT_TYPE`
  pub subscription_type : String
  pub run_type : String
  pub occurrence_type : String
  pub completed_type : String
  pub failed_type : String
  -- `CommandEnvelope::from_json`, `EventEnvelope::from_json`
  pub decode_command : Bytes → Option Envelope
  pub decode_event : Bytes → Option Envelope
  -- the `operation_id` and `owner` members of a payload that decodes to no command
  pub payload_operation : Bytes → Option ℕ
  pub payload_owner : Bytes → Option ℕ
  -- `i64::to_string`, `jiff` and `WireTimestamp::parse`, PostgreSQL's `::timestamptz` and `to_char`
  pub id_text : ℕ → String
  pub parse_instant : String → Option ℕ
  pub parse_wire : String → Option ℕ
  pub cast_instant : String → Option ℕ
  pub instant_text : ℕ → String
  -- `str::trim`
  pub trim : String → String
  pub parses_manifest_ref : String → Bool
  pub parses_run_id : String → Bool
  pub parses_digest_hex : String → Bool
  -- `DigestWindow::new`; `to_canonical_bytes` as text
  pub window_valid : ℕ → ℕ → Bool
  pub canonical_text : ContractManifest → Option String
  -- `MAX_SOURCES`, `MAX_CHANNELS`, `MAX_CONTENT_BYTES`
  pub max_sources : ℕ
  pub max_channels : ℕ
  pub max_content_bytes : ℕ
  -- `serde_json::to_vec` of the document
  pub encode_document : RecapDocument → Bytes
