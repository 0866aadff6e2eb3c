-- ===== src/Schema.antt =====
-- schema.sql: the tables that the worker writes, a row as a record and the service's schema as `Db`.
-- A UUID is a number, an instant is a number of microseconds.
use ratatoskr_channel_digest.Prelude.{ℕ, String, Bool, true, false, Option, List, []}
use ratatoskr_channel_digest.Contracts.{
  OutputLanguage, OperationReported, RecapRequested, Registration,
}

-- runs.rs
pub data RunTrigger : Type 0 where
  on_demand scheduled : RunTrigger

-- runs.rs
pub data RunState : Type 0 where
  accepted acquiring waiting_recap completed partial failed : RunState

pub record Channel : Type 0 where
  pub channel_id : ℕ
  pub username : String
  pub display_name : Option String

pub record Subscription : Type 0 where
  pub subscription_id : ℕ
  pub owner_id : ℕ
  pub channel_id : ℕ
  pub first_activated_at : ℕ
  pub enabled : Bool
  pub updated_at : ℕ

pub record Run : Type 0 where
  pub run_id : ℕ
  pub owner_id : ℕ
  pub operation_id : ℕ
  pub trigger : RunTrigger
  pub idempotency_key : String
  pub window_start : ℕ
  pub window_end : ℕ
  pub output_language : OutputLanguage
  pub state : RunState
  pub safe_failure_class : Option String
  pub acquisition_incomplete : Bool
  pub created_at : ℕ
  pub updated_at : ℕ

pub record Manifest : Type 0 where
  pub manifest_id : ℕ
  pub run_id : ℕ
  pub owner_id : ℕ
  pub sha256 : String
  pub source_count : ℕ
  pub channel_count : ℕ
  pub canonical_text : Option String
  pub minimized_at : Option ℕ

pub record ManifestMessage : Type 0 where
  pub manifest_id : ℕ
  pub channel_id : ℕ
  pub provider_message_id : ℕ

pub record DigestResult : Type 0 where
  pub result_id : ℕ
  pub run_id : ℕ
  pub manifest_id : ℕ
  pub owner_id : ℕ
  pub outcome : RunState
  pub recap_id : Option ℕ
  pub result_digest_hex : Option String
  pub citation_count : ℕ
  pub safe_failure_class : Option String
  pub created_at : ℕ

pub data InboxState : Type 0 where
  processing completed failed : InboxState

pub record Inbox : Type 0 where
  pub message_id : ℕ
  pub subject : String
  pub semantic_key : String
  pub payload_sha256 : String
  pub state : InboxState
  pub completed_at : Option ℕ
  pub safe_failure_class : Option String

-- The bare typed payload of an outbox row.
pub data Payload : Type 0 where
  report : OperationReported → Payload
  recap_request : RecapRequested → Payload
  registration : Registration → Payload

pub record Outbox : Type 0 where
  pub outbox_id : ℕ
  pub subject : String
  pub semantic_key : String
  pub owner_id : ℕ
  pub operation_id : Option ℕ
  pub causation_ref : Option String
  pub payload : Payload
  pub created_at : ℕ
  pub published_at : Option ℕ
  pub attempts : ℕ
  pub next_attempt_at : ℕ
  pub safe_failure_class : Option String

-- An `i64` message identity is held as the number that is 2^63 above it, which keeps its order:
-- `i64::MIN` is 0.
pub record Revision : Type 0 where
  pub revision_id : ℕ
  pub channel_id : ℕ
  pub provider_message_id : ℕ
  pub content_sha256 : String
  pub body : Option String
  pub published_at : ℕ
  pub observed_at : ℕ
  pub canonical_link : String
  pub deleted_at : Option ℕ
  pub minimized_at : Option ℕ

-- acquisition.rs: the members of the JSON checkpoint of an acquisition's lease.
pub record Checkpoint : Type 0 where
  pub channel_id : ℕ
  pub before_message_id : Option ℕ
  pub pages : ℕ
  pub revisions : ℕ
  pub state : String

pub record Lease : Type 0 where
  pub resource_kind : String
  pub resource_id : ℕ
  pub holder_id : ℕ
  pub acquired_at : ℕ
  pub expires_at : ℕ
  pub checkpoint : Checkpoint

pub record Db : Type 0 where
  pub channels : List Channel
  pub subscriptions : List Subscription
  pub runs : List Run
  pub manifests : List Manifest
  pub messages : List ManifestMessage
  pub results : List DigestResult
  pub inbox : List Inbox
  pub outbox : List Outbox
  pub revisions : List Revision
  pub leases : List Lease

abbrev pub empty_db : Db
empty_db = record {
  channels = [];
  subscriptions = [];
  runs = [];
  manifests = [];
  messages = [];
  results = [];
  inbox = [];
  outbox = [];
  revisions = [];
  leases = [];
}

-- The states no transition leaves.
abbrev pub is_terminal : RunState → Bool
is_terminal RunState.completed = true
is_terminal RunState.partial = true
is_terminal RunState.failed = true
is_terminal s = false

-- `state in ('accepted', 'acquiring')`
abbrev pub is_unsent : RunState → Bool
is_unsent RunState.accepted = true
is_unsent RunState.acquiring = true
is_unsent s = false

abbrev pub state_eq : RunState → RunState → Bool
state_eq RunState.accepted RunState.accepted = true
state_eq RunState.acquiring RunState.acquiring = true
state_eq RunState.waiting_recap RunState.waiting_recap = true
state_eq RunState.completed RunState.completed = true
state_eq RunState.partial RunState.partial = true
state_eq RunState.failed RunState.failed = true
state_eq s t = false

abbrev pub trigger_eq : RunTrigger → RunTrigger → Bool
trigger_eq RunTrigger.on_demand RunTrigger.on_demand = true
trigger_eq RunTrigger.scheduled RunTrigger.scheduled = true
trigger_eq s t = false
