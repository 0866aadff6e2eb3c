-- ===== src/Tests.antt =====
-- The world of the tests: contracts that decode one completion and one command, and a database.
mod Execution
mod Reads
mod Loading
mod Runtime
mod Transactions
mod Counting
use mathlib.Core.Option
use ratatoskr_channel_digest.Prelude.{
  ℕ, true, false, none, some, List, [], ◌∷◌, ◌≤◌, ◌<◌, ◌+◌, ◌*◌, arith, length, All, concat, ltb,
  if◌then◌else◌, ◌≡◌, ◌≢◌, refl, sym, ◌∙◌, count, update, contains, str_eq, strip_prefix, maybe,
  select,
}
use ratatoskr_channel_digest.Contracts.{
  External, OutputLanguage, RecapRequested, RecapCompleted, RecapFailed, RecapFailureCode,
  SubscriptionSet, RunRequested, OccurrenceRequested, Envelope,
}
use ratatoskr_channel_digest.Schema.{
  Db, empty_db, Run, RunState, RunTrigger, Manifest, Outbox, Payload,
}
use ratatoskr_channel_digest.Storage.{
  World, ok, lift, query, begin, execute, commit, attempt, raise, pure, fresh, ◌>>=◌, map_err,
  rollback,
}
use ratatoskr_channel_digest.Statements.{new_outbox, insert_inbox, insert_result, update_runs}
use ratatoskr_channel_digest.Storage.Rules.{Guarded}
use ratatoskr_channel_digest.Coordinator.{
  IntakeOutcome, CanonicalManifest, RunFailure, commit_manifest, complete_empty_run, fail_run,
}
use ratatoskr_channel_digest.Coordinator.Settlement.{
  insert_completion, valid_completion, settle_completion, settle_failure,
}
use ratatoskr_channel_digest.Coordinator.Occurrence.{OccurrenceRequest, accept_occurrence}
use ratatoskr_channel_digest.Coordinator.Atomicity.{
  may_change, commit_manifest-Guarded, settle_completion-Guarded, settle_failure-Guarded,
  accept_occurrence-Guarded,
}
use ratatoskr_channel_digest.Intake.{
  CommandKind, accept_subscription, accept_run, reject_unreadable,
}
use ratatoskr_channel_digest.Intake.Atomicity.{
  accept_subscription-Guarded, accept_run-Guarded, reject_unreadable-Guarded,
}
use ratatoskr_channel_digest.Bus.{
  DeliveryDisposition, handle, answer, completed_event, subscription_command,
}
use ratatoskr_channel_digest.Bus.Delivery.{handle-unchanged}
use ratatoskr_channel_digest.Bus.Outbox.{backoff_seconds}
use ratatoskr_channel_digest.Bus.Backoff.{backoff_seconds-bounds}
use ratatoskr_channel_digest.Coordinator.Occurrence.{normalized_window, day}
use ratatoskr_channel_digest.Coordinator.Redelivery.{occurrence_row, is_recorded}
use ratatoskr_channel_digest.Reaper.{batch, overdue_batch}
use ratatoskr_channel_digest.Reaper.Batch.{IsOverdue}
use ratatoskr_channel_digest.Envelopes.{OutboundMessage, wrap_outbox_row, recap_type, producer}
use ratatoskr_channel_digest.Envelopes.Wrap.{IsWrapped}
use ratatoskr_channel_digest.Worker.{Operation, perform_all}
use ratatoskr_channel_digest.Executor.{begin_acquisition}
use ratatoskr_channel_digest.Executor.Atomicity.{transactions-Guarded}
use ratatoskr_channel_digest.Worker.Limit.{IsLimited, perform_all-IsLimited}
use ratatoskr_channel_digest.Worker.Settled.{IsSettled, perform_all-IsSettled}

abbrev fact : RecapCompleted
fact = record {
  digest_run_id = 1;
  owner = 7;
  digest_result_id = 3;
  analysis_ref = "analysis:5";
  result_ref = "result:3";
  result_digest_hex = "aa";
  manifest_digest_hex = "bb";
  omitted_count = 0;
  included_count = 1;
  selected_count = 1;
  channel_count = 1;
}

abbrev sample_failure : RecapFailed
sample_failure = record {
  digest_run_id = 1;
  owner = 7;
  failure_code = RecapFailureCode.provider_timeout;
  manifest_digest_hex = "bb";
}

abbrev pub request : RecapRequested
request = record {
  operation_id = 9;
  owner = "user:u";
  digest_run_id = "u";
  window_start = 10;
  window_end = 20;
  output_language = OutputLanguage.en;
  source_count = 1;
  channel_count = 1;
  manifest_ref = "channel-digest-manifest:u";
  manifest_digest_hex = "bb";
}

abbrev subscription : SubscriptionSet
subscription = record {
  owner = 7;
  operation_id = 9;
  idempotency_key = "k";
  channel_username = "news";
  desired_active = true;
}

abbrev run_command : RunRequested
run_command = record {
  owner = 7;
  operation_id = 9;
  digest_run_id = 1;
  idempotency_key = "k";
  on_demand = true;
  window_start = 10;
  window_end = 20;
  output_language = OutputLanguage.en;
}

abbrev pub occurrence : OccurrenceRequested
occurrence = record { occurrence_ref = "schedule-occurrence:1"; previous_due_at = 10; due_at = 20 }

abbrev event : Envelope
event = record {
  message_id = 4;
  message_type = "completed";
  producer = "ratatoskr-knowledge";
  aggregate_id = "a";
  correlation_kind = "operation";
  correlation_uuid = some 9;
  tenant = some 7;
  payload = [];
}

abbrev command : Envelope
command = record {
  message_id = 6;
  message_type = "subscription";
  producer = "ratatoskr-platform";
  aggregate_id = "a";
  correlation_kind = "operation";
  correlation_uuid = some 9;
  tenant = some 7;
  payload = [];
}

abbrev pub toy : External
toy = record {
  uuid_text = λ n. "u";
  parse_uuid = λ t. some 5;
  status_text = λ s. "s";
  sha256_hex = λ b. "bb";
  lower = λ t. t;
  parses_stage = λ t. true;
  parses_code = λ t. true;
  parses_message = λ t. true;
  parses_kind = λ t. true;
  parses_entity = λ t. true;
  report_valid = λ r. true;
  decode_request = λ b. some request;
  encode_request = λ r. [];
  request_valid = λ r. true;
  decode_completed = λ b. some fact;
  encode_completed = λ r. [];
  completed_valid = λ r. true;
  decode_failed = λ b. some sample_failure;
  encode_failed = λ r. [];
  failed_valid = λ r. true;
  decode_subscription = λ b. some subscription;
  encode_subscription = λ r. [];
  subscription_valid = λ r. true;
  decode_run = λ b. some run_command;
  encode_run = λ r. [];
  run_valid = λ r. true;
  decode_occurrence = λ b. some occurrence;
  encode_occurrence = λ r. [];
  occurrence_valid = λ r. true;
  parses_label = λ t. true;
  parses_cron = λ t. true;
  parses_operation_kind = λ t. true;
  parses_producer = λ t. true;
  sha256_text = λ t. t;
  subscription_type = "subscription";
  run_type = "run";
  occurrence_type = "occurrence";
  completed_type = "completed";
  failed_type = "failed";
  decode_command = λ b. some command;
  decode_event = λ b. some event;
  payload_operation = λ b. some 9;
  payload_owner = λ b. some 7;
  id_text = λ n. "6";
  parse_instant = λ t. some 15;
  parse_wire = λ t. some 15;
  cast_instant = λ t. some 15;
  instant_text = λ n. "t";
  trim = λ t. t;
  parses_manifest_ref = λ t. true;
  parses_run_id = λ t. true;
  parses_digest_hex = λ t. true;
  window_valid = λ a b. true;
  canonical_text = λ m. some "text";
  encode_document = λ j. [];
  max_sources = 100;
  max_channels = 20;
  max_content_bytes = 16_384;
}

abbrev pub run_in : RunState → Run
run_in s = record {
  run_id = 1;
  owner_id = 7;
  operation_id = 9;
  trigger = RunTrigger.on_demand;
  idempotency_key = "k";
  window_start = 10;
  window_end = 20;
  output_language = OutputLanguage.en;
  state = s;
  safe_failure_class = none;
  acquisition_incomplete = false;
  created_at = 20;
  updated_at = 20;
}

abbrev pub manifest : Manifest
manifest = record {
  manifest_id = 2;
  run_id = 1;
  owner_id = 7;
  sha256 = "bb";
  source_count = 1;
  channel_count = 1;
  canonical_text = some "text";
  minimized_at = none;
}

abbrev pub db_in : RunState → Db
db_in s = record empty_db { runs = run_in s ∷ []; manifests = manifest ∷ [] }

-- A worker whose database fails from its n-th call on.
abbrev pub world : ℕ → Db → World
world n d = record {
  committed = d;
  working = d;
  fails = λ k. if ltb k n then false else true;
  calls = 0;
  clock = 30;
  next_id = 50;
  counter = record { bodies = 0; manifests = 0 };
}

abbrev pub canonical : CanonicalManifest
canonical = record {
  manifest_id = 2;
  owner_id = 7;
  run_id = 1;
  text = "text";
  sha256 = "bb";
  source_count = 1;
  channel_count = 1;
  messages = (4, 6) ∷ [];
}

abbrev pub served : OccurrenceRequest
served = record {
  message_id = 4;
  payload = [];
  occurrence_key = "schedule-occurrence:1";
  previous_due_at = 10;
  due_at = 20;
  operation_id = 9;
  owner_id = 7;
  output_language = OutputLanguage.en;
}
