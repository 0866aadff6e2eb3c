-- ===== src/Lib.antt =====
-- The worker of the channel digest service: what it does to its PostgreSQL schema.
--
-- The worker takes deliveries of the Platform and the Knowledge service from a broker, runs
-- digests over Telegram channels, and publishes its own messages through an outbox. Each part is a
-- module, with paths from the root of the repository:
--
--   Schema        schema.sql: the tables, a row as a record, the database as the record Db
--   Statements    the SQL statements of src/*.rs and the SQL functions they call
--   Storage       sqlx: a call, a transaction, the `?` operator (see below)
--   Contracts     the types of the contract crates, with their functions as the interface External
--   Reports       src/reports.rs: the report of an operation, queued with the state it reports
--   Coordinator   src/coordinator.rs: commit_manifest, complete_empty_run, fail_run; Settlement has
--                 settle_completion and settle_failure, Occurrence has accept_occurrence and fan_out
--   Intake        src/intake.rs: accept_subscription, accept_run, reject, reject_unreadable
--   Reaper        src/reaper.rs: reap_once
--   Runs          src/runs.rs: create and transition
--   Envelopes     src/envelopes.rs: wrap_outbox_row
--   Registration  src/registration.rs: enqueue_schedule_registration
--   Bus           src/bus.rs: WorkerMessageHandler; Bus/Outbox has publish_outbox, Bus/Consumers the
--                 connection and the durables, Bus/Consumption process_delivery and consume_once
--   Revisions     src/revisions.rs: append and withdraw_missing, over append_revision of schema.sql
--   Provider      src/provider.rs: the capability PublicChannelProvider as a record of functions,
--                 PublicChannelUsername::parse, a page, the classification of errors;
--                 Telegram has the adapter MtProtoPublicChannelProvider
--   Metrics       src/retention.rs: RetentionCounter
--   Acquisition   src/acquisition.rs: the pages of AcquisitionEngine; Engine has execute as acquire,
--                 with its loop as walk
--   ManifestBuilder  src/manifest.rs: ManifestBuilder::build
--   Maintenance   src/maintenance.rs, src/retention.rs: both minimizations and sweep_once
--   Executor      src/executor.rs: begin_acquisition and record_acquisition; Selection has the query
--                 of select_sources, Execution has execute_one with all that it calls
--   ResultReader  src/result_reader.rs: KnowledgeResultReader::read
--   Api           src/api.rs: authorize, require_owner, get_manifest, get_result, list_subscriptions;
--                 Listing has list_results, Router the routes with their layers
--   Config        src/config.rs: Config::from_environment; Values reads one value, Keys one key,
--                 Finish assembles the configuration
--   Session       src/session.rs: SessionMaterial::load
--   Subscriptions  src/subscriptions.rs: SubscriptionRepository
--   Runtime       src/runtime.rs: the flags of WorkerReadiness; Supervision has the two supervisors and
--                 the shutdown as interleaved steps, Loops the loops of the tasks, Startup run_api and
--                 run_worker with src/database.rs, Process the main of services/api and services/worker
--                 with src/telemetry.rs
--   Worker        the operations of the worker as a sequence, and the interface Respects that an
--                 invariant fills to hold after every sequence
--   Tests         the theorems at concrete inputs
--
-- Storage models the code that calls the database. A World has the committed database, the working
-- copy of the open transaction, the clock, the source of fresh UUIDs, the counter of the retention and
-- a function that says which calls of the database fail: a theorem for every World holds whichever
-- call fails. A transaction copies the committed database at its begin, its statements change the
-- copy, and its commit stores it. A function ends at its first error, as `?` does, and its open
-- transaction is dropped. One operation runs at a time: the interleaving of transactions, row locks
-- and advisory locks are not modelled. The tasks of the worker interleave where they share memory, in
-- the flags of its readiness: a step there is one access of a flag or one await. The time of a
-- statement is the clock of its World. A constraint that a statement can violate is a test in that
-- statement; the foreign keys and checks that hold by construction are not.
--
-- A UUID is a number, an instant a number of microseconds, an acknowledgement of the broker an
-- argument. A message id of Telegram, an i64, is the number that is 2^63 above it, which keeps the
-- order. A provider is asked with the number of the call, so that a question asked twice may have two
-- answers; an answer may be a refusal, a wait or a timeout. The loops are recursions on lists, and the
-- loop over the pages of a channel is a recursion on the pages that max_pages leaves, so no fuel is
-- needed. The order of usernames is that of their bytes. The contract crates, SHA-256 and JSON are
-- fields of External, of which no law is assumed; the parsers of the API are those of ApiParsers,
-- those of the configuration are those of ConfigParsers, and the HTTP client of the result reader is
-- an Upstream.
--
-- Not modelled: the text of the metrics, the periods of the timers, and the servers and layers of axum
-- beyond what Router has. A file of the session, the Telegram client, the broker, the listeners, the
-- signals and the ends of the tasks are parameters (SessionFiles, TelegramClient, Broker, Host). Rows
-- that another transaction has locked are not skipped, since operations do not overlap.
pub mod Prelude
pub mod Contracts
pub mod Schema
pub mod Storage
pub mod Statements
pub mod Reports
pub mod Revisions
pub mod Metrics
pub mod Provider
pub mod Acquisition
pub mod Maintenance
pub mod Coordinator
pub mod Intake
pub mod Reaper
pub mod ManifestBuilder
pub mod Executor
pub mod Runs
pub mod Envelopes
pub mod Registration
pub mod Bus
pub mod ResultReader
pub mod Api
pub mod Config
pub mod Session
pub mod Subscriptions
pub mod Runtime
pub mod Worker
pub mod Tests
