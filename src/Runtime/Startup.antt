-- ===== src/Runtime/Startup.antt =====
-- src/runtime.rs and src/database.rs: `run_worker` and `run_api` from their configuration to their end,
-- and `join_servers`. What the process meets outside of the database is the record `Host`.
use ratatoskr_channel_digest.Prelude.{
  ℕ, String, Bool, Option, none, some, List, [], ◌∷◌, if◌then◌else◌, maybe,
}
use ratatoskr_channel_digest.Contracts.{External}
use ratatoskr_channel_digest.Storage.{
  Result, ok, err, M, pure, raise, lift, ◌>>=◌, ◌>>◌, map_err, attempt,
}
use ratatoskr_channel_digest.Config.{SocketAddr, KnowledgeResultReaderConfig, Config}
use ratatoskr_channel_digest.Registration.{RegistrationError, enqueue_schedule_registration}

pub data DatabaseError : Type 0 where
  unavailable schema : DatabaseError

pub data RuntimeError : Type 0 where
  database : DatabaseError → RuntimeError
  listener signal result_reader registration drain : RuntimeError

-- How a task that was joined ended within the bound of the shutdown: with its result, by a panic, or
-- not at all.
pub data Joined : Type 0 where
  ended : Result RuntimeError (Unit {0}) → Joined
  panicked late : Joined

pub record Host : Type 0 where
  pub connects : String → ℕ → ℕ → Bool
  pub binds : SocketAddr → Bool
  pub builds_client : KnowledgeResultReaderConfig → Bool
  pub signals : Bool
  pub tasks : List Joined

-- The loop of `join_servers`
unfoldable pub join_servers : List Joined → Result RuntimeError (Unit {0})
join_servers [] = ok tt
join_servers (ended (ok _) ∷ rest) = join_servers rest
join_servers (ended (err e) ∷ rest) = err e
join_servers (panicked ∷ rest) = err RuntimeError.drain
join_servers (late ∷ rest) = err RuntimeError.drain

-- `map_err(|_| …)` of a step that goes through or not
abbrev pub require : Bool → RuntimeError → M RuntimeError (Unit {0})
require b e = if b then pure tt else raise e

abbrev pub ok_or : {A : Type 0} → Option A → RuntimeError → M RuntimeError A
ok_or o e = maybe o (raise e) pure

abbrev pub from_registration : RegistrationError → RuntimeError
from_registration e = RuntimeError.registration

module _ (host : Host) where
  -- `Database::connect`
  abbrev pub connect : String → ℕ → ℕ → M RuntimeError (Unit {0})
  connect url max_connections acquire_timeout =
      require (host.connects url max_connections acquire_timeout)
        (RuntimeError.database DatabaseError.unavailable)

  -- `connect_database`
  unfoldable pub connect_database : Config → M RuntimeError (Unit {0})
  connect_database c = connect c.database_url c.max_connections c.acquire_timeout_ms

  -- `Database::apply_schema`
  unfoldable pub apply_schema : M RuntimeError (Unit {0})
  apply_schema = attempt (RuntimeError.database DatabaseError.schema)

  -- `shutdown_signal`
  abbrev pub shutdown_signal : M RuntimeError (Unit {0})
  shutdown_signal = require host.signals RuntimeError.signal

  -- `KnowledgeResultReader::from_config`
  unfoldable pub reader_from_config : Config → Result RuntimeError KnowledgeResultReaderConfig
  reader_from_config c = elim c.knowledge_result_reader [
    | none ↦ err RuntimeError.result_reader
    | some policy ↦ if host.builds_client policy then ok policy else err RuntimeError.result_reader
  ]

  -- `serve_pair` from the termination signal on
  unfoldable pub serve_pair : M RuntimeError (Unit {0})
  unfolding join_servers
  serve_pair = do shutdown_signal; lift (join_servers host.tasks)

  -- `run_api`
  unfoldable pub run_api : Config → M RuntimeError (Unit {0})
  unfolding reader_from_config connect_database apply_schema serve_pair
  run_api c = do
    lift (reader_from_config c)
    connect_database c
    apply_schema
    require (host.binds c.api_address) RuntimeError.listener
    require (host.binds c.operator_address) RuntimeError.listener
    serve_pair

  module _ ⦃ext : External⦄ where
    -- `run_worker`
    unfoldable pub run_worker : Config → M RuntimeError (Unit {0})
    unfolding connect_database apply_schema join_servers
    run_worker c = do
      connect_database c
      apply_schema
      require (host.binds c.operator_address) RuntimeError.listener
      bus ← ok_or c.bus RuntimeError.listener
      map_err from_registration (enqueue_schedule_registration c.schedule)
      retention ← ok_or c.retention RuntimeError.listener
      provider ← ok_or c.provider RuntimeError.listener
      shutdown_signal
      lift (join_servers host.tasks)
