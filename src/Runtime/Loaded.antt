-- ===== src/Runtime/Loaded.antt =====
-- A worker whose configuration has loaded is not stopped by a missing part of it.
use ratatoskr_channel_digest.Prelude.{
  true, Option, none, some, ◌≡◌, refl, ap, is_some, maybe, if◌then◌else◌,
}
use ratatoskr_channel_digest.Contracts.{External}
use ratatoskr_channel_digest.Storage.{M, pure, lift, ◌>>=◌, ◌>>◌, map_err, ok, World}
use ratatoskr_channel_digest.Config.{Role, ConfigParsers, ProviderConfig, Config}
use ratatoskr_channel_digest.Config.Finish.{from_environment}
use ratatoskr_channel_digest.Config.Roles.{from_environment-fits}
use ratatoskr_channel_digest.Registration.{enqueue_schedule_registration}
use ratatoskr_channel_digest.Session.{SessionFiles, load}
use ratatoskr_channel_digest.Runtime.Startup.{
  RuntimeError, Host, join_servers, require, connect_database, apply_schema, shutdown_signal,
  run_worker, from_registration,
}
use ratatoskr_channel_digest.Runtime.Process.{
  ProcessError, from_session, from_runtime, Start, checks_only, install_subscriber, worker_main,
}

there : {A : Type 0} (o : Option A) → is_some o ≡ true → (a : A) × (o ≡ some a)
there none e = absurd (cc)
there (some a) e = (a, refl)

module _ ⦃ext : External⦄ (host : Host) where
  -- The worker by its connections, its registration, its listener and its tasks alone.
  abbrev pub serve_worker : Config → M RuntimeError (Unit {0})
  serve_worker c = do
    connect_database host c
    apply_schema host
    require (host.binds c.operator_address) RuntimeError.listener
    map_err from_registration (enqueue_schedule_registration c.schedule)
    shutdown_signal host
    lift (join_servers host.tasks)

  run_worker-whole :
      (c : Config)
      → is_some c.bus ≡ true
      → is_some c.retention ≡ true
      → is_some c.provider ≡ true
      → run_worker host c ≡ serve_worker c
  unfolding run_worker maybe ◌>>=◌ pure
  run_worker-whole c b r p =
      let bus = there c.bus b in
      let retention = there c.retention r in
      let provider = there c.provider p in rw (bus.1, retention.1, provider.1) refl

  module _ ⦃parse : ConfigParsers⦄ (start : Start) (files : SessionFiles) where
    -- The process of the worker, by what it still needs once its configuration has loaded.
    abbrev pub worker_steps : Config → ProviderConfig → M ProcessError (Unit {0})
    worker_steps c provider = do
      install_subscriber host start c
      map_err from_session (lift (load files provider))
      if checks_only start then pure tt else map_err from_runtime (serve_worker c)

    worker_main-whole :
        (c : Config) (p : ProviderConfig) (w : World)
        → from_environment Role.worker start.entries ≡ ok c
        → c.provider ≡ some p
        → is_some c.bus ≡ true
        → is_some c.retention ≡ true
        → worker_main host start files w ≡ worker_steps c p w
    unfolding worker_main ◌>>=◌ maybe map_err lift pure
    worker_main-whole c p w e q b r = rw (e, run_worker-whole c b r (ap is_some q), q) refl

    -- A worker whose configuration has loaded from its environment has the provider's part of it, and its
    -- process goes on as the log, the session, the connection to the database, the schema, the listener,
    -- the registration, the signal and the tasks decide: no missing part of the configuration ends it.
    pub worker_main-loaded :
        (c : Config) (w : World)
        → from_environment Role.worker start.entries ≡ ok c
        → (p : ProviderConfig) × (c.provider ≡ some p)
          × (worker_main host start files w ≡ worker_steps c p w)
    worker_main-loaded c w e =
        let scoped = (from_environment-fits Role.worker start.entries c e).1 in
        let (p, q) = there c.provider scoped.1 in
        (p, q, worker_main-whole c p w e q scoped.2 scoped.3)
