-- ===== src/Tests/Loading.antt =====
-- The theorem on the configuration at a concrete environment.
use ratatoskr_channel_digest.Prelude.{
  ℕ, zero, suc, String, true, none, some, List, [], ◌∷◌, ◌≡◌, refl, str_eq,
}
use ratatoskr_channel_digest.Storage.{ok}
use ratatoskr_channel_digest.Config.{
  Role, SocketAddr, ConfigParsers, Config, LogFormat, new_builder,
}
use ratatoskr_channel_digest.Config.Values.{parse_range}
use ratatoskr_channel_digest.Config.Keys.{
  apply, apply_secrets, apply_provider, apply_schedule, apply_retention, apply_knowledge,
  apply_process, apply_limit,
}
use ratatoskr_channel_digest.Config.Finish.{
  schedule_of, reader_of, parts_of, finish, apply_all, from_environment,
}
use ratatoskr_channel_digest.Config.{ProviderConfig}
use ratatoskr_channel_digest.Config.Finish.{provider_of, bus_of}
use ratatoskr_channel_digest.Schema.{empty_db}
use ratatoskr_channel_digest.Session.{SessionFiles, read_private_file, load}
use ratatoskr_channel_digest.Contracts.{Bytes}
use ratatoskr_channel_digest.Runtime.Startup.{Host, Joined}
use ratatoskr_channel_digest.Runtime.Process.{Start, worker_main}
use ratatoskr_channel_digest.Runtime.Loaded.{worker_steps, worker_main-loaded}
use ratatoskr_channel_digest.Tests.{toy, world}
use ratatoskr_channel_digest.Config.Roles.{IsBounded, IsScoped, from_environment-fits}

abbrev address : SocketAddr
address = record { text = "127.0.0.1:8096"; is_loopback = true; port = 8_096 }

abbrev parsers : ConfigParsers
parsers = record {
  parse_u32 = λ t. some 10;
  parse_u64 = λ t. some 200;
  parse_usize = λ t. some 50;
  parse_i32 = λ t. none;
  parse_user = λ t. none;
  parse_cron = λ t. none;
  parses_filter = λ t. true;
  is_absolute = λ t. true;
  parse_address = λ t. some address;
  parse_uri = λ t. some (record {
    scheme = some "http";
    authority = some "127.0.0.1:8096";
    path_and_query = some "/";
  });
}

abbrev entries : List (String × String)
entries =
    ("HOME", "/root")
    ∷ ("RATATOSKR__DATABASE__URL", "postgres://digests")
    ∷ ("RATATOSKR__AUTH__SERVICE_SECRET", "secret")
    ∷ ("RATATOSKR__KNOWLEDGE__BASE_URL", "http://127.0.0.1:8096")
    ∷ ("RATATOSKR__KNOWLEDGE__RESULT_READER_SERVICE_SECRET", "reader")
    ∷ ("RATATOSKR__KNOWLEDGE__CONNECT_TIMEOUT_MS", "200")
    ∷ ("RATATOSKR__KNOWLEDGE__REQUEST_TIMEOUT_MS", "200")
    ∷ ("RATATOSKR__KNOWLEDGE__MAX_RESPONSE_BYTES", "50")
    ∷ ("RATATOSKR__LIMITS__PAGE_SIZE", "50")
    ∷ []

abbrev loaded : Config
loaded = record {
  role = Role.api;
  database_url = "postgres://digests";
  max_connections = 8;
  acquire_timeout_ms = 5_000;
  api_address = record { text = "127.0.0.1:8098"; is_loopback = true; port = 8_098 };
  operator_address = record { text = "127.0.0.1:9469"; is_loopback = true; port = 9_469 };
  limits = record {
    request_bytes = 262_144;
    page_size = 50;
    source_count = 100;
    channel_count = 20;
    source_bytes = 16_384;
    retry_attempts = 3;
    shutdown_timeout_ms = 120_000;
    run_deadline_seconds = 1_800;
  };
  telemetry = record {
    log_format = LogFormat.json;
    log_filter = "info,hyper=warn,h2=warn,sqlx=warn";
  };
  provider = none;
  bus = none;
  schedule = none;
  retention = none;
  knowledge_result_reader = some (record {
    base_url = "http://127.0.0.1:8096";
    reader_secret = "reader";
    connect_timeout_ms = 200;
    request_timeout_ms = 200;
    max_response_bytes = 50;
  });
  service_secret = "secret";
}

loads : from_environment ⦃parse = parsers⦄ Role.api entries ≡ ok loaded
unfolding from_environment new_builder apply_all apply apply_secrets apply_provider apply_schedule
    apply_retention apply_knowledge apply_process apply_limit parse_range finish schedule_of
    parts_of reader_of str_eq
loads = refl

from_environment-fits_example : IsBounded loaded × IsScoped Role.api loaded
from_environment-fits_example =
    from_environment-fits ⦃parse = parsers⦄ Role.api entries loaded loads

abbrev worker_parsers : ConfigParsers
worker_parsers = record parsers { parse_i32 = λ t. some 2_147_483_700 }

abbrev start : Start
start = record {
  entries =
      ("RATATOSKR__DATABASE__URL", "postgres://digests")
      ∷ ("RATATOSKR__AUTH__SERVICE_SECRET", "secret")
      ∷ ("RATATOSKR__PROVIDER__API_ID", "52")
      ∷ ("RATATOSKR__PROVIDER__API_HASH", "hash")
      ∷ ("RATATOSKR__PROVIDER__SESSION_FILE", "/session")
      ∷ ("RATATOSKR__PROVIDER__SESSION_KEY_FILE", "/key")
      ∷ ("RATATOSKR__BUS__ENDPOINT", "nats://localhost")
      ∷ [];
  argument = none;
  is_first = true;
}

abbrev worker_provider : ProviderConfig
worker_provider = record {
  api_id = 2_147_483_700;
  api_hash = "hash";
  session_file = "/session";
  session_key_file = "/key";
  max_concurrency = 2;
}

abbrev worker_config : Config
worker_config = record loaded {
  role = Role.worker;
  operator_address = record { text = "127.0.0.1:9470"; is_loopback = true; port = 9_470 };
  limits = record {
    request_bytes = 262_144;
    page_size = 100;
    source_count = 100;
    channel_count = 20;
    source_bytes = 16_384;
    retry_attempts = 3;
    shutdown_timeout_ms = 120_000;
    run_deadline_seconds = 1_800;
  };
  provider = some worker_provider;
  bus = some (record { endpoint = "nats://localhost"; nkey_seed_path = none });
  retention = some (record { body_days = 30; sweep_interval_seconds = 3_600 });
  knowledge_result_reader = none;
}

worker_loads :
    from_environment ⦃parse = worker_parsers⦄ Role.worker start.entries ≡ ok worker_config
unfolding from_environment new_builder apply_all apply apply_secrets apply_provider apply_schedule
    apply_retention apply_knowledge apply_process apply_limit parse_range finish schedule_of
    parts_of provider_of bus_of str_eq
worker_loads = refl

abbrev host : Host
host = record {
  connects = λ u m t. true;
  binds = λ a. true;
  builds_client = λ c. true;
  signals = true;
  tasks = Joined.ended (ok tt) ∷ [];
}

abbrev zeros : ℕ → Bytes
zeros zero = []
zeros (suc n) = 0 ∷ zeros n

-- Private files of 32 bytes, for the key as for the session.
abbrev session_files : SessionFiles
session_files = record {
  metadata = λ p. some (record { is_file = true; len = 32; mode = 384 });
  read_file = λ p. some (zeros 32);
  new_cipher = λ k. some 1;
  decrypt = λ c n t a. some (1 ∷ []);
}

session_loads : load session_files worker_provider ≡ ok (1 ∷ [])
unfolding load read_private_file
session_loads = refl

worker_main-loaded_example :
    (p : ProviderConfig) × (worker_config.provider ≡ some p)
    × (worker_main ⦃parse = worker_parsers⦄ host start ⦃ext = toy⦄ session_files
          (world 100 empty_db)
        ≡ worker_steps ⦃ext = toy⦄ host ⦃parse = worker_parsers⦄ start session_files worker_config p
            (world 100 empty_db))
worker_main-loaded_example =
    worker_main-loaded ⦃ext = toy⦄ host ⦃parse = worker_parsers⦄ start session_files worker_config
      (world 100 empty_db) worker_loads
