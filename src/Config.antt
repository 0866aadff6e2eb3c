-- ===== src/Config.antt =====
-- src/config.rs: `Config::from_environment`, from the entries of the environment to the configuration
-- of a role. The parsers of the libraries are an interface.
pub mod Values
pub mod Keys
pub mod Finish
pub mod Bounds
pub mod Roles
use Prim.Native.String.{len}
use text.Mathlib.Text.{starts_with}
use ratatoskr_channel_digest.Prelude.{
  ℕ, ◌^◌, String, concat, Bool, true, false, not, ◌&&◌, ◌||◌, Option, none, some, List, [], ◌∷◌,
  ltb, leb, ◌==◌, str_eq, if◌then◌else◌, is_some, holds,
}
use ratatoskr_channel_digest.Contracts.{OutputLanguage}
use ratatoskr_channel_digest.Storage.{Result, ok, err, and_then}
use ratatoskr_channel_digest.Registration.{ScheduleConfig}

pub data Role : Type 0 where
  api worker : Role

abbrev pub is_worker : Role → Bool
is_worker Role.api = false
is_worker Role.worker = true

abbrev pub is_api : Role → Bool
is_api Role.api = true
is_api Role.worker = false

-- A socket address as far as the source looks at it.
pub record SocketAddr : Type 0 where
  pub text : String
  pub is_loopback : Bool
  pub port : ℕ

pub record Uri : Type 0 where
  pub scheme : Option String
  pub authority : Option String
  pub path_and_query : Option String

-- `str::parse` of the standard library, and the parsers of the crates. An `i32` is the number that is
-- 2^31 above it.
pub record ConfigParsers : Type 0 where
  pub parse_u32 : String → Option ℕ
  pub parse_u64 : String → Option ℕ
  pub parse_usize : String → Option ℕ
  pub parse_i32 : String → Option ℕ
  pub parse_user : String → Option ℕ
  pub parse_cron : String → Option String
  pub parses_filter : String → Bool
  pub is_absolute : String → Bool
  pub parse_address : String → Option SocketAddr
  pub parse_uri : String → Option Uri

pub record ConfigError : Type 0 where
  pub key : String
  pub reason : String

pub record Limits : Type 0 where
  pub request_bytes : ℕ
  pub page_size : ℕ
  pub source_count : ℕ
  pub channel_count : ℕ
  pub source_bytes : ℕ
  pub retry_attempts : ℕ
  pub shutdown_timeout_ms : ℕ
  pub run_deadline_seconds : ℕ

pub record ProviderConfig : Type 0 where
  pub api_id : ℕ
  pub api_hash : String
  pub session_file : String
  pub session_key_file : String
  pub max_concurrency : ℕ

pub record BusConfig : Type 0 where
  pub endpoint : String
  pub nkey_seed_path : Option String

pub data LogFormat : Type 0 where
  json pretty : LogFormat

pub record TelemetryConfig : Type 0 where
  pub log_format : LogFormat
  pub log_filter : String

pub record RetentionConfig : Type 0 where
  pub body_days : ℕ
  pub sweep_interval_seconds : ℕ

pub record KnowledgeResultReaderConfig : Type 0 where
  pub base_url : String
  pub reader_secret : String
  pub connect_timeout_ms : ℕ
  pub request_timeout_ms : ℕ
  pub max_response_bytes : ℕ

pub record Config : Type 0 where
  pub role : Role
  pub database_url : String
  pub max_connections : ℕ
  pub acquire_timeout_ms : ℕ
  pub api_address : SocketAddr
  pub operator_address : SocketAddr
  pub limits : Limits
  pub telemetry : TelemetryConfig
  pub provider : Option ProviderConfig
  pub bus : Option BusConfig
  pub schedule : Option ScheduleConfig
  pub retention : Option RetentionConfig
  pub knowledge_result_reader : Option KnowledgeResultReaderConfig
  pub service_secret : String

pub record Builder : Type 0 where
  pub role : Role
  pub database_url : Option String
  pub service_secret : Option String
  pub provider_api_id : Option ℕ
  pub provider_api_hash : Option String
  pub session_file : Option String
  pub session_key_file : Option String
  pub bus_endpoint : Option String
  pub bus_nkey_seed_path : Option String
  pub schedule_owner : Option ℕ
  pub schedule_cron : Option String
  pub schedule_enabled : Option Bool
  pub schedule_language : Option OutputLanguage
  pub retention : RetentionConfig
  pub knowledge_base_url : Option String
  pub knowledge_secret : Option String
  pub knowledge_connect_timeout_ms : Option ℕ
  pub knowledge_request_timeout_ms : Option ℕ
  pub knowledge_max_response_bytes : Option ℕ
  pub api_listen_address : SocketAddr
  pub operator_listen_address : SocketAddr
  pub limits : Limits
  pub telemetry : TelemetryConfig

abbrev pub or_else : {A : Type 0} → Option A → A → A
or_else none a = a
or_else (some a) b = a

abbrev pub loopback : String → ℕ → SocketAddr
loopback text port = record { text = text; is_loopback = true; port = port }

-- `Builder::new`
unfoldable pub new_builder : Role → Builder
new_builder role = record {
  role = role;
  database_url = none;
  service_secret = none;
  provider_api_id = none;
  provider_api_hash = none;
  session_file = none;
  session_key_file = none;
  bus_endpoint = none;
  bus_nkey_seed_path = none;
  schedule_owner = none;
  schedule_cron = none;
  schedule_enabled = none;
  schedule_language = none;
  retention = record { body_days = 30; sweep_interval_seconds = 3_600 };
  knowledge_base_url = none;
  knowledge_secret = none;
  knowledge_connect_timeout_ms = none;
  knowledge_request_timeout_ms = none;
  knowledge_max_response_bytes = none;
  api_listen_address = loopback "127.0.0.1:8098" 8_098;
  operator_listen_address =
      if is_api role then loopback "127.0.0.1:9469" 9_469 else loopback "127.0.0.1:9470" 9_470;
  limits = record {
    request_bytes = 262_144;
    page_size = 100;
    source_count = 100;
    channel_count = 20;
    source_bytes = 16_384;
    retry_attempts = 3;
    shutdown_timeout_ms = 120_000;
    run_deadline_seconds = 1_800;
  };
  telemetry = record {
    log_format = LogFormat.json;
    log_filter = "info,hyper=warn,h2=warn,sqlx=warn";
  };
}
