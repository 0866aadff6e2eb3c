-- ===== src/Config/Finish.antt =====
-- src/config.rs: `Builder::finish`, and the configuration of an environment.
use text.Mathlib.Text.{starts_with}
use ratatoskr_channel_digest.Prelude.{
  String, true, ◌||◌, Option, none, some, List, [], ◌∷◌, ltb, if◌then◌else◌, is_some,
}
use ratatoskr_channel_digest.Contracts.{OutputLanguage}
use ratatoskr_channel_digest.Storage.{Result, ok, and_then}
use ratatoskr_channel_digest.Registration.{ScheduleConfig}
use ratatoskr_channel_digest.Config.{
  Role, is_worker, ConfigParsers, ConfigError, ProviderConfig, BusConfig,
  KnowledgeResultReaderConfig, Config, Builder, or_else, new_builder,
}
use ratatoskr_channel_digest.Config.Values.{refuse, required}
use ratatoskr_channel_digest.Config.Keys.{apply}

-- `Builder::schedule`
unfoldable pub schedule_of : Builder → Result ConfigError (Option ScheduleConfig)
schedule_of b = elim b.schedule_owner [
  | none ↦
      if is_some b.schedule_cron || is_some b.schedule_enabled || is_some b.schedule_language
      then refuse "RATATOSKR__SCHEDULE__OWNER_USER_ID" "is required"
      else ok none
  | some owner ↦ ok (
      some (record {
        owner_user_id = owner;
        cron_expression = or_else b.schedule_cron "0 6 * * *";
        enabled = or_else b.schedule_enabled true;
        output_language = or_else b.schedule_language OutputLanguage.ru;
      }))
]

-- The part of the API role in `finish`
unfoldable pub reader_of : Builder → Result ConfigError KnowledgeResultReaderConfig
reader_of b =
    and_then (required b.knowledge_connect_timeout_ms "RATATOSKR__KNOWLEDGE__CONNECT_TIMEOUT_MS")
      λ connect.
        and_then
          (required b.knowledge_request_timeout_ms "RATATOSKR__KNOWLEDGE__REQUEST_TIMEOUT_MS")
          λ request.
            if ltb request connect
            then refuse "RATATOSKR__KNOWLEDGE__CONNECT_TIMEOUT_MS"
                "must not exceed the request timeout"
            else and_then (required b.knowledge_base_url "RATATOSKR__KNOWLEDGE__BASE_URL") λ url.
              and_then
                (required b.knowledge_secret "RATATOSKR__KNOWLEDGE__RESULT_READER_SERVICE_SECRET")
                λ secret.
                  and_then
                    (required b.knowledge_max_response_bytes
                      "RATATOSKR__KNOWLEDGE__MAX_RESPONSE_BYTES")
                    λ bytes. ok (record {
                      base_url = url;
                      reader_secret = secret;
                      connect_timeout_ms = connect;
                      request_timeout_ms = request;
                      max_response_bytes = bytes;
                    })

-- The parts of the worker role in `finish`
unfoldable pub provider_of : Builder → Result ConfigError ProviderConfig
provider_of b = and_then (required b.provider_api_id "RATATOSKR__PROVIDER__API_ID") λ id.
    and_then (required b.provider_api_hash "RATATOSKR__PROVIDER__API_HASH") λ hash.
      and_then (required b.session_file "RATATOSKR__PROVIDER__SESSION_FILE") λ file.
        and_then (required b.session_key_file "RATATOSKR__PROVIDER__SESSION_KEY_FILE") λ key_file.
          ok (record {
            api_id = id;
            api_hash = hash;
            session_file = file;
            session_key_file = key_file;
            max_concurrency = 2;
          })

unfoldable pub bus_of : Builder → Result ConfigError BusConfig
bus_of b =
    and_then (required b.bus_endpoint "RATATOSKR__BUS__ENDPOINT")
      λ endpoint. ok (record { endpoint = endpoint; nkey_seed_path = b.bus_nkey_seed_path })

-- What a role has beside the rest.
abbrev pub Parts : Type 0
Parts = Option ProviderConfig × Option BusConfig × Option KnowledgeResultReaderConfig

unfoldable pub parts_of : Role → Builder → Result ConfigError Parts
unfolding reader_of provider_of bus_of
parts_of Role.api b = and_then (reader_of b) λ reader. ok (none, none, some reader)
parts_of Role.worker b =
    and_then (provider_of b)
      λ provider. and_then (bus_of b) λ bus. ok (some provider, some bus, none)

abbrev pub assembled : Builder → Option ScheduleConfig → String → String → Parts → Config
assembled b schedule url secret parts = record {
  role = b.role;
  database_url = url;
  max_connections = 8;
  acquire_timeout_ms = 5_000;
  api_address = b.api_listen_address;
  operator_address = b.operator_listen_address;
  limits = b.limits;
  telemetry = b.telemetry;
  provider = parts.0;
  bus = parts.1;
  schedule = schedule;
  retention = if is_worker b.role then some b.retention else none;
  knowledge_result_reader = parts.2;
  service_secret = secret;
}

-- `Builder::finish`
unfoldable pub finish : Builder → Result ConfigError Config
unfolding schedule_of parts_of
finish b = and_then (schedule_of b) λ schedule.
    and_then (required b.database_url "RATATOSKR__DATABASE__URL") λ url.
      and_then (required b.service_secret "RATATOSKR__AUTH__SERVICE_SECRET")
        λ secret. and_then (parts_of b.role b) λ parts. ok (assembled b schedule url secret parts)

module _ ⦃parse : ConfigParsers⦄ where
  -- The loop of `from_environment`
  unfoldable pub apply_all : Builder → List (String × String) → Result ConfigError Builder
  unfolding apply
  apply_all b [] = ok b
  apply_all b ((key, value) ∷ entries) =
      and_then (if starts_with key "RATATOSKR__" then apply b key value else ok b)
        λ next. apply_all next entries

  -- `Config::from_environment`
  unfoldable pub from_environment : Role → List (String × String) → Result ConfigError Config
  unfolding new_builder apply_all finish
  from_environment role entries = and_then (apply_all (new_builder role) entries) finish
