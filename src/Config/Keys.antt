-- ===== src/Config/Keys.antt =====
-- src/config.rs: `Builder::apply`, one key with its value.
use ratatoskr_channel_digest.Prelude.{String, ◌&&◌, some, str_eq, if◌then◌else◌}
use ratatoskr_channel_digest.Storage.{Result, ok, and_then}
use ratatoskr_channel_digest.Config.{is_worker, is_api, ConfigParsers, ConfigError, Builder}
use ratatoskr_channel_digest.Config.Values.{
  refuse, nonempty, nonempty_secret, bounded_secret, parse_bool, parse_language, parse_log_format,
  parsed_by, parse_range, parse_positive, absolute_path, parse_log_filter, parse_loopback_address,
  loopback_http_base_url,
}

module _ ⦃parse : ConfigParsers⦄ where
  -- `Builder::apply`: the keys of secrets; `rest` is the match behind them
  unfoldable pub apply_secrets :
      Builder → String → String → Result ConfigError Builder → Result ConfigError Builder
  apply_secrets b key value rest =
      if str_eq key "RATATOSKR__DATABASE__URL"
      then and_then (nonempty_secret key value) (λ v. ok (record b { database_url = some v }))
      else if str_eq key "RATATOSKR__AUTH__SERVICE_SECRET"
      then and_then (nonempty_secret key value) (λ v. ok (record b { service_secret = some v }))
      else rest

  -- `Builder::apply`: the keys of the provider and the bus; `rest` is the match behind them
  unfoldable pub apply_provider :
      Builder → String → String → Result ConfigError Builder → Result ConfigError Builder
  apply_provider b key value rest =
      if str_eq key "RATATOSKR__PROVIDER__API_ID" && is_worker b.role
      then and_then (parse_positive key value) (λ v. ok (record b { provider_api_id = some v }))
      else if str_eq key "RATATOSKR__PROVIDER__API_HASH" && is_worker b.role
      then and_then (nonempty_secret key value) (λ v. ok (record b { provider_api_hash = some v }))
      else if str_eq key "RATATOSKR__PROVIDER__SESSION_FILE" && is_worker b.role
      then and_then (absolute_path key value) (λ v. ok (record b { session_file = some v }))
      else if str_eq key "RATATOSKR__PROVIDER__SESSION_KEY_FILE" && is_worker b.role
      then and_then (absolute_path key value) (λ v. ok (record b { session_key_file = some v }))
      else if str_eq key "RATATOSKR__BUS__ENDPOINT" && is_worker b.role
      then and_then (nonempty key value) (λ v. ok (record b { bus_endpoint = some v }))
      else if str_eq key "RATATOSKR__BUS__NKEY_SEED_PATH" && is_worker b.role
      then and_then (absolute_path key value) (λ v. ok (record b { bus_nkey_seed_path = some v }))
      else rest

  -- `Builder::apply`: the keys of the schedule; `rest` is the match behind them
  unfoldable pub apply_schedule :
      Builder → String → String → Result ConfigError Builder → Result ConfigError Builder
  apply_schedule b key value rest =
      if str_eq key "RATATOSKR__SCHEDULE__OWNER_USER_ID" && is_worker b.role
      then and_then (parsed_by parse.parse_user key value "must be a canonical user UUID")
          (λ v. ok (record b { schedule_owner = some v }))
      else if str_eq key "RATATOSKR__SCHEDULE__CRON" && is_worker b.role
      then and_then
          (parsed_by parse.parse_cron key value "must be a five-field UTC cron expression")
          (λ v. ok (record b { schedule_cron = some v }))
      else if str_eq key "RATATOSKR__SCHEDULE__ENABLED" && is_worker b.role
      then and_then (parse_bool key value) (λ v. ok (record b { schedule_enabled = some v }))
      else if str_eq key "RATATOSKR__SCHEDULE__OUTPUT_LANGUAGE" && is_worker b.role
      then and_then (parse_language key value) (λ v. ok (record b { schedule_language = some v }))
      else rest

  -- `Builder::apply`: the keys of the retention; `rest` is the match behind them
  unfoldable pub apply_retention :
      Builder → String → String → Result ConfigError Builder → Result ConfigError Builder
  apply_retention b key value rest =
      if str_eq key "RATATOSKR__RETENTION__BODY_DAYS" && is_worker b.role
      then and_then (parse_range parse.parse_u32 key value 8 3_650)
          (λ v. ok (record b { retention = record b.retention { body_days = v } }))
      else if str_eq key "RATATOSKR__RETENTION__SWEEP_INTERVAL_SECONDS" && is_worker b.role
      then and_then (parse_range parse.parse_u64 key value 60 86_400)
          (λ v. ok (record b { retention = record b.retention { sweep_interval_seconds = v } }))
      else rest

  -- `Builder::apply`: the keys of the result reader; `rest` is the match behind them
  unfoldable pub apply_knowledge :
      Builder → String → String → Result ConfigError Builder → Result ConfigError Builder
  apply_knowledge b key value rest =
      if str_eq key "RATATOSKR__KNOWLEDGE__BASE_URL" && is_api b.role
      then and_then (loopback_http_base_url key value)
          (λ v. ok (record b { knowledge_base_url = some v }))
      else if str_eq key "RATATOSKR__KNOWLEDGE__RESULT_READER_SERVICE_SECRET" && is_api b.role
      then and_then (bounded_secret key value 4_096)
          (λ v. ok (record b { knowledge_secret = some v }))
      else if str_eq key "RATATOSKR__KNOWLEDGE__CONNECT_TIMEOUT_MS" && is_api b.role
      then and_then (parse_range parse.parse_u64 key value 1 10_000)
          (λ v. ok (record b { knowledge_connect_timeout_ms = some v }))
      else if str_eq key "RATATOSKR__KNOWLEDGE__REQUEST_TIMEOUT_MS" && is_api b.role
      then and_then (parse_range parse.parse_u64 key value 1 30_000)
          (λ v. ok (record b { knowledge_request_timeout_ms = some v }))
      else if str_eq key "RATATOSKR__KNOWLEDGE__MAX_RESPONSE_BYTES" && is_api b.role
      then and_then (parse_range parse.parse_usize key value 1 65_536)
          (λ v. ok (record b { knowledge_max_response_bytes = some v }))
      else rest

  -- `Builder::apply`: the keys of the listeners and the telemetry; `rest` is the match behind them
  unfoldable pub apply_process :
      Builder → String → String → Result ConfigError Builder → Result ConfigError Builder
  apply_process b key value rest =
      if str_eq key "RATATOSKR__API__LISTEN_ADDRESS" && is_api b.role
      then and_then (parse_loopback_address key value)
          (λ v. ok (record b { api_listen_address = v }))
      else if str_eq key "RATATOSKR__OPERATOR__LISTEN_ADDRESS"
      then and_then (parse_loopback_address key value)
          (λ v. ok (record b { operator_listen_address = v }))
      else if str_eq key "RATATOSKR__TELEMETRY__LOG_FORMAT"
      then and_then (parse_log_format key value)
          (λ v. ok (record b { telemetry = record b.telemetry { log_format = v } }))
      else if str_eq key "RATATOSKR__TELEMETRY__LOG_FILTER"
      then and_then (parse_log_filter key value)
          (λ v. ok (record b { telemetry = record b.telemetry { log_filter = v } }))
      else rest

  -- `Builder::apply_limit`
  unfoldable pub apply_limit : Builder → String → String → Result ConfigError Builder
  unfolding parse_range
  apply_limit b key value =
      if str_eq key "RATATOSKR__LIMITS__REQUEST_BYTES"
      then and_then (parse_range parse.parse_usize key value 1 1_048_576)
          (λ v. ok (record b { limits = record b.limits { request_bytes = v } }))
      else if str_eq key "RATATOSKR__LIMITS__PAGE_SIZE"
      then and_then (parse_range parse.parse_usize key value 1 100)
          (λ v. ok (record b { limits = record b.limits { page_size = v } }))
      else if str_eq key "RATATOSKR__LIMITS__SOURCE_COUNT"
      then and_then (parse_range parse.parse_usize key value 1 100)
          (λ v. ok (record b { limits = record b.limits { source_count = v } }))
      else if str_eq key "RATATOSKR__LIMITS__CHANNEL_COUNT"
      then and_then (parse_range parse.parse_usize key value 1 20)
          (λ v. ok (record b { limits = record b.limits { channel_count = v } }))
      else if str_eq key "RATATOSKR__LIMITS__SOURCE_BYTES"
      then and_then (parse_range parse.parse_usize key value 1 16_384)
          (λ v. ok (record b { limits = record b.limits { source_bytes = v } }))
      else if str_eq key "RATATOSKR__LIMITS__RETRY_ATTEMPTS"
      then and_then (parse_range parse.parse_u32 key value 1 10)
          (λ v. ok (record b { limits = record b.limits { retry_attempts = v } }))
      else if str_eq key "RATATOSKR__LIMITS__RUN_DEADLINE_SECONDS"
      then and_then (parse_range parse.parse_u64 key value 60 86_400)
          (λ v. ok (record b { limits = record b.limits { run_deadline_seconds = v } }))
      else if str_eq key "RATATOSKR__LIMITS__SHUTDOWN_TIMEOUT_MS"
      then and_then (parse_range parse.parse_u64 key value 1 130_000)
          (λ v. ok (record b { limits = record b.limits { shutdown_timeout_ms = v } }))
      else refuse key "is not recognized for this role"

  -- `Builder::apply`
  unfoldable pub apply : Builder → String → String → Result ConfigError Builder
  unfolding apply_secrets apply_provider apply_schedule apply_retention apply_knowledge
      apply_process apply_limit
  apply b key value = apply_secrets b key value (
      apply_provider b key value (
        apply_schedule b key value (
          apply_retention b key value
            (apply_knowledge b key value (apply_process b key value (apply_limit b key value))))))
