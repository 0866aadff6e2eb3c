-- ===== src/Config/Bounds.antt =====
-- A configuration that loads has its limits in their ranges, and only what its role may have.
use text.Mathlib.Text.{starts_with}
use ratatoskr_channel_digest.Prelude.{
  ℕ, ◌≤◌, String, Bool, true, false, ◌&&◌, Option, none, some, List, [], ◌∷◌, ◌≡◌, refl, arith, leb,
  is_some, str_eq, if◌then◌else◌,
}
use ratatoskr_channel_digest.Storage.{Result, ok, and_then}
use ratatoskr_channel_digest.Storage.Results.{
  Answers, Answers-ok, Answers-err, Answers-and_then, Answers-any,
}
use ratatoskr_channel_digest.Config.{
  Role, is_worker, is_api, ConfigParsers, ConfigError, Limits, RetentionConfig, Builder,
  new_builder,
}
use ratatoskr_channel_digest.Config.Values.{
  nonempty, nonempty_secret, bounded_secret, parse_bool, parse_language, parse_log_format,
  parsed_by, parse_range, parse_positive, absolute_path, parse_log_filter, parse_loopback_address,
  loopback_http_base_url,
}
use ratatoskr_channel_digest.Config.Keys.{
  apply, apply_secrets, apply_provider, apply_schedule, apply_retention, apply_knowledge,
  apply_process, apply_limit,
}
use ratatoskr_channel_digest.Config.Finish.{apply_all}

abbrev pub Within : ℕ → ℕ → ℕ → Type 0
Within low high n = (low ≤ n) × (n ≤ high)

abbrev pub LimitsWithin : Limits → Type 0
LimitsWithin l =
    Within 1 1_048_576 l.request_bytes
    × Within 1 100 l.page_size
    × Within 1 100 l.source_count
    × Within 1 20 l.channel_count
    × Within 1 16_384 l.source_bytes
    × Within 1 10 l.retry_attempts
    × Within 1 130_000 l.shutdown_timeout_ms
    × Within 60 86_400 l.run_deadline_seconds

abbrev pub RetentionWithin : RetentionConfig → Type 0
RetentionWithin r = Within 8 3_650 r.body_days × Within 60 86_400 r.sweep_interval_seconds

abbrev pub OptionWithin : ℕ → ℕ → Option ℕ → Type 0
OptionWithin low high none = Unit
OptionWithin low high (some n) = Within low high n

abbrev pub WaitsWithin : Builder → Type 0
WaitsWithin b =
    OptionWithin 1 10_000 b.knowledge_connect_timeout_ms
    × OptionWithin 1 30_000 b.knowledge_request_timeout_ms
    × OptionWithin 1 65_536 b.knowledge_max_response_bytes

-- A builder so far: its role, and a schedule only for the worker.
abbrev pub IsSound : Role → Builder → Type 0
IsSound role b =
    LimitsWithin b.limits
    × RetentionWithin b.retention
    × WaitsWithin b
    × (b.role ≡ role)
    × (is_worker role ≡ false → is_some b.schedule_owner ≡ false)

module _ {A : Type 0} {Q : A → Type 0} where
  Answers-if :
      {E : Type 0} (b : Bool) (m n : Result E A)
      → (b ≡ true → Answers Q m)
      → Answers Q n
      → Answers Q (if b then m else n)
  Answers-if true m n km kn = km refl
  Answers-if false m n km kn = kn

  -- A value that no bound is on
  pub Answers-then :
      {E B : Type 0} (r : Result E B) (f : B → Result E A)
      → ((b : B) → Answers Q (f b))
      → Answers Q (and_then r f)
  Answers-then r f k = Answers-and_then (λ b. Unit) r f (Answers-any r) λ b u. k b

range-Within :
    (parse : String → Option ℕ) (key value : String) (low high : ℕ)
    → Answers (Within low high) (parse_range parse key value low high)
unfolding parse_range
range-Within parse key value low high =
    Answers-then (parsed_by parse key value "is outside the finite range") _ λ n.
      Answers-if (leb low n && leb n high) _ _
        (λ e. Answers-ok n (ground (arith, e), ground (arith, e))) (Answers-err _)

module _ {A : Type 0} {Q : A → Type 0} where
  -- A value within its range
  Answers-range :
      (parse : String → Option ℕ) (key value : String) (low high : ℕ) (f : ℕ → Result ConfigError A)
      → ((n : ℕ) → Within low high n → Answers Q (f n))
      → Answers Q (and_then (parse_range parse key value low high) f)
  Answers-range parse key value low high f k =
      Answers-and_then (Within low high) (parse_range parse key value low high) f
        (range-Within parse key value low high) k

module _ ⦃parse : ConfigParsers⦄ (role : Role) where
  apply_secrets-IsSound :
      (b : Builder) (key value : String) (rest : Result ConfigError Builder)
      → IsSound role b
      → Answers (IsSound role) rest
      → Answers (IsSound role) (apply_secrets b key value rest)
  unfolding apply_secrets
  apply_secrets-IsSound b key value rest k r =
      Answers-if (str_eq key "RATATOSKR__DATABASE__URL") _ _
        (λ e. Answers-then (nonempty_secret key value) _ λ v. Answers-ok _ k)
        (Answers-if (str_eq key "RATATOSKR__AUTH__SERVICE_SECRET") _ _
          (λ e. Answers-then (nonempty_secret key value) _ λ v. Answers-ok _ k) (r))

  apply_provider-IsSound :
      (b : Builder) (key value : String) (rest : Result ConfigError Builder)
      → IsSound role b
      → Answers (IsSound role) rest
      → Answers (IsSound role) (apply_provider b key value rest)
  unfolding apply_provider
  apply_provider-IsSound b key value rest k r =
      Answers-if (str_eq key "RATATOSKR__PROVIDER__API_ID" && is_worker b.role) _ _
        (λ e. Answers-then (parse_positive key value) _ λ v. Answers-ok _ k)
        (Answers-if (str_eq key "RATATOSKR__PROVIDER__API_HASH" && is_worker b.role) _ _
          (λ e. Answers-then (nonempty_secret key value) _ λ v. Answers-ok _ k)
          (Answers-if (str_eq key "RATATOSKR__PROVIDER__SESSION_FILE" && is_worker b.role) _ _
            (λ e. Answers-then (absolute_path key value) _ λ v. Answers-ok _ k)
            (Answers-if (str_eq key "RATATOSKR__PROVIDER__SESSION_KEY_FILE" && is_worker b.role) _ _
              (λ e. Answers-then (absolute_path key value) _ λ v. Answers-ok _ k)
              (Answers-if (str_eq key "RATATOSKR__BUS__ENDPOINT" && is_worker b.role) _ _
                (λ e. Answers-then (nonempty key value) _ λ v. Answers-ok _ k)
                (Answers-if (str_eq key "RATATOSKR__BUS__NKEY_SEED_PATH" && is_worker b.role) _ _
                  (λ e. Answers-then (absolute_path key value) _ λ v. Answers-ok _ k) (r))))))

  apply_schedule-IsSound :
      (b : Builder) (key value : String) (rest : Result ConfigError Builder)
      → IsSound role b
      → Answers (IsSound role) rest
      → Answers (IsSound role) (apply_schedule b key value rest)
  unfolding apply_schedule
  apply_schedule-IsSound b key value rest k r =
      Answers-if (str_eq key "RATATOSKR__SCHEDULE__OWNER_USER_ID" && is_worker b.role) _ _
        (λ e.
          Answers-then (parsed_by parse.parse_user key value "must be a canonical user UUID") _
            λ v. Answers-ok _ (k.0, k.1, k.2, k.3, λ f. absurd (ground (arith, e, f, k.3))))
        (Answers-if (str_eq key "RATATOSKR__SCHEDULE__CRON" && is_worker b.role) _ _
          (λ e.
            Answers-then
              (parsed_by parse.parse_cron key value "must be a five-field UTC cron expression") _
              λ v. Answers-ok _ k)
          (Answers-if (str_eq key "RATATOSKR__SCHEDULE__ENABLED" && is_worker b.role) _ _
            (λ e. Answers-then (parse_bool key value) _ λ v. Answers-ok _ k)
            (Answers-if (str_eq key "RATATOSKR__SCHEDULE__OUTPUT_LANGUAGE" && is_worker b.role) _ _
              (λ e. Answers-then (parse_language key value) _ λ v. Answers-ok _ k) (r))))

  apply_retention-IsSound :
      (b : Builder) (key value : String) (rest : Result ConfigError Builder)
      → IsSound role b
      → Answers (IsSound role) rest
      → Answers (IsSound role) (apply_retention b key value rest)
  unfolding apply_retention
  apply_retention-IsSound b key value rest k r =
      Answers-if (str_eq key "RATATOSKR__RETENTION__BODY_DAYS" && is_worker b.role) _ _
        (λ e.
          Answers-range parse.parse_u32 key value 8 3_650 _
            λ v w. Answers-ok _ (k.0, (w, k.1.1), k.2, k.3, k.4))
        (Answers-if (str_eq key "RATATOSKR__RETENTION__SWEEP_INTERVAL_SECONDS" && is_worker b.role)
          _ _
          (λ e.
            Answers-range parse.parse_u64 key value 60 86_400 _
              λ v w. Answers-ok _ (k.0, (k.1.0, w), k.2, k.3, k.4))
          (r))

  apply_knowledge-IsSound :
      (b : Builder) (key value : String) (rest : Result ConfigError Builder)
      → IsSound role b
      → Answers (IsSound role) rest
      → Answers (IsSound role) (apply_knowledge b key value rest)
  unfolding apply_knowledge
  apply_knowledge-IsSound b key value rest k r =
      Answers-if (str_eq key "RATATOSKR__KNOWLEDGE__BASE_URL" && is_api b.role) _ _
        (λ e. Answers-then (loopback_http_base_url key value) _ λ v. Answers-ok _ k)
        (Answers-if
          (str_eq key "RATATOSKR__KNOWLEDGE__RESULT_READER_SERVICE_SECRET" && is_api b.role) _ _
          (λ e. Answers-then (bounded_secret key value 4_096) _ λ v. Answers-ok _ k)
          (Answers-if (str_eq key "RATATOSKR__KNOWLEDGE__CONNECT_TIMEOUT_MS" && is_api b.role) _ _
            (λ e.
              Answers-range parse.parse_u64 key value 1 10_000 _
                λ v w. Answers-ok _ (k.0, k.1, (w, k.2.1, k.2.2), k.3, k.4))
            (Answers-if (str_eq key "RATATOSKR__KNOWLEDGE__REQUEST_TIMEOUT_MS" && is_api b.role) _ _
              (λ e.
                Answers-range parse.parse_u64 key value 1 30_000 _
                  λ v w. Answers-ok _ (k.0, k.1, (k.2.0, w, k.2.2), k.3, k.4))
              (Answers-if (str_eq key "RATATOSKR__KNOWLEDGE__MAX_RESPONSE_BYTES" && is_api b.role) _
                _
                (λ e.
                  Answers-range parse.parse_usize key value 1 65_536 _
                    λ v w. Answers-ok _ (k.0, k.1, (k.2.0, k.2.1, w), k.3, k.4))
                (r)))))

  apply_process-IsSound :
      (b : Builder) (key value : String) (rest : Result ConfigError Builder)
      → IsSound role b
      → Answers (IsSound role) rest
      → Answers (IsSound role) (apply_process b key value rest)
  unfolding apply_process
  apply_process-IsSound b key value rest k r =
      Answers-if (str_eq key "RATATOSKR__API__LISTEN_ADDRESS" && is_api b.role) _ _
        (λ e. Answers-then (parse_loopback_address key value) _ λ v. Answers-ok _ k)
        (Answers-if (str_eq key "RATATOSKR__OPERATOR__LISTEN_ADDRESS") _ _
          (λ e. Answers-then (parse_loopback_address key value) _ λ v. Answers-ok _ k)
          (Answers-if (str_eq key "RATATOSKR__TELEMETRY__LOG_FORMAT") _ _
            (λ e. Answers-then (parse_log_format key value) _ λ v. Answers-ok _ k)
            (Answers-if (str_eq key "RATATOSKR__TELEMETRY__LOG_FILTER") _ _
              (λ e. Answers-then (parse_log_filter key value) _ λ v. Answers-ok _ k) (r))))

  apply_limit-IsSound :
      (b : Builder) (key value : String)
      → IsSound role b
      → Answers (IsSound role) (apply_limit b key value)
  unfolding apply_limit
  apply_limit-IsSound b key value k =
      Answers-if (str_eq key "RATATOSKR__LIMITS__REQUEST_BYTES") _ _
        (λ e. Answers-range parse.parse_usize key value 1 1_048_576 _ λ v w.
          Answers-ok _ ((w, k.0.1, k.0.2, k.0.3, k.0.4, k.0.5, k.0.6, k.0.7), k.1, k.2, k.3, k.4))
        (Answers-if (str_eq key "RATATOSKR__LIMITS__PAGE_SIZE") _ _
          (λ e. Answers-range parse.parse_usize key value 1 100 _ λ v w.
            Answers-ok _ ((k.0.0, w, k.0.2, k.0.3, k.0.4, k.0.5, k.0.6, k.0.7), k.1, k.2, k.3, k.4))
          (Answers-if (str_eq key "RATATOSKR__LIMITS__SOURCE_COUNT") _ _
            (λ e. Answers-range parse.parse_usize key value 1 100 _ λ v w.
              Answers-ok _
                ((k.0.0, k.0.1, w, k.0.3, k.0.4, k.0.5, k.0.6, k.0.7), k.1, k.2, k.3, k.4))
            (Answers-if (str_eq key "RATATOSKR__LIMITS__CHANNEL_COUNT") _ _
              (λ e. Answers-range parse.parse_usize key value 1 20 _ λ v w.
                Answers-ok _
                  ((k.0.0, k.0.1, k.0.2, w, k.0.4, k.0.5, k.0.6, k.0.7), k.1, k.2, k.3, k.4))
              (Answers-if (str_eq key "RATATOSKR__LIMITS__SOURCE_BYTES") _ _
                (λ e. Answers-range parse.parse_usize key value 1 16_384 _ λ v w.
                  Answers-ok _
                    ((k.0.0, k.0.1, k.0.2, k.0.3, w, k.0.5, k.0.6, k.0.7), k.1, k.2, k.3, k.4))
                (Answers-if (str_eq key "RATATOSKR__LIMITS__RETRY_ATTEMPTS") _ _
                  (λ e. Answers-range parse.parse_u32 key value 1 10 _ λ v w.
                    Answers-ok _
                      ((k.0.0, k.0.1, k.0.2, k.0.3, k.0.4, w, k.0.6, k.0.7), k.1, k.2, k.3, k.4))
                  (Answers-if (str_eq key "RATATOSKR__LIMITS__RUN_DEADLINE_SECONDS") _ _
                    (λ e. Answers-range parse.parse_u64 key value 60 86_400 _ λ v w.
                      Answers-ok _
                        ((k.0.0, k.0.1, k.0.2, k.0.3, k.0.4, k.0.5, k.0.6, w), k.1, k.2, k.3, k.4))
                    (Answers-if (str_eq key "RATATOSKR__LIMITS__SHUTDOWN_TIMEOUT_MS") _ _
                      (λ e. Answers-range parse.parse_u64 key value 1 130_000 _ λ v w.
                        Answers-ok _ (
                          (k.0.0, k.0.1, k.0.2, k.0.3, k.0.4, k.0.5, w, k.0.7),
                          k.1,
                          k.2,
                          k.3,
                          k.4,
                        ))
                      (Answers-err _))))))))

  apply-IsSound :
      (b : Builder) (key value : String)
      → IsSound role b
      → Answers (IsSound role) (apply b key value)
  unfolding apply
  apply-IsSound b key value k = apply_secrets-IsSound b key value _ k (
      apply_provider-IsSound b key value _ k (
        apply_schedule-IsSound b key value _ k (
          apply_retention-IsSound b key value _ k (
            apply_knowledge-IsSound b key value _ k
              (apply_process-IsSound b key value _ k (apply_limit-IsSound b key value k))))))

  pub apply_all-IsSound :
      (b : Builder) (entries : List (String × String))
      → IsSound role b
      → Answers (IsSound role) (apply_all b entries)
  unfolding apply_all
  apply_all-IsSound b [] k = Answers-ok b k
  apply_all-IsSound b ((key, value) ∷ entries) k =
      Answers-and_then (IsSound role)
        (if starts_with key "RATATOSKR__" then apply b key value else ok b) _
        (Answers-if (starts_with key "RATATOSKR__") _ _ (λ e. apply-IsSound b key value k)
          (Answers-ok b k))
        λ next n. apply_all-IsSound next entries n

  pub new_builder-IsSound : IsSound role (new_builder role)
  unfolding new_builder
  new_builder-IsSound = (
    (
      (omega arith, omega arith),
      (omega arith, omega arith),
      (omega arith, omega arith),
      (omega arith, omega arith),
      (omega arith, omega arith),
      (omega arith, omega arith),
      (omega arith, omega arith),
      (omega arith, omega arith),
    ),
    ((omega arith, omega arith), (omega arith, omega arith)),
    (tt, tt, tt),
    refl,
    λ f. refl,
  )
