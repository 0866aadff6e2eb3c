-- ===== src/Config/Roles.antt =====
-- The configuration of an environment: its ranges, and what a role may have.
use ratatoskr_channel_digest.Prelude.{
  ℕ, ◌≤◌, String, false, ◌&&◌, ◌||◌, Option, none, some, List, ◌≡◌, refl, subst, sym, arith, ltb,
  is_some, if◌then◌else◌, Option-cases, inl, inr,
}
use ratatoskr_channel_digest.Storage.{ok}
use ratatoskr_channel_digest.Storage.Results.{
  Answers, Answers-ok, Answers-err, Answers-and_then, Answers-unless,
}
use ratatoskr_channel_digest.Registration.{ScheduleConfig}
use ratatoskr_channel_digest.Config.{
  Role, is_worker, is_api, ConfigParsers, RetentionConfig, KnowledgeResultReaderConfig, Config,
  Builder, new_builder,
}
use ratatoskr_channel_digest.Config.Values.{required}
use ratatoskr_channel_digest.Config.Finish.{
  Parts, schedule_of, reader_of, provider_of, bus_of, parts_of, finish, apply_all, from_environment,
}
use ratatoskr_channel_digest.Config.Bounds.{
  Within, LimitsWithin, RetentionWithin, OptionWithin, IsSound, Answers-then, apply_all-IsSound,
  new_builder-IsSound,
}

abbrev pub RetentionFits : Option RetentionConfig → Type 0
RetentionFits none = Unit
RetentionFits (some r) = RetentionWithin r

abbrev pub ReaderFits : Option KnowledgeResultReaderConfig → Type 0
ReaderFits none = Unit
ReaderFits (some k) =
    Within 1 10_000 k.connect_timeout_ms
    × Within 1 30_000 k.request_timeout_ms
    × (k.connect_timeout_ms ≤ k.request_timeout_ms)
    × Within 1 65_536 k.max_response_bytes

-- Every bounded value is in its range.
abbrev pub IsBounded : Config → Type 0
IsBounded c =
    LimitsWithin c.limits × RetentionFits c.retention × ReaderFits c.knowledge_result_reader

-- Only the worker has a provider, a bus, a retention and a schedule, and only the API has a reader of
-- results.
abbrev pub IsScoped : Role → Config → Type 0
IsScoped role c =
    (c.role ≡ role)
    × (is_some c.provider ≡ is_worker role)
    × (is_some c.bus ≡ is_worker role)
    × (is_some c.retention ≡ is_worker role)
    × (is_some c.schedule && is_api role ≡ false)
    × (is_some c.knowledge_result_reader ≡ is_api role)

abbrev PartsFit : Role → Parts → Type 0
PartsFit role (provider, bus, reader) =
    (is_some provider ≡ is_worker role)
    × (is_some bus ≡ is_worker role)
    × (is_some reader ≡ is_api role)
    × ReaderFits reader

required-Within :
    (low high : ℕ) (o : Option ℕ) (key : String)
    → OptionWithin low high o
    → Answers (Within low high) (required o key)
required-Within low high none key k = Answers-err _
required-Within low high (some n) key k = Answers-ok n k

reader_of-Fits :
    (role : Role) (b : Builder) → IsSound role b → Answers (λ r. ReaderFits (some r)) (reader_of b)
unfolding reader_of
reader_of-Fits role b k =
    Answers-and_then (Within 1 10_000) (required b.knowledge_connect_timeout_ms _) _
      (required-Within 1 10_000 b.knowledge_connect_timeout_ms _ k.2.0)
      λ connect c.
        Answers-and_then (Within 1 30_000) (required b.knowledge_request_timeout_ms _) _
          (required-Within 1 30_000 b.knowledge_request_timeout_ms _ k.2.1)
          λ request q. Answers-unless (ltb request connect) _ _ λ slower.
            Answers-then (required b.knowledge_base_url _) _ λ url.
              Answers-then (required b.knowledge_secret _) _ λ secret.
                Answers-and_then (Within 1 65_536) (required b.knowledge_max_response_bytes _) _
                  (required-Within 1 65_536 b.knowledge_max_response_bytes _ k.2.2)
                  λ bytes m. Answers-ok _ (c, q, ground (arith, slower), m)

parts_of-Fit :
    (role : Role) (b : Builder) → IsSound role b → Answers (PartsFit role) (parts_of role b)
unfolding parts_of
parts_of-Fit Role.api b k =
    Answers-and_then (λ r. ReaderFits (some r)) (reader_of b) _ (reader_of-Fits Role.api b k)
      λ reader f. Answers-ok _ (refl, refl, refl, f)
parts_of-Fit Role.worker b k =
    Answers-then (provider_of b) _
      λ provider. Answers-then (bus_of b) _ λ bus. Answers-ok _ (refl, refl, refl, tt)

schedule_of-scoped :
    (role : Role) (b : Builder)
    → IsSound role b
    → Answers (λ (s : Option ScheduleConfig). is_some s && is_api role ≡ false) (schedule_of b)
unfolding schedule_of
schedule_of-scoped Role.api b k =
    let absent : is_some b.schedule_owner ≡ false = k.4 refl in
    elim (Option-cases b.schedule_owner) [
      | inl e ↦ rw e (
          Answers-unless
            (is_some b.schedule_cron || is_some b.schedule_enabled || is_some b.schedule_language) _
            _ λ f. Answers-ok _ refl)
      | inr (owner, e) ↦ absurd (ground (arith, e, absent))
    ]
schedule_of-scoped Role.worker b k = elim (Option-cases b.schedule_owner) [
  | inl e ↦ rw e (
      Answers-unless
        (is_some b.schedule_cron || is_some b.schedule_enabled || is_some b.schedule_language) _ _
        λ f. Answers-ok _ refl)
  | inr (owner, e) ↦ rw e (Answers-ok _ refl)
]

kept :
    (role : Role) (b : Builder)
    → IsSound role b
    → RetentionFits (if is_worker b.role then some b.retention else none)
      × (is_some (if is_worker b.role then some b.retention else none) ≡ is_worker role)
kept Role.api b k = rw k.3 (tt, refl)
kept Role.worker b k = rw k.3 (k.1, refl)

finish-fits :
    (role : Role) (b : Builder)
    → IsSound role b
    → Answers (λ c. IsBounded c × IsScoped role c) (finish b)
unfolding finish
finish-fits role b k =
    Answers-and_then (λ (s : Option ScheduleConfig). is_some s && is_api role ≡ false)
      (schedule_of b) _ (schedule_of-scoped role b k)
      λ schedule scoped. Answers-then (required b.database_url _) _ λ url.
        Answers-then (required b.service_secret _) _ λ secret.
          Answers-and_then (PartsFit role) (parts_of b.role b) _
            (subst (λ r. Answers (PartsFit role) (parts_of r b)) (sym k.3) (parts_of-Fit role b k))
            λ parts fit.
              let held = kept role b k in
              Answers-ok _ ((k.0, held.0, fit.3), (k.3, fit.0, fit.1, held.1, scoped, fit.2))

module _ ⦃parse : ConfigParsers⦄ where
  -- A configuration that loads from an environment has each of its limits within its range, the
  -- retention of the worker included, and the waits of the reader of results within theirs, the
  -- connection's no longer than the request's. It has a provider, a bus and a retention exactly for the
  -- worker, a schedule only for the worker, and a reader of results exactly for the API.
  pub from_environment-fits :
      (role : Role) (entries : List (String × String)) (c : Config)
      → from_environment role entries ≡ ok c
      → IsBounded c × IsScoped role c
  unfolding from_environment
  from_environment-fits role entries c e =
      (Answers-and_then (IsSound role) (apply_all (new_builder role) entries) finish
          (apply_all-IsSound role (new_builder role) entries (new_builder-IsSound role))
          (finish-fits role)).is
        c e
