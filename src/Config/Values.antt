-- ===== src/Config/Values.antt =====
-- src/config.rs: the functions that read one value, with the reason of a refusal.
use Prim.Native.String.{len}
use ratatoskr_channel_digest.Prelude.{
  ℕ, ◌^◌, String, concat, Bool, true, false, not, ◌&&◌, Option, none, some, ltb, leb, ◌==◌, str_eq,
  if◌then◌else◌, holds,
}
use ratatoskr_channel_digest.Contracts.{OutputLanguage}
use ratatoskr_channel_digest.Storage.{Result, ok, err, and_then}
use ratatoskr_channel_digest.Config.{SocketAddr, Uri, ConfigParsers, ConfigError, LogFormat}

abbrev pub refuse : {A : Type 0} → String → String → Result ConfigError A
refuse key reason = err (record { key = key; reason = reason })

abbrev pub required : {A : Type 0} → Option A → String → Result ConfigError A
required none key = refuse key "is required"
required (some a) key = ok a

abbrev pub nonempty : String → String → Result ConfigError String
nonempty key value = if len value == 0 then refuse key "must not be empty" else ok value

abbrev pub nonempty_secret : String → String → Result ConfigError String
nonempty_secret key value = nonempty key value

abbrev pub bounded_secret : String → String → ℕ → Result ConfigError String
bounded_secret key value maximum =
    and_then (nonempty key value)
      λ v. if leb (len v) maximum then ok v else refuse key "exceeds the finite byte limit"

abbrev pub parse_bool : String → String → Result ConfigError Bool
parse_bool key value =
    if str_eq value "true"
    then ok true
    else if str_eq value "false"
    then ok false
    else refuse key "must be true or false"

abbrev pub parse_language : String → String → Result ConfigError OutputLanguage
parse_language key value =
    if str_eq value "ru"
    then ok OutputLanguage.ru
    else if str_eq value "en"
    then ok OutputLanguage.en
    else refuse key "must be ru or en"

abbrev pub parse_log_format : String → String → Result ConfigError LogFormat
parse_log_format key value =
    if str_eq value "json"
    then ok LogFormat.json
    else if str_eq value "pretty"
    then ok LogFormat.pretty
    else refuse key "must be json or pretty"

-- A parser that refuses with a reason
abbrev pub parsed_by :
    {A : Type 0} → (String → Option A) → String → String → String → Result ConfigError A
parsed_by f key value reason = elim (f value) [ none ↦ refuse key reason | some a ↦ ok a ]

-- `parse_range`
unfoldable pub parse_range : (String → Option ℕ) → String → String → ℕ → ℕ → Result ConfigError ℕ
parse_range parse key value minimum maximum =
    and_then (parsed_by parse key value "is outside the finite range")
      λ n. if leb minimum n && leb n maximum then ok n else refuse key "is outside the finite range"

module _ ⦃parse : ConfigParsers⦄ where
  abbrev pub parse_positive : String → String → Result ConfigError ℕ
  parse_positive key value =
      and_then (parsed_by parse.parse_i32 key value "must be a positive integer")
        λ n. if ltb (2 ^ 31) n then ok n else refuse key "must be a positive integer"

  abbrev pub absolute_path : String → String → Result ConfigError String
  absolute_path key value =
      if parse.is_absolute value then ok value else refuse key "must be an absolute path"

  abbrev pub parse_log_filter : String → String → Result ConfigError String
  parse_log_filter key value = and_then (nonempty key value) λ v.
      if parse.parses_filter v
      then ok value
      else refuse key "must be a valid log filter directive string"

  abbrev pub is_local : SocketAddr → Bool
  is_local a = a.is_loopback && not (a.port == 0)

  abbrev pub parse_loopback_address : String → String → Result ConfigError SocketAddr
  parse_loopback_address key value =
      and_then (parsed_by parse.parse_address key value "must be a loopback socket address")
        λ a. if is_local a then ok a else refuse key "must be a loopback socket address"

  abbrev pub is_origin : Uri → Bool
  is_origin uri =
      holds (λ s. str_eq s "http") uri.scheme
      && not (holds (λ p. not (str_eq p "/")) uri.path_and_query)

  -- `loopback_http_base_url`
  abbrev pub loopback_http_base_url : String → String → Result ConfigError String
  loopback_http_base_url key value =
      and_then (parsed_by parse.parse_uri key value "must be a loopback HTTP origin") λ uri.
        and_then (parsed_by (λ v. uri.authority) key value "must be a loopback HTTP origin")
          λ authority.
            and_then (parsed_by parse.parse_address key authority "must be a loopback HTTP origin")
              λ a.
                if is_origin uri && is_local a
                then ok (concat "http://" authority)
                else refuse key "must be a loopback HTTP origin"
