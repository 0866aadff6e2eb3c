-- ===== src/Runtime/Process.antt =====
-- services/api/src/main.rs and services/worker/src/main.rs: the two processes, with
-- src/telemetry.rs: `install_subscriber`.
use ratatoskr_channel_digest.Prelude.{
  String, Bool, ◌&&◌, Option, List, if◌then◌else◌, maybe, holds, str_eq,
}
use ratatoskr_channel_digest.Contracts.{External}
use ratatoskr_channel_digest.Storage.{M, pure, raise, lift, ◌>>=◌, ◌>>◌, map_err}
use ratatoskr_channel_digest.Config.{Role, ConfigParsers, ConfigError, Config}
use ratatoskr_channel_digest.Config.Finish.{from_environment}
use ratatoskr_channel_digest.Session.{SessionError, SessionFiles, load}
use ratatoskr_channel_digest.Runtime.Startup.{RuntimeError, Host, run_api, run_worker}

pub data ProcessError : Type 0 where
  config : ConfigError → ProcessError
  telemetry provider_absent : ProcessError
  session : SessionError → ProcessError
  runtime : RuntimeError → ProcessError

abbrev pub from_config : ConfigError → ProcessError
from_config e = ProcessError.config e

abbrev pub from_session : SessionError → ProcessError
from_session e = ProcessError.session e

abbrev pub from_runtime : RuntimeError → ProcessError
from_runtime e = ProcessError.runtime e

-- What starts a process: its environment, its first argument, and whether no subscriber of the log is
-- installed yet.
pub record Start : Type 0 where
  pub entries : List (String × String)
  pub argument : Option String
  pub is_first : Bool

abbrev pub checks_only : Start → Bool
checks_only start = holds (λ a. str_eq a "check-config") start.argument

module _ ⦃parse : ConfigParsers⦄ (host : Host) (start : Start) where
  -- `install_subscriber`
  unfoldable pub install_subscriber : Config → M ProcessError (Unit {0})
  install_subscriber c =
      if parse.parses_filter c.telemetry.log_filter && start.is_first
      then pure tt
      else raise ProcessError.telemetry

  -- `main` of the API
  unfoldable pub api_main : M ProcessError (Unit {0})
  unfolding install_subscriber
  api_main = do
    c ← map_err from_config (lift (from_environment Role.api start.entries))
    install_subscriber c
    if checks_only start then pure tt else map_err from_runtime (run_api host c)

  -- `main` of the worker
  unfoldable pub worker_main : ⦃ext : External⦄ → SessionFiles → M ProcessError (Unit {0})
  unfolding install_subscriber
  worker_main ⦃ext⦄ files = do
    c ← map_err from_config (lift (from_environment Role.worker start.entries))
    install_subscriber c
    provider ← maybe c.provider (raise ProcessError.provider_absent) pure
    material ← map_err from_session (lift (load files provider))
    if checks_only start then pure tt else map_err from_runtime (run_worker host c)
