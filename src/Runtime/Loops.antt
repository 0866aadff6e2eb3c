-- ===== src/Runtime/Loops.antt =====
-- src/runtime.rs, src/retention.rs and src/bus.rs: the loops of the worker's tasks over what their
-- `select` meets, with what they do to the database. A round that fails is logged and the loop goes on.
use ratatoskr_channel_digest.Prelude.{ℕ, ◌+◌, Bool, List, [], ◌∷◌}
use ratatoskr_channel_digest.Contracts.{OutputLanguage, External}
use ratatoskr_channel_digest.Storage.{World}
use ratatoskr_channel_digest.Envelopes.{OutboundMessage}
use ratatoskr_channel_digest.Config.{BusConfig}
use ratatoskr_channel_digest.Provider.{PublicChannelProvider}
use ratatoskr_channel_digest.Maintenance.{sweep_once}
use ratatoskr_channel_digest.Executor.Execution.{execute_one}
use ratatoskr_channel_digest.Reaper.{reap_once}
use ratatoskr_channel_digest.Bus.Consumers.{Broker}
use ratatoskr_channel_digest.Bus.Consumption.{BusEvent, consume_once}

-- What a timed loop meets: the drain signal, time that passes, or a tick of its timer at the time that
-- the clock of the process shows.
pub data TimerEvent : Type 0 where
  drain : TimerEvent
  pass : ℕ → TimerEvent
  tick : ℕ → TimerEvent

abbrev pub pass_time : ℕ → World → World
pass_time time w = record w { clock = w.clock + time }

-- `supervise_retention`
unfoldable pub supervise_retention : ℕ → List TimerEvent → World → World
supervise_retention days [] w = w
supervise_retention days (TimerEvent.drain ∷ events) w = w
supervise_retention days (TimerEvent.pass time ∷ events) w =
    supervise_retention days events (pass_time time w)
supervise_retention days (TimerEvent.tick now ∷ events) w =
    supervise_retention days events (sweep_once days now w).1

-- A connection that `supervise_provider` tries: refused, or a provider with what its loop meets.
pub data Connection : Type 0 where
  refused : ℕ → Connection
  connected : PublicChannelProvider → List TimerEvent → Connection

module _ ⦃ext : External⦄ where
  -- `supervise_reaper`
  unfoldable pub supervise_reaper : ℕ → List TimerEvent → World → World
  supervise_reaper deadline [] w = w
  supervise_reaper deadline (TimerEvent.drain ∷ events) w = w
  supervise_reaper deadline (TimerEvent.pass time ∷ events) w =
      supervise_reaper deadline events (pass_time time w)
  supervise_reaper deadline (TimerEvent.tick now ∷ events) w =
      supervise_reaper deadline events (reap_once now deadline w).1

  -- The inner loop of `supervise_provider`
  unfoldable pub execute_ticks : PublicChannelProvider → ℕ → List TimerEvent → World → World
  execute_ticks provider source_count [] w = w
  execute_ticks provider source_count (TimerEvent.drain ∷ events) w = w
  execute_ticks provider source_count (TimerEvent.pass time ∷ events) w =
      execute_ticks provider source_count events (pass_time time w)
  execute_ticks provider source_count (TimerEvent.tick now ∷ events) w =
      execute_ticks provider source_count events (execute_one provider source_count w).1

  -- `supervise_provider`
  unfoldable pub supervise_provider : ℕ → List Connection → World → World
  unfolding execute_ticks
  supervise_provider source_count [] w = w
  supervise_provider source_count (refused time ∷ rest) w =
      supervise_provider source_count rest (pass_time time w)
  supervise_provider source_count (connected provider events ∷ rest) w =
      supervise_provider source_count rest (execute_ticks provider source_count events w)

  -- `supervise_bus`: one connection after the other, each with what it meets and the sleep behind it.
  unfoldable pub supervise_bus :
      OutputLanguage
      → BusConfig
      → List (Broker × (OutboundMessage → Bool) × List BusEvent × ℕ)
      → World
      → World
  supervise_bus language bus [] w = w
  supervise_bus language bus ((broker, acknowledges, events, sleep) ∷ rest) w =
      supervise_bus language bus rest
        (pass_time sleep (consume_once language acknowledges broker bus events w).1)
