-- ===== src/Runtime.antt =====
-- src/runtime.rs: `Lifecycle` and `WorkerReadiness`, the three shared flags behind the answer of
-- `/ready`, with the accesses of one update as the steps in which other tasks may interleave.
pub mod Supervision
pub mod Updates
pub mod Ready
pub mod Shutdown
pub mod Sweeping
pub mod Races
pub mod Startup
pub mod Process
pub mod Loaded
pub mod Loops
use ratatoskr_channel_digest.Prelude.{
  ℕ, zero, suc, Bool, true, false, ◌&&◌, Option, none, some, if◌then◌else◌, ◌≡◌, arith,
}

-- `WorkerReadiness` with its `Lifecycle`, and the value of the drain channel.
pub record Flags : Type 0 where
  pub bus : Bool
  pub provider : Bool
  pub ready : Bool
  pub drain : Bool

-- `WorkerReadiness::new` over `Lifecycle::new(false)`
abbrev pub new_flags : Flags
new_flags = record { bus = false; provider = false; ready = false; drain = false }

pub data Supervisor : Type 0 where
  bus provider : Supervisor

-- The flag that a supervisor owns.
abbrev pub own : Supervisor → Flags → Bool
own Supervisor.bus g = g.bus
own Supervisor.provider g = g.provider

-- `Lifecycle::set_ready`
abbrev pub set_ready : Bool → Flags → Flags
set_ready b g = record g { ready = b }

-- `Lifecycle::begin_drain`
abbrev pub begin_drain : Flags → Flags
begin_drain g = record g { ready = false }

-- `drain_tx.send(true)`
abbrev pub send_drain : Flags → Flags
send_drain g = record g { drain = true }

-- `WorkerReadiness::refresh`
abbrev pub refresh : Flags → Flags
refresh g = set_ready (g.bus && g.provider) g

abbrev pub store_own : Supervisor → Bool → Flags → Flags
store_own Supervisor.bus b g = record g { bus = b }
store_own Supervisor.provider b g = record g { provider = b }

-- `WorkerReadiness::set_bus` and `WorkerReadiness::set_provider`, with no other task between
unfoldable pub set_own : Supervisor → Bool → Flags → Flags
set_own who b g = refresh (store_own who b g)

-- Where an update stands: before the store of its own flag, before each load of `refresh`, and
-- before the store of `ready`.
pub data Stage : Type 0 where
  store_flag load_bus load_provider : Stage
  publish : Bool → Stage

-- One access of an update; `none` is its end. A false first operand of `&&` skips the second load.
unfoldable pub access : Supervisor → Bool → Stage → Flags → Flags × Option Stage
access who b Stage.store_flag g = (store_own who b g, some Stage.load_bus)
access who b Stage.load_bus g =
    (g, some (if g.bus then Stage.load_provider else Stage.publish false))
access who b Stage.load_provider g = (g, some (Stage.publish g.provider))
access who b (Stage.publish v) g = (set_ready v g, none)

-- The accesses in a row, within a number of them.
unfoldable pub run_alone : ℕ → Supervisor → Bool → Stage → Flags → Flags
unfolding access
run_alone zero who b s g = g
run_alone (suc n) who b s g = elim (access who b s g).1 [
  | none ↦ (access who b s g).0
  | some next ↦ run_alone n who b next (access who b s g).0
]

-- `ready`: the status of the answer.
abbrev pub ready_status : Flags → ℕ
ready_status g = if g.ready then 200 else 503

-- Four accesses in a row are the update of the source.
pub run_alone_lem :
    (who : Supervisor) (b : Bool) (g : Flags)
    → run_alone 4 who b Stage.store_flag g ≡ set_own who b g
unfolding run_alone set_own
run_alone_lem Supervisor.bus true g = ground arith
run_alone_lem Supervisor.bus false g = ground arith
run_alone_lem Supervisor.provider b g = ground arith
