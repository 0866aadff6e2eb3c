-- ===== src/Runtime/Supervision.antt =====
-- src/runtime.rs and src/bus.rs: `supervise_provider`, `supervise_bus` and the end of `run_worker` as
-- steps that interleave in any order. A step is one access of a shared flag or one await.
use ratatoskr_channel_digest.Prelude.{Bool, true, false, none, some, ◌≡◌}
use ratatoskr_channel_digest.Runtime.{
  Flags, new_flags, Supervisor, begin_drain, send_drain, Stage, access,
}

-- Where a supervisor stands. `setting b next s` is a `set_bus(b)` or `set_provider(b)` at the stage
-- `s`, after which the task goes on at `next`.
pub data Phase : Type 0 where
  -- the head of the `while`
  looking : Phase
  -- the connection, before the task is ready
  connecting : Phase
  -- the inner `loop`
  serving : Phase
  -- `if *drain.borrow() { return }` of `supervise_bus`
  checking : Phase
  -- the `select` on the drain signal and a second of sleep
  waiting : Phase
  returned : Phase
  setting : Bool → Phase → Stage → Phase

-- Where a task goes on after `set_…(false)`: `supervise_bus` looks at the drain signal,
-- `supervise_provider` sleeps after a refused connection and looks again after a served one.
abbrev pub after_refusal : Supervisor → Phase
after_refusal Supervisor.bus = Phase.checking
after_refusal Supervisor.provider = Phase.waiting

abbrev pub after_service : Supervisor → Phase
after_service Supervisor.bus = Phase.checking
after_service Supervisor.provider = Phase.looking

-- `consume_once` ends at any error and at the drain signal, the provider's loop at the signal only.
abbrev pub may_leave : Supervisor → Flags → Bool
may_leave Supervisor.bus g = true
may_leave Supervisor.provider g = g.drain

-- One step of a supervisor. The `select` of an inner loop is biased: once the drain signal is sent, no
-- further round of work begins.
pub data Move (who : Supervisor) (g : Flags) : Phase → Flags → Phase → Type 0 where
  enter : g.drain ≡ false → Move who g Phase.looking g Phase.connecting
  leave : g.drain ≡ true → Move who g Phase.looking g Phase.returned
  refused : Move who g Phase.connecting g (Phase.setting false (after_refusal who) Stage.store_flag)
  connected : Move who g Phase.connecting g (Phase.setting true Phase.serving Stage.store_flag)
  work : g.drain ≡ false → Move who g Phase.serving g Phase.serving
  stop :
      may_leave who g ≡ true
      → Move who g Phase.serving g (Phase.setting false (after_service who) Stage.store_flag)
  go_on :
      {b : Bool} {next : Phase} {s t : Stage} {h : Flags}
      → access who b s g ≡ (h, some t)
      → Move who g (Phase.setting b next s) h (Phase.setting b next t)
  settle :
      {b : Bool} {next : Phase} {s : Stage} {h : Flags}
      → access who b s g ≡ (h, none)
      → Move who g (Phase.setting b next s) h next
  end : g.drain ≡ true → Move who g Phase.checking g Phase.returned
  back_off : g.drain ≡ false → Move who g Phase.checking g Phase.waiting
  wake : Move who g Phase.waiting g Phase.looking

-- `run_worker` from the spawn of its tasks on: until the termination signal, after `begin_drain`, and
-- after the drain signal is sent.
pub data Main : Type 0 where
  running draining sent : Main

pub record System : Type 0 where
  pub flags : Flags
  pub bus_at : Phase
  pub provider_at : Phase
  pub main_at : Main

abbrev pub spawned : System
spawned = record {
  flags = new_flags;
  bus_at = Phase.looking;
  provider_at = Phase.looking;
  main_at = Main.running;
}

pub data Step (s : System) : System → Type 0 where
  bus_moves :
      {g : Flags} {p : Phase}
      → Move Supervisor.bus s.flags s.bus_at g p
      → Step s (record s { flags = g; bus_at = p })
  provider_moves :
      {g : Flags} {p : Phase}
      → Move Supervisor.provider s.flags s.provider_at g p
      → Step s (record s { flags = g; provider_at = p })
  -- `shutdown_signal` came: `lifecycle.begin_drain()`
  begins :
      s.main_at ≡ Main.running
      → Step s (record s { flags = begin_drain s.flags; main_at = Main.draining })
  -- `drain_tx.send(true)`
  sends :
      s.main_at ≡ Main.draining
      → Step s (record s { flags = send_drain s.flags; main_at = Main.sent })

pub data Reach (s : System) : System → Type 0 where
  here : Reach s s
  next : {t u : System} → Reach s t → Step t u → Reach s u
