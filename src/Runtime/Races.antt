-- ===== src/Runtime/Races.antt =====
-- Two updates of the flags that overlap: `/ready` may answer yes while the bus is down.
use ratatoskr_channel_digest.Prelude.{Bool, true, false, ◌≡◌, refl}
use ratatoskr_channel_digest.Runtime.{Stage, access}
use ratatoskr_channel_digest.Runtime.Supervision.{
  Phase, Move, Main, System, spawned, Step, Reach, here, next,
}

-- The bus serves, and `set_provider(true)` has read its flag and not yet the provider's own.
abbrev pub overlapping : Bool → System
overlapping ready = record {
  flags = record { bus = true; provider = true; ready = ready; drain = false };
  bus_at = Phase.serving;
  provider_at = Phase.setting true Phase.serving Stage.load_provider;
  main_at = Main.running;
}

-- The bus is down and its supervisor sleeps, the provider serves, and `/ready` answers yes.
abbrev pub IsStale : System → Type 0
IsStale s =
    (s.bus_at ≡ Phase.waiting)
    × (s.provider_at ≡ Phase.serving)
    × (s.flags.bus ≡ false)
    × (s.flags.ready ≡ true)

-- Whatever `/ready` answered before: from a state in which the bus serves and `set_provider(true)` has
-- read its flag, the worker can come to one in which the bus is down, its supervisor sleeps, the
-- provider serves, and `/ready` answers yes.
pub overlapping-IsStale : (ready : Bool) → (t : System) × Reach (overlapping ready) t × IsStale t
unfolding access
overlapping-IsStale ready = (
  _,
  next
      (next
        (next
          (next
            (next
              (next (next here (Step.bus_moves (Move.stop refl)))
                (Step.bus_moves (Move.go_on refl)))
              (Step.bus_moves (Move.go_on refl)))
            (Step.bus_moves (Move.settle refl)))
          (Step.bus_moves (Move.back_off refl)))
        (Step.provider_moves (Move.go_on refl)))
      (Step.provider_moves (Move.settle refl)),
  (refl, refl, refl, refl),
)

-- That state is reached from the spawn of the tasks.
pub overlapping-Reach : Reach spawned (overlapping false)
unfolding access
overlapping-Reach =
    next
      (next
        (next
          (next
            (next
              (next
                (next
                  (next
                    (next (next here (Step.bus_moves (Move.enter refl)))
                      (Step.bus_moves Move.connected))
                    (Step.bus_moves (Move.go_on refl)))
                  (Step.bus_moves (Move.go_on refl)))
                (Step.bus_moves (Move.go_on refl)))
              (Step.bus_moves (Move.settle refl)))
            (Step.provider_moves (Move.enter refl)))
          (Step.provider_moves Move.connected))
        (Step.provider_moves (Move.go_on refl)))
      (Step.provider_moves (Move.go_on refl))
