-- ===== src/Runtime/Shutdown.antt =====
-- How the supervisors end once the drain signal is sent.
use ratatoskr_channel_digest.Prelude.{
  ℕ, suc, ◌+◌, ◌≤◌, ◌<◌, Bool, true, false, Option, some, ◌≡◌, refl, ◌∙◌, ◌⊎◌, inl, inr, ap, arith,
  Bool-cases, Option-cases,
}
use ratatoskr_channel_digest.Runtime.{Flags, Supervisor, Stage, access}
use ratatoskr_channel_digest.Runtime.Supervision.{
  Phase, Move, Main, System, spawned, Step, Reach, here, next,
}
use ratatoskr_channel_digest.Runtime.Updates.{is_open, is_setting, Fits}
use ratatoskr_channel_digest.Runtime.Ready.{Inv, Reach-Inv}

-- So many steps one after the other.
pub data Runs (s : System) : ℕ → System → Type 0 where
  still : Runs s 0 s
  then : {n : ℕ} {t u : System} → Runs s n t → Step t u → Runs s (suc n) u

-- The accesses that an update has left.
abbrev stages_left : Stage → ℕ
stages_left Stage.store_flag = 4
stages_left Stage.load_bus = 3
stages_left Stage.load_provider = 2
stages_left (Stage.publish v) = 1

-- The steps that a supervisor has left, at most, once the drain signal is sent.
abbrev steps_left : Phase → ℕ
steps_left Phase.returned = 0
steps_left Phase.looking = 1
steps_left Phase.checking = 1
steps_left Phase.waiting = 2
steps_left Phase.serving = 6
steps_left Phase.connecting = 11
steps_left (Phase.setting b after s) = stages_left s + steps_left after

access-left :
    (who : Supervisor) (b : Bool) (s t : Stage) (g h : Flags)
    → access who b s g ≡ (h, some t)
    → stages_left t < stages_left s
unfolding access
access-left Supervisor.bus b Stage.store_flag t g h e = ground arith
access-left Supervisor.provider b Stage.store_flag t g h e = ground arith
access-left who b Stage.load_bus t g h e = ground arith
access-left who b Stage.load_provider t g h e = ground arith
access-left who b (Stage.publish v) t g h e = absurd (ground arith)

stages_left_pos : (s : Stage) → 0 < stages_left s
stages_left_pos Stage.store_flag = omega arith
stages_left_pos Stage.load_bus = omega arith
stages_left_pos Stage.load_provider = omega arith
stages_left_pos (Stage.publish v) = omega arith

Move-left :
    (who : Supervisor) {g h : Flags} {p q : Phase}
    → Move who g p h q
    → g.drain ≡ true
    → steps_left q < steps_left p
Move-left who (Move.enter e) d = absurd (cc)
Move-left who (Move.leave e) d = omega arith
Move-left Supervisor.bus Move.refused d = omega arith
Move-left Supervisor.provider Move.refused d = omega arith
Move-left who Move.connected d = omega arith
Move-left who (Move.work e) d = absurd (cc)
Move-left Supervisor.bus (Move.stop e) d = omega arith
Move-left Supervisor.provider (Move.stop e) d = omega arith
Move-left who (Move.go_on {s} {t} e) d = omega (arith, access-left who _ s t _ _ e)
Move-left who (Move.settle {s} e) d = omega (arith, stages_left_pos s)
Move-left who (Move.end e) d = omega arith
Move-left who (Move.back_off e) d = absurd (cc)
Move-left who Move.wake d = omega arith

access-drain :
    (who : Supervisor) (b : Bool) (s : Stage) (g h : Flags) (o : Option Stage)
    → access who b s g ≡ (h, o)
    → h.drain ≡ g.drain
unfolding access
access-drain Supervisor.bus b Stage.store_flag g h o e = ground arith
access-drain Supervisor.provider b Stage.store_flag g h o e = ground arith
access-drain who b Stage.load_bus g h o e = ground arith
access-drain who b Stage.load_provider g h o e = ground arith
access-drain who b (Stage.publish v) g h o e = ground arith

Move-drain : (who : Supervisor) {g h : Flags} {p q : Phase} → Move who g p h q → h.drain ≡ g.drain
Move-drain who (Move.enter e) = refl
Move-drain who (Move.leave e) = refl
Move-drain who Move.refused = refl
Move-drain who Move.connected = refl
Move-drain who (Move.work e) = refl
Move-drain who (Move.stop e) = refl
Move-drain who (Move.go_on e) = access-drain who _ _ _ _ _ e
Move-drain who (Move.settle e) = access-drain who _ _ _ _ _ e
Move-drain who (Move.end e) = refl
Move-drain who (Move.back_off e) = refl
Move-drain who Move.wake = refl

-- The drain signal is set exactly when the main task has sent it.
abbrev IsSent : System → Type 0
IsSent s = s.main_at ≡ Main.sent → s.flags.drain ≡ true

Step-IsSent : {s t : System} → Step s t → IsSent s → IsSent t
Step-IsSent (Step.bus_moves mv) k e = Move-drain Supervisor.bus mv ∙ k e
Step-IsSent (Step.provider_moves mv) k e = Move-drain Supervisor.provider mv ∙ k e
Step-IsSent (Step.begins b) k e = absurd (cc)
Step-IsSent (Step.sends b) k e = refl

Reach-IsSent : {s : System} → Reach spawned s → IsSent s
Reach-IsSent here e = absurd (cc)
Reach-IsSent (next r st) e = Step-IsSent st (Reach-IsSent r) e

total_left : System → ℕ
total_left s = steps_left s.bus_at + steps_left s.provider_at

Step-left :
    {s t : System}
    → Step s t
    → s.main_at ≡ Main.sent
    → s.flags.drain ≡ true
    → (total_left t < total_left s) × (t.main_at ≡ Main.sent)
unfolding total_left
Step-left (Step.bus_moves mv) m d = (omega (arith, Move-left Supervisor.bus mv d), m)
Step-left (Step.provider_moves mv) m d = (omega (arith, Move-left Supervisor.provider mv d), m)
Step-left (Step.begins b) m d = absurd (cc)
Step-left (Step.sends b) m d = absurd (cc)

-- A supervisor that has not returned can take a step.
can_move :
    (who : Supervisor) (g : Flags) (p : Phase)
    → g.drain ≡ true
    → (p ≡ Phase.returned) ⊎ ((h : Flags) × (q : Phase) × Move who g p h q)
can_move who g Phase.looking d = inr (_, _, Move.leave d)
can_move who g Phase.connecting d = inr (_, _, Move.refused)
can_move Supervisor.bus g Phase.serving d = inr (_, _, Move.stop refl)
can_move Supervisor.provider g Phase.serving d = inr (_, _, Move.stop d)
can_move who g Phase.checking d = inr (_, _, Move.end d)
can_move who g Phase.waiting d = inr (_, _, Move.wake)
can_move who g Phase.returned d = inl refl
can_move who g (Phase.setting b after s) d = elim (Option-cases (access who b s g).1) [
  | inl e ↦ inr ((access who b s g).0, after, Move.settle (λ i. ((access who b s g).0, e i)))
  | inr (t, e) ↦
      inr (
        (access who b s g).0,
        Phase.setting b after t,
        Move.go_on (λ i. ((access who b s g).0, e i)),
      )
]

plain-left : (p : Phase) → is_setting p ≡ false → steps_left p ≤ 11
plain-left Phase.looking e = omega arith
plain-left Phase.connecting e = omega arith
plain-left Phase.serving e = omega arith
plain-left Phase.checking e = omega arith
plain-left Phase.waiting e = omega arith
plain-left Phase.returned e = omega arith
plain-left (Phase.setting b after s) e = absurd (cc)

stages-le : (s : Stage) → stages_left s ≤ 4
stages-le Stage.store_flag = omega arith
stages-le Stage.load_bus = omega arith
stages-le Stage.load_provider = omega arith
stages-le (Stage.publish v) = omega arith

Fits-left : (who : Supervisor) (g : Flags) (p : Phase) → Fits who g p → steps_left p ≤ 15
Fits-left who g Phase.looking f = omega arith
Fits-left who g Phase.connecting f = omega arith
Fits-left who g Phase.serving f = omega arith
Fits-left who g Phase.checking f = omega arith
Fits-left who g Phase.waiting f = omega arith
Fits-left who g Phase.returned f = omega arith
Fits-left who g (Phase.setting b after s) f = omega (arith, plain-left after f.0, stages-le s)

Runs-Reach : {s t : System} {n : ℕ} → Reach spawned s → Runs s n t → Reach spawned t
Runs-Reach r still = r
Runs-Reach r (then rs st) = next (Runs-Reach r rs) st

Runs-left :
    {s t : System} {n : ℕ}
    → Reach spawned s
    → s.main_at ≡ Main.sent
    → Runs s n t
    → (n + total_left t ≤ total_left s) × (t.main_at ≡ Main.sent)
Runs-left r m still = (omega arith, m)
Runs-left r m (then {n} {t} rs st) =
    let before = Runs-left r m rs in
    let after = Step-left st before.1 (Reach-IsSent (Runs-Reach r rs) before.1) in
    (omega (arith, before.0, after.0), after.1)

abbrev pub HasReturned : System → Type 0
HasReturned s =
    (s.bus_at ≡ Phase.returned) × (s.provider_at ≡ Phase.returned) × (s.flags.ready ≡ false)

returned-unready :
    (s : System)
    → Inv s
    → s.bus_at ≡ Phase.returned
    → s.provider_at ≡ Phase.returned
    → s.flags.ready ≡ false
returned-unready s i b p = elim (Bool-cases s.flags.ready) [
  | inl e ↦ elim (i.open_one e) [
    | inl x ↦ absurd (ground (arith, ap is_open b, x))
    | inr x ↦ absurd (ground (arith, ap is_open p, x))
  ]
  | inr e ↦ e
]

-- In a worker whose main task has sent the drain signal, however the tasks interleave: at most
-- thirty more steps are possible, and after any of them either some task can take a step, or both
-- supervisors have returned and `/ready` answers no.
pub drained_returns :
    {s t : System} {n : ℕ}
    → Reach spawned s
    → s.main_at ≡ Main.sent
    → Runs s n t
    → (n ≤ 30) × (HasReturned t ⊎ ((u : System) × Step t u))
unfolding total_left
drained_returns {s} {t} r m rs =
    let start = Reach-Inv r in
    let now = Reach-Inv (Runs-Reach r rs) in
    let left = Runs-left r m rs in
    let drained = Reach-IsSent (Runs-Reach r rs) left.1 in
    (
      omega (
        arith,
        left.0,
        Fits-left Supervisor.bus s.flags s.bus_at start.bus,
        Fits-left Supervisor.provider s.flags s.provider_at start.provider,
      ),
      elim (can_move Supervisor.bus t.flags t.bus_at drained) [
        | inl b ↦ elim (can_move Supervisor.provider t.flags t.provider_at drained) [
          | inl p ↦ inl (b, p, returned-unready t now b p)
          | inr (h, q, mv) ↦ inr (_, Step.provider_moves mv)
        ]
        | inr (h, q, mv) ↦ inr (_, Step.bus_moves mv)
      ],
    )
