-- ===== src/Runtime/Updates.antt =====
-- One step of a supervisor: what it knows of the flags, and when it leaves `ready` true.
use ratatoskr_channel_digest.Prelude.{
  Bool, true, false, Option, none, some, ◌≡◌, refl, ◌⊎◌, inl, inr, ◌∙◌, arith,
}
use ratatoskr_channel_digest.Runtime.{Flags, Supervisor, own, Stage, access}
use ratatoskr_channel_digest.Runtime.Supervision.{Phase, Move}

-- The supervisor is connected, or on its way out or in.
abbrev pub is_open : Phase → Bool
is_open Phase.serving = true
is_open (Phase.setting b after s) = true
is_open p = false

abbrev pub is_setting : Phase → Bool
is_setting (Phase.setting b after s) = true
is_setting p = false

-- What a stage of an update knows: its own flag is stored, and with a false one it publishes false.
abbrev pub StageFits : Supervisor → Flags → Bool → Stage → Type 0
StageFits who g b Stage.store_flag = Unit
StageFits who g b Stage.load_bus = own who g ≡ b
StageFits Supervisor.bus g b Stage.load_provider = (g.bus ≡ true) × (b ≡ true)
StageFits Supervisor.provider g b Stage.load_provider = g.provider ≡ b
StageFits who g b (Stage.publish v) = b ≡ false → v ≡ false

abbrev pub Fits : Supervisor → Flags → Phase → Type 0
Fits who g (Phase.setting b after s) =
    (is_setting after ≡ false) × (is_open after ≡ b) × StageFits who g b s
Fits who g p = Unit

-- The update has read that both flags are up, or will find so.
abbrev pub is_hopeful : Supervisor → Phase → Bool
is_hopeful who (Phase.setting b after (Stage.publish v)) = v
is_hopeful Supervisor.provider (Phase.setting b after Stage.load_provider) = b
is_hopeful who p = false

-- The other supervisor does not write this one's flag.
pub Fits-frame :
    (who : Supervisor) (g h : Flags) (p : Phase)
    → own who h ≡ own who g
    → Fits who g p
    → Fits who h p
Fits-frame who g h Phase.looking e f = tt
Fits-frame who g h Phase.connecting e f = tt
Fits-frame who g h Phase.serving e f = tt
Fits-frame who g h Phase.checking e f = tt
Fits-frame who g h Phase.waiting e f = tt
Fits-frame who g h Phase.returned e f = tt
Fits-frame who g h (Phase.setting b after Stage.store_flag) e f = f
Fits-frame who g h (Phase.setting b after Stage.load_bus) e f = (f.0, f.1, e ∙ f.2)
Fits-frame Supervisor.bus g h (Phase.setting b after Stage.load_provider) e f =
    (f.0, f.1, (e ∙ f.2.0, f.2.1))
Fits-frame Supervisor.provider g h (Phase.setting b after Stage.load_provider) e f =
    (f.0, f.1, e ∙ f.2)
Fits-frame who g h (Phase.setting b after (Stage.publish v)) e f = f

abbrev pub other : Supervisor → Supervisor
other Supervisor.bus = Supervisor.provider
other Supervisor.provider = Supervisor.bus

access-frame :
    (who : Supervisor) (b : Bool) (s : Stage) (g h : Flags) (o : Option Stage)
    → access who b s g ≡ (h, o)
    → own (other who) h ≡ own (other who) g
unfolding access
access-frame Supervisor.bus b Stage.store_flag g h o e = ground arith
access-frame Supervisor.provider b Stage.store_flag g h o e = ground arith
access-frame who b Stage.load_bus g h o e = ground arith
access-frame who b Stage.load_provider g h o e = ground arith
access-frame Supervisor.bus b (Stage.publish v) g h o e = ground arith
access-frame Supervisor.provider b (Stage.publish v) g h o e = ground arith

pub Move-frame :
    (who : Supervisor) {g h : Flags} {p q : Phase}
    → Move who g p h q
    → own (other who) h ≡ own (other who) g
Move-frame who (Move.enter e) = refl
Move-frame who (Move.leave e) = refl
Move-frame who Move.refused = refl
Move-frame who Move.connected = refl
Move-frame who (Move.work e) = refl
Move-frame who (Move.stop e) = refl
Move-frame who (Move.go_on e) = access-frame who _ _ _ _ _ e
Move-frame who (Move.settle e) = access-frame who _ _ _ _ _ e
Move-frame who (Move.end e) = refl
Move-frame who (Move.back_off e) = refl
Move-frame who Move.wake = refl

-- A step of one supervisor, where `W` is any record of a moment at which both flags were up.
module _ (W : Type 0) where
  abbrev pub Kept : Supervisor → Flags → Phase → Type 0
  Kept who g p = Fits who g p × (is_hopeful who p ≡ true → W) × (g.ready ≡ true → W)

  go_on-Kept :
      (who : Supervisor) (g h : Flags) (b : Bool) (after : Phase) (s t : Stage)
      → access who b s g ≡ (h, some t)
      → (g.bus ≡ true → g.provider ≡ true → W)
      → Kept who g (Phase.setting b after s)
      → Kept who h (Phase.setting b after t)
  unfolding access
  go_on-Kept Supervisor.bus g h b after Stage.store_flag t e now k = ground (arith, k.2)
  go_on-Kept Supervisor.bus g h b after Stage.load_bus t e now k = ground (arith, k.2)
  go_on-Kept Supervisor.bus g h b after Stage.load_provider t e now k = ground (arith, k.2)
  go_on-Kept Supervisor.provider g h b after Stage.store_flag t e now k = ground (arith, k.2)
  go_on-Kept Supervisor.provider g h b after Stage.load_bus t e now k = ground (arith, k.2)
  go_on-Kept Supervisor.provider g h b after Stage.load_provider t e now k = ground (arith, k.2)
  go_on-Kept who g h b after (Stage.publish v) t e now k = ground arith

  plain-Kept :
      (who : Supervisor) (h : Flags) (p : Phase)
      → is_setting p ≡ false
      → (h.ready ≡ true → W)
      → Kept who h p
  plain-Kept who h Phase.looking e r = (tt, (λ x. absurd (cc)), r)
  plain-Kept who h Phase.connecting e r = (tt, (λ x. absurd (cc)), r)
  plain-Kept who h Phase.serving e r = (tt, (λ x. absurd (cc)), r)
  plain-Kept who h Phase.checking e r = (tt, (λ x. absurd (cc)), r)
  plain-Kept who h Phase.waiting e r = (tt, (λ x. absurd (cc)), r)
  plain-Kept who h Phase.returned e r = (tt, (λ x. absurd (cc)), r)
  plain-Kept who h (Phase.setting b after s) e r = absurd (cc)

  settle-Kept :
      (who : Supervisor) (g h : Flags) (b : Bool) (after : Phase) (s : Stage)
      → access who b s g ≡ (h, none)
      → Kept who g (Phase.setting b after s)
      → Kept who h after
  unfolding access
  settle-Kept who g h b after Stage.store_flag e k = absurd (ground arith)
  settle-Kept who g h b after Stage.load_bus e k = absurd (ground arith)
  settle-Kept who g h b after Stage.load_provider e k = absurd (ground arith)
  settle-Kept who g h b after (Stage.publish v) e k =
      plain-Kept who h after k.0.0 (ground (arith, k.1))

  pub Move-Kept :
      (who : Supervisor) {g h : Flags} {p q : Phase}
      → Move who g p h q
      → (g.bus ≡ true → g.provider ≡ true → W)
      → Kept who g p
      → Kept who h q
  Move-Kept who (Move.enter e) now k = (tt, (λ x. absurd (cc)), k.2)
  Move-Kept who (Move.leave e) now k = (tt, (λ x. absurd (cc)), k.2)
  Move-Kept Supervisor.bus Move.refused now k = ((refl, refl, tt), (λ x. absurd (cc)), k.2)
  Move-Kept Supervisor.provider Move.refused now k = ((refl, refl, tt), (λ x. absurd (cc)), k.2)
  Move-Kept who Move.connected now k = ((refl, refl, tt), (λ x. absurd (cc)), k.2)
  Move-Kept who (Move.work e) now k = k
  Move-Kept Supervisor.bus (Move.stop e) now k = ((refl, refl, tt), (λ x. absurd (cc)), k.2)
  Move-Kept Supervisor.provider (Move.stop e) now k = ((refl, refl, tt), (λ x. absurd (cc)), k.2)
  Move-Kept who (Move.go_on e) now k = go_on-Kept _ _ _ _ _ _ _ e now k
  Move-Kept who (Move.settle e) now k = settle-Kept _ _ _ _ _ _ e k
  Move-Kept who (Move.end e) now k = (tt, (λ x. absurd (cc)), k.2)
  Move-Kept who (Move.back_off e) now k = (tt, (λ x. absurd (cc)), k.2)
  Move-Kept who Move.wake now k = (tt, (λ x. absurd (cc)), k.2)

settle-open :
    (who : Supervisor) (g h : Flags) (b : Bool) (after : Phase) (s : Stage)
    → access who b s g ≡ (h, none)
    → Fits who g (Phase.setting b after s)
    → h.ready ≡ true
    → is_open after ≡ true
unfolding access
settle-open who g h b after Stage.store_flag e f r = absurd (ground arith)
settle-open who g h b after Stage.load_bus e f r = absurd (ground arith)
settle-open who g h b after Stage.load_provider e f r = absurd (ground arith)
settle-open who g h true after (Stage.publish v) e f r = f.1
settle-open who g h false after (Stage.publish v) e f r =
    let down : v ≡ false = f.2 refl in absurd (ground arith)

-- A step of one supervisor leaves `ready` false unless it stays open, or was not open before.
pub Move-open :
    (who : Supervisor) {g h : Flags} {p q : Phase}
    → Move who g p h q
    → Fits who g p
    → h.ready ≡ true
    → (is_open q ≡ true) ⊎ ((g.ready ≡ true) × (is_open p ≡ false))
unfolding access
Move-open who (Move.enter e) f r = inr (r, refl)
Move-open who (Move.leave e) f r = inr (r, refl)
Move-open who Move.refused f r = inl refl
Move-open who Move.connected f r = inl refl
Move-open who (Move.work e) f r = inl refl
Move-open who (Move.stop e) f r = inl refl
Move-open who (Move.go_on e) f r = inl refl
Move-open who (Move.settle e) f r = inl (settle-open who _ _ _ _ _ e f r)
Move-open who (Move.end e) f r = inr (r, refl)
Move-open who (Move.back_off e) f r = inr (r, refl)
Move-open who Move.wake f r = inr (r, refl)
