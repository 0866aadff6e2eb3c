-- ===== src/Runtime/Ready.antt =====
-- When the worker may answer that it is ready, however its tasks interleave.
use ratatoskr_channel_digest.Prelude.{true, ◌≡◌, refl, ◌⊎◌, inl, inr, arith}
use ratatoskr_channel_digest.Runtime.{Supervisor, begin_drain, send_drain}
use ratatoskr_channel_digest.Runtime.Supervision.{System, spawned, Step, Reach, here, next}
use ratatoskr_channel_digest.Runtime.Updates.{
  is_open, Fits, is_hopeful, Fits-frame, Move-frame, Move-Kept, Move-open,
}

-- At some moment before, both flags were up.
abbrev pub WasUp : System → Type 0
WasUp s =
    (t : System) × Reach spawned t × Reach t s × (t.flags.bus ≡ true) × (t.flags.provider ≡ true)

pub record Inv (s : System) : Type 0 where
  pub reach : Reach spawned s
  pub bus : Fits Supervisor.bus s.flags s.bus_at
  pub provider : Fits Supervisor.provider s.flags s.provider_at
  pub bus_hope : is_hopeful Supervisor.bus s.bus_at ≡ true → WasUp s
  pub provider_hope : is_hopeful Supervisor.provider s.provider_at ≡ true → WasUp s
  pub ready : s.flags.ready ≡ true → WasUp s
  pub open_one : s.flags.ready ≡ true → (is_open s.bus_at ≡ true) ⊎ (is_open s.provider_at ≡ true)

WasUp-next : {s t : System} → Step s t → WasUp s → WasUp t
WasUp-next st (u, r, q, e, f) = (u, r, next q st, e, f)

Step-Inv : {s t : System} → Step s t → Inv s → Inv t
Step-Inv {s} (Step.bus_moves {g} {p} mv) i =
    let t : System = record s { flags = g; bus_at = p } in
    let carry : WasUp s → WasUp t = WasUp-next (Step.bus_moves mv) in
    let kept =
      Move-Kept (WasUp t) Supervisor.bus mv
        (λ b c. (s, i.reach, next here (Step.bus_moves mv), b, c))
        (i.bus, (λ e. carry (i.bus_hope e)), λ e. carry (i.ready e)) in
    record {
      reach = next i.reach (Step.bus_moves mv);
      bus = kept.0;
      provider =
          Fits-frame Supervisor.provider s.flags g s.provider_at (Move-frame Supervisor.bus mv)
            i.provider;
      bus_hope = kept.1;
      provider_hope = λ e. carry (i.provider_hope e);
      ready = kept.2;
      open_one = λ e. elim (Move-open Supervisor.bus mv i.bus e) [
        | inl x ↦ inl x
        | inr x ↦ elim (i.open_one x.0) [ inl y ↦ absurd (ground (arith, x.1, y)) | inr y ↦ inr y ]
      ];
    }
Step-Inv {s} (Step.provider_moves {g} {p} mv) i =
    let t : System = record s { flags = g; provider_at = p } in
    let carry : WasUp s → WasUp t = WasUp-next (Step.provider_moves mv) in
    let kept =
      Move-Kept (WasUp t) Supervisor.provider mv
        (λ b c. (s, i.reach, next here (Step.provider_moves mv), b, c))
        (i.provider, (λ e. carry (i.provider_hope e)), λ e. carry (i.ready e)) in
    record {
      reach = next i.reach (Step.provider_moves mv);
      bus = Fits-frame Supervisor.bus s.flags g s.bus_at (Move-frame Supervisor.provider mv) i.bus;
      provider = kept.0;
      bus_hope = λ e. carry (i.bus_hope e);
      provider_hope = kept.1;
      ready = kept.2;
      open_one = λ e. elim (Move-open Supervisor.provider mv i.provider e) [
        | inl x ↦ inr x
        | inr x ↦ elim (i.open_one x.0) [ inl y ↦ inl y | inr y ↦ absurd (ground (arith, x.1, y)) ]
      ];
    }
Step-Inv {s} (Step.begins e) i =
    let carry = WasUp-next (Step.begins e) in
    record {
      reach = next i.reach (Step.begins e);
      bus = Fits-frame Supervisor.bus s.flags (begin_drain s.flags) s.bus_at refl i.bus;
      provider =
          Fits-frame Supervisor.provider s.flags (begin_drain s.flags) s.provider_at refl
            i.provider;
      bus_hope = λ h. carry (i.bus_hope h);
      provider_hope = λ h. carry (i.provider_hope h);
      ready = λ h. absurd (cc);
      open_one = λ h. absurd (cc);
    }
Step-Inv {s} (Step.sends e) i =
    let carry = WasUp-next (Step.sends e) in
    record {
      reach = next i.reach (Step.sends e);
      bus = Fits-frame Supervisor.bus s.flags (send_drain s.flags) s.bus_at refl i.bus;
      provider =
          Fits-frame Supervisor.provider s.flags (send_drain s.flags) s.provider_at refl i.provider;
      bus_hope = λ h. carry (i.bus_hope h);
      provider_hope = λ h. carry (i.provider_hope h);
      ready = λ h. carry (i.ready h);
      open_one = i.open_one;
    }

spawned-Inv : Inv spawned
spawned-Inv = record {
  reach = here;
  bus = tt;
  provider = tt;
  bus_hope = λ e. absurd (cc);
  provider_hope = λ e. absurd (cc);
  ready = λ e. absurd (cc);
  open_one = λ e. absurd (cc);
}

pub Reach-Inv : {s : System} → Reach spawned s → Inv s
Reach-Inv here = spawned-Inv
Reach-Inv (next r st) = Step-Inv st (Reach-Inv r)

-- However the tasks of a worker interleave from their spawn on: where `/ready` would answer yes, there
-- was a moment before at which the bus and the provider were up both at once, and one of the two
-- supervisors is connected still or at an update of its flag.
pub ready-WasUp :
    (s : System)
    → Reach spawned s
    → s.flags.ready ≡ true
    → WasUp s × ((is_open s.bus_at ≡ true) ⊎ (is_open s.provider_at ≡ true))
ready-WasUp s r e = let i = Reach-Inv r in (i.ready e, i.open_one e)
