-- ===== src/Worker/Privacy.antt =====
-- The text of a post: a revision without a text says when it lost it, a withdrawn revision has none,
-- and a text that was dropped never comes back, whatever the worker does next.
use ratatoskr_channel_digest.Prelude.{
  ℕ, Bool, true, false, not, ◌&&◌, Option, none, some, List, [], ◌∷◌, is_some, ◌==◌, ◌≡◌, refl, ◌∙◌,
  arith, contains, update, All, All-update, contains-update, contains-later,
}
use ratatoskr_channel_digest.Contracts.{External}
use ratatoskr_channel_digest.Schema.{Db, Revision}
use ratatoskr_channel_digest.Storage.{World}
use ratatoskr_channel_digest.Storage.Rules.{Stable}
use ratatoskr_channel_digest.Revisions.{
  ObservedRevision, append_revision, revision_row, withdraw, withdraws, withdrawn, or_now,
}
use ratatoskr_channel_digest.Maintenance.{
  minimize_revisions, expired_revisions, among_revisions, without_body,
}
use ratatoskr_channel_digest.Worker.{Respects, Operation, perform_all}
use ratatoskr_channel_digest.Worker.Frames
use ratatoskr_channel_digest.Worker.Frames.{Stable-kept, Kept-some, kept_rules}
use ratatoskr_channel_digest.Worker.Preservation.{perform_all_keeps}

-- What an invariant of the revisions needs: the three statements that write them keep it, and the
-- table of each other statement does not matter.
pub record Guards ⦃ext : External⦄ (J : List Revision → Type 0) : Type 0 where
  pub appended :
      (id : ℕ) (o : ObservedRevision) (published observed : ℕ) (rs : List Revision)
      → contains (λ (r : Revision). r.revision_id == id) rs ≡ false
      → J rs
      → J (revision_row id o published observed ∷ rs)
  pub withdrawn_from :
      (channel : ℕ) (gone : ℕ → Bool) (now : ℕ) (rs : List Revision)
      → J rs
      → J (update (withdraws channel gone) (withdrawn now) rs)
  pub minimized_in :
      (chosen : List Revision) (now : ℕ) (rs : List Revision)
      → J rs
      → J (update (among_revisions chosen) (without_body now) rs)

abbrev pub Holds : (List Revision → Type 0) → Db → Type 0
Holds J d = J d.revisions

module _ ⦃ext : External⦄ {J : List Revision → Type 0} (g : Guards J) where
  append_revision-Stable :
      (id : ℕ) (o : ObservedRevision) (published observed : ℕ)
      → Stable (Holds J) (append_revision (revision_row id o published observed))
  unfolding append_revision
  append_revision-Stable id o published observed =
      Stable-kept _ λ now d k. search (kept_rules, g.appended)

  withdraw-Stable : (channel : ℕ) (gone : ℕ → Bool) → Stable (Holds J) (withdraw channel gone)
  unfolding withdraw
  withdraw-Stable channel gone =
      Stable-kept _ λ now d k. Kept-some _ _ (g.withdrawn_from channel gone now d.revisions k)

  minimize_revisions-Stable :
      (before limit : ℕ) → Stable (Holds J) (minimize_revisions before limit)
  unfolding minimize_revisions
  minimize_revisions-Stable before limit = Stable-kept _ λ now d k.
      Kept-some _ _ (g.minimized_in (expired_revisions before limit d.revisions) now d.revisions k)

  Guards-Respects : Respects (Holds J)
  Guards-Respects = record {
    report = λ id row. Frames.insert_outbox_once-Stable (λ d o k. k) _;
    recap = λ id m request operation. Frames.insert_outbox-Stable (λ d o k. k) _;
    registration = λ id key owner payload. Frames.upsert_registration-Stable (λ d o k. k) _;
    published = Frames.mark_published-Stable (λ d o k. k);
    refused = Frames.mark_refused-Stable (λ d o k. k);
    inbox = Frames.insert_inbox-Stable (λ d o k. k);
    inbox_completed = Frames.complete_inbox-Stable (λ d o k. k);
    run_created =
        λ id owner operation t key start end l. Frames.create_digest_run-Stable (λ d o k. k) _;
    run_fanned_out =
        λ id owner operation t key start end l. Frames.insert_run_once-Stable (λ d o k. k) _;
    runs_moved = λ p f legal. Frames.update_runs-Stable (λ d o k. k) p f;
    runs_reaped = Frames.reap_runs-Stable (λ d o k. k);
    manifest = Frames.insert_manifest-Stable (λ d o k. k);
    messages = Frames.insert_messages-Stable (λ d o k. k);
    result = Frames.insert_result-Stable (λ d o k. k);
    completion = Frames.insert_completion-Stable (λ d o k. k);
    subscription = Frames.set_subscription-Stable (λ d o k. k) (λ d o k. k);
    appended = append_revision-Stable;
    withdrawn = withdraw-Stable;
    leased = Frames.put_lease-Stable (λ d o k. k);
    bodies_minimized = minimize_revisions-Stable;
    texts_minimized = Frames.minimize_manifests-Stable (λ d o k. k);
  }

-- The text is there exactly when no time is recorded at which it was dropped, and a withdrawn
-- revision has none.
abbrev pub IsPrivate : Revision → Type 0
IsPrivate r =
    (is_some r.minimized_at ≡ not (is_some r.body))
    × (is_some r.body && is_some r.deleted_at ≡ false)

or_now-some : (now : ℕ) (o : Option ℕ) → is_some (or_now now o) ≡ true
or_now-some now none = refl
or_now-some now (some at) = refl

Private-Guards : ⦃ext : External⦄ → Guards (All IsPrivate)
Private-Guards ⦃ext⦄ = record {
  appended = λ id o published observed rs h k. ((refl, refl), k);
  withdrawn_from = λ channel gone now rs k.
      All-update IsPrivate (withdraws channel gone) (withdrawn now)
        (λ r e p. (or_now-some now r.minimized_at, refl)) rs k;
  minimized_in = λ chosen now rs k.
      All-update IsPrivate (among_revisions chosen) (without_body now) (λ r e p. (refl, refl)) rs k;
}

abbrev pub AllPrivate : Db → Type 0
AllPrivate d = All IsPrivate d.revisions

-- If in the committed database and in the working copy a revision has a text exactly when no time is
-- recorded at which it was dropped, and no withdrawn revision has one, the same holds of the committed
-- database after any sequence of the worker's operations, whichever calls of the database fail.
pub perform_all-IsPrivate :
    ⦃ext : External⦄ (os : List Operation) (w : World)
    → AllPrivate w.committed
    → AllPrivate w.working
    → AllPrivate (perform_all os w).committed
perform_all-IsPrivate ⦃ext⦄ os w k l =
    (perform_all_keeps (Guards-Respects Private-Guards) os w (k, l)).0

abbrev pub with_revision : ℕ → Revision → Bool
with_revision id r = r.revision_id == id

abbrev pub HasNoText : ℕ → Revision → Type 0
HasNoText id r = is_some r.body && with_revision id r ≡ false

-- The revision is there, and without a text.
abbrev pub IsForgotten : ℕ → List Revision → Type 0
IsForgotten id rs = (contains (with_revision id) rs ≡ true) × All (HasNoText id) rs

module _ (id : ℕ) where
  absent :
      (other : ℕ) (rs : List Revision)
      → contains (λ (r : Revision). r.revision_id == other) rs ≡ false
      → contains (with_revision id) rs ≡ true
      → (other == id) ≡ false
  unfolding contains
  absent other [] h k = cc
  absent other (r ∷ rs) h k = ground (arith, absent other rs)

  Forgotten-Guards : ⦃ext : External⦄ → Guards (IsForgotten id)
  Forgotten-Guards ⦃ext⦄ = record {
    appended = λ new o published observed rs h k.
        let other : (new == id) ≡ false = absent new rs h k.0 in
        (
          contains-later (with_revision id) (revision_row new o published observed) rs k.0,
          (other, k.1),
        );
    withdrawn_from = λ channel gone now rs k. (
      contains-update (with_revision id) (withdraws channel gone) (withdrawn now) (λ r. refl) rs
          ∙ k.0,
      All-update (HasNoText id) (withdraws channel gone) (withdrawn now) (λ r e p. refl) rs k.1,
    );
    minimized_in = λ chosen now rs k. (
      contains-update (with_revision id) (among_revisions chosen) (without_body now) (λ r. refl) rs
          ∙ k.0,
      All-update (HasNoText id) (among_revisions chosen) (without_body now) (λ r e p. refl) rs k.1,
    );
  }

  -- A revision that stands in the committed database without a text is still there, and still without
  -- one, after any sequence of the worker's operations, whichever calls of the database fail: the
  -- same post seen again does not bring its text back.
  pub perform_all-IsForgotten :
      ⦃ext : External⦄ (os : List Operation) (w : World)
      → IsForgotten id w.committed.revisions
      → IsForgotten id w.working.revisions
      → IsForgotten id (perform_all os w).committed.revisions
  perform_all-IsForgotten ⦃ext⦄ os w k l =
      (perform_all_keeps (Guards-Respects Forgotten-Guards) os w (k, l)).0
