-- ===== src/Worker/Settled.antt =====
-- A run that has ended stays as it ended, whatever the worker does next.
use ratatoskr_channel_digest.Prelude.{
  ℕ, String, Bool, true, false, ◌||◌, leb, Option, List, [], ◌∷◌, ◌==◌, ◌≡◌, refl, ap, sym, ◌∙◌,
  arith, contains, update, leb, Bool-cases, inl, inr, All, All-update, All-contains,
  contains-update, contains-update_if,
}
use ratatoskr_channel_digest.Contracts.{External}
use ratatoskr_channel_digest.Schema.{Db, Run, RunState, is_terminal}
use ratatoskr_channel_digest.Storage.{World}
use ratatoskr_channel_digest.Storage.Rules.{Stable}
use ratatoskr_channel_digest.Statements.{update_runs, create_digest_run, insert_run_once, same_run}
use ratatoskr_channel_digest.Coordinator.{fail_with}
use ratatoskr_channel_digest.Reaper.{failure_class, overdue_batch, among, reap_runs}
use ratatoskr_channel_digest.Reaper.Batch.{All-overdue_batch}
use ratatoskr_channel_digest.Worker.{IsLegal, Respects, Operation, perform_all}
use ratatoskr_channel_digest.Worker.Frames
use ratatoskr_channel_digest.Worker.Frames.{Stable-kept, Kept-some, kept_rules}
use ratatoskr_channel_digest.Worker.Preservation.{perform_all_keeps}

abbrev pub with_id : ℕ → Run → Bool
with_id run r = r.run_id == run

abbrev pub Ends : ℕ → RunState → Option String → Run → Type 0
Ends run s c r = with_id run r ≡ true → (r.state ≡ s) × (r.safe_failure_class ≡ c)

-- The run is there and has ended in this state, with this failure class.
abbrev pub IsSettled : ℕ → RunState → Option String → Db → Type 0
IsSettled run s c d =
    (is_terminal s ≡ true) × (contains (with_id run) d.runs ≡ true) × All (Ends run s c) d.runs

contains-same :
    (run : ℕ) (row : Run) (runs : List Run)
    → contains (same_run row) runs ≡ false
    → contains (with_id run) runs ≡ true
    → with_id run row ≡ false
unfolding contains
contains-same run row [] h k = cc
contains-same run row (x ∷ xs) h k = ground (arith, contains-same run row xs)

module _ (run : ℕ) (s : RunState) (c : Option String) where
  insert-IsSettled :
      (row : Run) (d : Db)
      → contains (same_run row) d.runs || leb row.window_end row.window_start ≡ false
      → IsSettled run s c d
      → IsSettled run s c (record d { runs = row ∷ d.runs })
  unfolding contains
  insert-IsSettled row d fresh (over, there, all) =
      let other = contains-same run row d.runs (ground arith) there in
      (over, ground arith, ((λ e. absurd (cc)), all))

  Settled-insert_run_once : (row : ℕ → Run) → Stable (IsSettled run s c) (insert_run_once row)
  unfolding insert_run_once
  Settled-insert_run_once row = Stable-kept _ λ now d k. search (kept_rules, insert-IsSettled)

  Settled-create_digest_run : (row : ℕ → Run) → Stable (IsSettled run s c) (create_digest_run row)
  unfolding create_digest_run
  Settled-create_digest_run row = Stable-kept _ λ now d k. search (kept_rules, insert-IsSettled)

  move-IsSettled :
      (p : Run → Bool) (f : ℕ → Run → Run) (now : ℕ) (d : Db)
      → IsLegal p f
      → IsSettled run s c d
      → IsSettled run s c (record d { runs = update p (f now) d.runs })
  move-IsSettled p f now d legal (over, there, all) = (
    over,
    contains-update_if (with_id run) p (f now) (λ x e. ap (λ i. i == run) (legal now x e).run_id)
          d.runs
        ∙ there,
    All-update (Ends run s c) p (f now)
        (λ x e h i.
          let moves = legal now x e in
          let ends = h (sym (ap (λ j. j == run) moves.run_id) ∙ i) in
          let was : is_terminal x.state ≡ true = ap is_terminal ends.0 ∙ over in
          (moves.settled was ∙ ends.0, moves.class was ∙ ends.1))
        d.runs all,
  )

  Settled-update_runs :
      (p : Run → Bool) (f : ℕ → Run → Run)
      → IsLegal p f
      → Stable (IsSettled run s c) (update_runs p f)
  unfolding update_runs
  Settled-update_runs p f legal =
      Stable-kept _ λ now d k. Kept-some _ _ (move-IsSettled p f now d legal k)

  -- A row that the reaper updates has the identity of an open run.
  spared :
      (now deadline : ℕ) (runs : List Run)
      → is_terminal s ≡ true
      → All (Ends run s c) runs
      → (x : Run) → among (overdue_batch now deadline runs) x ≡ true
      → with_id run x ≡ false
  spared now deadline runs over all x e =
      let open_run =
        All-contains _ _ _ (All-overdue_batch (Ends run s c) now deadline runs all) e in
      let r = open_run.0 in
      elim (Bool-cases (with_id run x)) [
        | inl i ↦
            let same : with_id run r ≡ true = ground (arith, i, open_run.1) in
            let ends = open_run.2.1 same in
            let closed : is_terminal r.state ≡ true = ap is_terminal ends.0 ∙ over in
            absurd (ground (arith, closed, open_run.2.0))
        | inr i ↦ i
      ]

  Settled-reap_runs : (now deadline : ℕ) → Stable (IsSettled run s c) (reap_runs now deadline)
  unfolding reap_runs
  Settled-reap_runs now deadline = Stable-kept _ λ at d k.
      let chosen = overdue_batch now deadline d.runs in
      Kept-some _ _ (
        k.0,
        contains-update (with_id run) (among chosen) (fail_with failure_class at) (λ x. refl) d.runs
            ∙ k.1,
        All-update (Ends run s c) (among chosen) (fail_with failure_class at)
            (λ x e h i.
              let free : with_id run x ≡ false = spared now deadline d.runs k.0 k.2 x e in
              absurd (cc))
            d.runs k.2,
      )

  Settled-Respects : ⦃ext : External⦄ → Respects (IsSettled run s c)
  Settled-Respects ⦃ext⦄ = record {
    report = λ id row. Frames.insert_outbox_once-Stable (λ d o k. k) _;
    recap = λ id m request operation. Frames.insert_outbox-Stable (λ d o k. k) _;
    registration = λ id key owner payload. Frames.upsert_registration-Stable (λ d o k. k) _;
    published = Frames.mark_published-Stable (λ d o k. k);
    refused = Frames.mark_refused-Stable (λ d o k. k);
    inbox = Frames.insert_inbox-Stable (λ d o k. k);
    inbox_completed = Frames.complete_inbox-Stable (λ d o k. k);
    run_created = λ id owner operation t key start end l. Settled-create_digest_run _;
    run_fanned_out = λ id owner operation t key start end l. Settled-insert_run_once _;
    runs_moved = Settled-update_runs;
    runs_reaped = Settled-reap_runs;
    manifest = Frames.insert_manifest-Stable (λ d o k. k);
    messages = Frames.insert_messages-Stable (λ d o k. k);
    result = Frames.insert_result-Stable (λ d o k. k);
    completion = Frames.insert_completion-Stable (λ d o k. k);
    subscription = Frames.set_subscription-Stable (λ d o k. k) (λ d o k. k);
    appended = λ id o published observed. Frames.append_revision-Stable (λ d o k. k) _;
    withdrawn = Frames.withdraw-Stable (λ d o k. k) (λ d o k. k);
    leased = Frames.put_lease-Stable (λ d o k. k);
    bodies_minimized = Frames.minimize_revisions-Stable (λ d o k. k);
    texts_minimized = Frames.minimize_manifests-Stable (λ d o k. k);
  }

  -- A run that is settled in the committed database, in this state and with this failure class, is
  -- still there and still settled so after any sequence of the worker's operations, whichever calls
  -- of the database fail.
  pub perform_all-IsSettled :
      ⦃ext : External⦄ (os : List Operation) (w : World)
      → IsSettled run s c w.committed
      → IsSettled run s c w.working
      → IsSettled run s c (perform_all os w).committed
  perform_all-IsSettled ⦃ext⦄ os w k l = (perform_all_keeps Settled-Respects os w (k, l)).0
