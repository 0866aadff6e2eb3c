-- ===== src/Worker/Frames.antt =====
-- A statement keeps every invariant that does not look at the tables it writes.
use ratatoskr_channel_digest.Prelude.{
  ℕ, String, Bool, true, false, not, ◌&&◌, Option, none, some, List, if◌then◌else◌, maybe, ◌≡◌,
  refl, arith, subst,
}
use ratatoskr_channel_digest.Contracts.{RecapCompleted}
use ratatoskr_channel_digest.Schema.{
  Db, Run, RunState, Revision, Lease, Manifest, ManifestMessage, DigestResult, Inbox, Outbox,
  Subscription, Channel,
}
use ratatoskr_channel_digest.Storage.Rules.{Stable}
use ratatoskr_channel_digest.Statements.{
  insert_outbox, insert_outbox_once, insert_inbox, complete_inbox, update_runs, create_digest_run,
  insert_run_once, insert_manifest, insert_messages, insert_result, set_subscription,
  ensure_channel, set_in_channel, change_subscription, add_subscription, or_limit, limit_reached,
}
use ratatoskr_channel_digest.Coordinator.Settlement.{insert_completion, result_row}
use ratatoskr_channel_digest.Reaper.{reap_runs}
use ratatoskr_channel_digest.Registration.{upsert_registration}
use ratatoskr_channel_digest.Bus.Outbox.{mark_published, mark_refused}
use ratatoskr_channel_digest.Revisions.{append_revision, withdraw}
use ratatoskr_channel_digest.Acquisition.{put_lease}
use ratatoskr_channel_digest.Maintenance.{minimize_revisions, minimize_manifests}

-- What a statement answers has an invariant, if it answers.
pub record Kept {A : Type 0} (I : Db → Type 0) (o : Option (A × Db)) : Type 0 where
  pub at : (a : A) (d : Db) → ◌≡◌ {A = Option (A × Db)} o (some (a, d)) → I d

module _ {A : Type 0} {I : Db → Type 0} where
  pub Kept-none : Kept {A = A} I none
  Kept-none = record { at = λ a d e. absurd (cc) }

  pub Kept-some : (a : A) (d : Db) → I d → Kept I (some (a, d))
  Kept-some a d k = record { at = λ b d' e. let same : d ≡ d' = ground arith in subst I same k }

  pub Kept-if :
      (b : Bool) (m n : Option (A × Db))
      → (b ≡ true → Kept I m)
      → (b ≡ false → Kept I n)
      → Kept I (if b then m else n)
  Kept-if true m n km kn = km refl
  Kept-if false m n km kn = kn refl

  pub Kept-maybe :
      {B : Type 0} (o : Option B) (m : Option (A × Db)) (f : B → Option (A × Db))
      → (o ≡ none → Kept I m)
      → ((b : B) → o ≡ some b → Kept I (f b))
      → Kept I (maybe o m f)
  unfolding maybe
  Kept-maybe none m f km kf = km refl
  Kept-maybe (some b) m f km kf = kf b refl

  pub Stable-kept :
      (s : ℕ → Db → Option (A × Db)) → ((now : ℕ) (d : Db) → I d → Kept I (s now d)) → Stable I s
  Stable-kept s kept = record { at = λ now d a d' k e. (kept now d k).at a d' e }

-- A test that raises P0001 lets the new database through otherwise.
pub passed : (b : Bool) (c d : Db) → (if b then none else some c) ≡ some d → c ≡ d
passed true c d e = absurd (cc)
passed false c d e = ground arith

pub Kept-or_limit :
    (I : Db → Type 0) (before : Db) (after : Option Db)
    → I before
    → ((d : Db) → after ≡ some d → I d)
    → Kept I (or_limit before after)
unfolding maybe
Kept-or_limit I before none b k = Kept-some false before b
Kept-or_limit I before (some d) b k = Kept-some true d (k d refl)

pub ruleset kept_rules = (Kept-none, Kept-some, Kept-if, Kept-maybe)

module _ {I : Db → Type 0}
    (free : (d : Db) (o : List Outbox) → I d → I (record d { outbox = o })) where
  pub insert_outbox-Stable : (row : ℕ → Outbox) → Stable I (insert_outbox row)
  unfolding insert_outbox
  insert_outbox-Stable row = Stable-kept _ λ now d k. search (kept_rules, free)

  pub insert_outbox_once-Stable : (row : ℕ → Outbox) → Stable I (insert_outbox_once row)
  unfolding insert_outbox_once
  insert_outbox_once-Stable row = Stable-kept _ λ now d k. search (kept_rules, free)

  pub upsert_registration-Stable : (row : ℕ → Outbox) → Stable I (upsert_registration row)
  unfolding upsert_registration
  upsert_registration-Stable row = Stable-kept _ λ now d k. search (kept_rules, free)

  pub mark_published-Stable : (id : ℕ) → Stable I (mark_published id)
  unfolding mark_published
  mark_published-Stable id = Stable-kept _ λ now d k. search (kept_rules, free)

  pub mark_refused-Stable : (id : ℕ) → Stable I (mark_refused id)
  unfolding mark_refused
  mark_refused-Stable id = Stable-kept _ λ now d k. search (kept_rules, free)

module _ {I : Db → Type 0}
    (free : (d : Db) (m : List Inbox) → I d → I (record d { inbox = m })) where
  pub insert_inbox-Stable : (row : ℕ → Inbox) → Stable I (insert_inbox row)
  unfolding insert_inbox
  insert_inbox-Stable row = Stable-kept _ λ now d k. search (kept_rules, free)

  pub complete_inbox-Stable : (id : ℕ) → Stable I (complete_inbox id)
  unfolding complete_inbox
  complete_inbox-Stable id = Stable-kept _ λ now d k. search (kept_rules, free)

module _ {I : Db → Type 0}
    (free : (d : Db) (rs : List Run) → I d → I (record d { runs = rs })) where
  pub create_digest_run-Stable : (row : ℕ → Run) → Stable I (create_digest_run row)
  unfolding create_digest_run
  create_digest_run-Stable row = Stable-kept _ λ now d k. search (kept_rules, free)

  pub insert_run_once-Stable : (row : ℕ → Run) → Stable I (insert_run_once row)
  unfolding insert_run_once
  insert_run_once-Stable row = Stable-kept _ λ now d k. search (kept_rules, free)

  pub update_runs-Stable : (p : Run → Bool) (f : ℕ → Run → Run) → Stable I (update_runs p f)
  unfolding update_runs
  update_runs-Stable p f = Stable-kept _ λ now d k. search (kept_rules, free)

  pub reap_runs-Stable : (now deadline : ℕ) → Stable I (reap_runs now deadline)
  unfolding reap_runs
  reap_runs-Stable now deadline = Stable-kept _ λ at d k. search (kept_rules, free)

module _ {I : Db → Type 0}
    (free : (d : Db) (ms : List Manifest) → I d → I (record d { manifests = ms })) where
  pub insert_manifest-Stable : (row : Manifest) → Stable I (insert_manifest row)
  unfolding insert_manifest
  insert_manifest-Stable row = Stable-kept _ λ now d k. search (kept_rules, free)

  pub minimize_manifests-Stable : (before limit : ℕ) → Stable I (minimize_manifests before limit)
  unfolding minimize_manifests
  minimize_manifests-Stable before limit = Stable-kept _ λ now d k. Kept-some _ _ (free d _ k)

module _ {I : Db → Type 0}
    (free : (d : Db) (rs : List Revision) → I d → I (record d { revisions = rs })) where
  pub append_revision-Stable : (row : Revision) → Stable I (append_revision row)
  unfolding append_revision
  append_revision-Stable row = Stable-kept _ λ now d k. search (kept_rules, free)

  pub minimize_revisions-Stable : (before limit : ℕ) → Stable I (minimize_revisions before limit)
  unfolding minimize_revisions
  minimize_revisions-Stable before limit = Stable-kept _ λ now d k. Kept-some _ _ (free d _ k)

  pub withdraw-Stable :
      ((d : Db) (ms : List Manifest) → I d → I (record d { manifests = ms }))
      → (channel : ℕ) (gone : ℕ → Bool) → Stable I (withdraw channel gone)
  unfolding withdraw
  withdraw-Stable free' channel gone =
      Stable-kept _ λ now d k. Kept-some _ _ (free' _ _ (free d _ k))

module _ {I : Db → Type 0}
    (free : (d : Db) (ls : List Lease) → I d → I (record d { leases = ls })) where
  pub put_lease-Stable : (row : ℕ → Lease) → Stable I (put_lease row)
  unfolding put_lease
  put_lease-Stable row = Stable-kept _ λ now d k. Kept-some _ _ (free d _ k)

module _ {I : Db → Type 0}
    (free : (d : Db) (ms : List ManifestMessage) → I d → I (record d { messages = ms })) where
  pub insert_messages-Stable : (held : List ManifestMessage) → Stable I (insert_messages held)
  unfolding insert_messages
  insert_messages-Stable held = Stable-kept _ λ now d k. search (kept_rules, free)

module _ {I : Db → Type 0}
    (free : (d : Db) (rs : List DigestResult) → I d → I (record d { results = rs })) where
  pub insert_result-Stable : (row : ℕ → DigestResult) → Stable I (insert_result row)
  unfolding insert_result
  insert_result-Stable row = Stable-kept _ λ now d k. search (kept_rules, free)

  pub insert_completion-Stable :
      (fact : RecapCompleted) (analysis : ℕ) (outcome : RunState)
      → Stable I (insert_completion fact analysis outcome)
  unfolding insert_completion
  insert_completion-Stable fact analysis outcome = Stable-kept _ λ now d k.
      Kept-maybe _ _ _ (λ _. Kept-some 0 d k)
        λ rm _.
          Kept-maybe (insert_result (result_row fact analysis outcome rm.1.manifest_id) now d) _ _
            (λ _. Kept-none)
            λ after e. Kept-some 1 after.1 (
              (insert_result-Stable (result_row fact analysis outcome rm.1.manifest_id)).at now d
                after.0 after.1 k e)

module _ {I : Db → Type 0}
    (free : (d : Db) (cs : List Channel) → I d → I (record d { channels = cs }))
    (free' : (d : Db) (ss : List Subscription) → I d → I (record d { subscriptions = ss })) where
  ensure_channel_keeps :
      (id : ℕ) (username : String) (d : Db) → I d → Kept I (ensure_channel id username d)
  unfolding ensure_channel
  ensure_channel_keeps id username d k = search (kept_rules, free)

  add_keeps : (s : Subscription) (d d' : Db) → I d → add_subscription s d ≡ some d' → I d'
  unfolding add_subscription
  add_keeps s d d' k e =
      subst I (passed (s.enabled && limit_reached s.owner_id d) _ d' e) (free' d _ k)

  change_keeps :
      (s : Subscription) (enabled : Bool) (at : ℕ) (d d' : Db)
      → I d
      → change_subscription s enabled at d ≡ some d'
      → I d'
  unfolding change_subscription
  change_keeps s enabled at d d' k e =
      subst I (passed (enabled && not s.enabled && limit_reached s.owner_id d) _ d' e) (free' d _ k)

  set_in_channel_keeps :
      (id owner : ℕ) (enabled : Bool) (at : ℕ) (before : Db) (found : ℕ × Db)
      → I before
      → I (found.1)
      → Kept I (set_in_channel id owner enabled at before found)
  unfolding set_in_channel
  set_in_channel_keeps id owner enabled at before (channel, d) b k =
      search (kept_rules, Kept-or_limit, add_keeps, change_keeps)

  pub set_subscription-Stable :
      (id channel owner : ℕ) (username : String) (enabled : Bool)
      → Stable I (set_subscription id channel owner username enabled)
  unfolding set_subscription
  set_subscription-Stable id channel owner username enabled = Stable-kept _ λ now d k.
      Kept-maybe (ensure_channel channel username d) _ _ (λ _. Kept-none)
        λ found e.
          set_in_channel_keeps id owner enabled now d found k
            ((ensure_channel_keeps channel username d k).at found.0 found.1 e)
