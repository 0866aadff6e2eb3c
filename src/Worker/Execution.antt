-- ===== src/Worker/Execution.antt =====
-- The acquisition, the executor and the retention keep every invariant that respects the statements.
use ratatoskr_channel_digest.Prelude.{
  ℕ, zero, suc, String, Bool, true, false, not, ◌||◌, Option, some, List, [], ◌∷◌, ◌≡◌, subst,
  arith, ltb, leb,
}
use ratatoskr_channel_digest.Contracts.{External}
use ratatoskr_channel_digest.Schema.{Db, Lease}
use ratatoskr_channel_digest.Storage.{Result, ok, err, M, recover, raise, pure, ◌>>=◌}
use ratatoskr_channel_digest.Storage.Rules.{
  Stable, Keeps, Keeps-pure, Keeps-bind, Keeps-if, Keeps-maybe, keeps_rules,
}
use ratatoskr_channel_digest.Coordinator.{CanonicalManifest}
use ratatoskr_channel_digest.Revisions
use ratatoskr_channel_digest.Revisions.{ObservedRevision, ProvedIdRange}
use ratatoskr_channel_digest.Provider.{PublicChannelProvider, ProviderPost, ProviderPage}
use ratatoskr_channel_digest.Acquisition
use ratatoskr_channel_digest.Acquisition.Engine
use ratatoskr_channel_digest.Acquisition.{AcquisitionRequest, AcquisitionError, same_lease}
use ratatoskr_channel_digest.Maintenance
use ratatoskr_channel_digest.ManifestBuilder.{ManifestSource, ManifestError}
use ratatoskr_channel_digest.Executor.Execution
use ratatoskr_channel_digest.Executor.Execution.{PendingRun, Tally, Acquired}
use ratatoskr_channel_digest.Worker.{Respects}
use ratatoskr_channel_digest.Worker.Operations.{
  commit_manifest-Keeps, complete_empty_run-Keeps, fail_run-Keeps,
}
use ratatoskr_channel_digest.Worker.Commands.{begin_acquisition-Keeps, record_acquisition-Keeps}

module _ {I : Db → Type 0} where
  -- A statement that only reads, the time included.
  looking-Stable : {A : Type 0} (f : ℕ → Db → A) → Stable I (λ now d. some (f now d, d))
  looking-Stable {A} f = record {
    at = λ now d a d' k e. let same : d ≡ d' = ground arith in subst I same k;
  }

  ask-Keeps : {A : Type 0} (f : ℕ → A) → Keeps I (Acquisition.ask f)
  unfolding Acquisition.ask
  ask-Keeps f = record { at = λ w c k. (c, k) }

ruleset parts = (keeps_rules, looking-Stable, ask-Keeps)

module _ ⦃ext : External⦄ {I : Db → Type 0} (i : Respects I) where
  append-Keeps : (o : ObservedRevision) → Keeps I (Revisions.append o)
  unfolding Revisions.append
  append-Keeps o = search (parts, i.appended) depth 20

  withdraw_missing-Keeps :
      (channel : ℕ) (proved : ProvedIdRange) (present deleted : List ℕ)
      → Keeps I (Revisions.withdraw_missing channel proved present deleted)
  unfolding Revisions.withdraw_missing
  withdraw_missing-Keeps channel proved present deleted = search (parts, i.withdrawn) depth 20

  checkpoint-Keeps :
      (r : AcquisitionRequest) (before : Option ℕ) (pages revisions : ℕ) (state : String)
      (wait : Option ℕ)
      → Keeps I (Acquisition.checkpoint r before pages revisions state wait)
  unfolding Acquisition.checkpoint
  checkpoint-Keeps r before pages revisions state wait = search (parts, i.leased) depth 20

  take_up-Keeps :
      (r : AcquisitionRequest) (stored : Option Lease × ℕ) → Keeps I (Acquisition.take_up r stored)
  unfolding Acquisition.take_up
  take_up-Keeps r (stored, now) = search parts depth 20

  resume-Keeps : (r : AcquisitionRequest) → Keeps I (Acquisition.resume r)
  unfolding Acquisition.resume
  resume-Keeps r = search (parts, take_up-Keeps) depth 20

  resolve-Keeps :
      (p : PublicChannelProvider) (r : AcquisitionRequest) (username : String) (before : Option ℕ)
      (pages revisions : ℕ)
      → Keeps I (Acquisition.resolve p r username before pages revisions)
  unfolding Acquisition.resolve
  resolve-Keeps p r username before pages revisions = search (parts, checkpoint-Keeps) depth 20

  parse_window-Keeps : (r : AcquisitionRequest) → Keeps I (Acquisition.parse_window r)
  unfolding Acquisition.parse_window
  parse_window-Keeps r = search parts depth 20

  append_post-Keeps :
      (r : AcquisitionRequest) (username : String) (p : ProviderPost)
      → Keeps I (Acquisition.append_post r username p)
  unfolding Acquisition.append_post
  append_post-Keeps r username p = search (parts, append-Keeps) depth 20

  store_post-Keeps :
      (r : AcquisitionRequest) (username : String) (window : ℕ × ℕ) (p : ProviderPost)
      (is_seen : Bool) (others marked : M AcquisitionError Acquisition.Stored)
      → Keeps I others
      → Keeps I marked
      → Keeps I (Acquisition.store_post r username window p is_seen others marked)
  unfolding Acquisition.store_post
  store_post-Keeps r username window p is_seen others marked ko km =
      Keeps-if (not (Acquisition.is_readable p)) others _ (λ _. ko)
        λ _.
          Keeps-maybe (ext.parse_instant p.published_at) (raise AcquisitionError.unavailable) _
            (search parts)
            λ published.
              Keeps-if (ltb published window.0)
                (others >>= λ stored. pure (Acquisition.reached_start stored)) _
                (λ _.
                  Keeps-bind others (λ stored. pure (Acquisition.reached_start stored)) ko
                    λ stored. Keeps-pure _)
                λ _.
                  Keeps-if (leb window.1 published || is_seen) others _ (λ _. ko)
                    λ _.
                      Keeps-bind (Acquisition.append_post r username p) _
                        (append_post-Keeps r username p)
                        λ _.
                          Keeps-bind marked (λ stored. pure (Acquisition.one_more stored)) km
                            λ stored. Keeps-pure _

  store_posts-Keeps :
      (r : AcquisitionRequest) (username : String) (window : ℕ × ℕ) (ps : List ProviderPost)
      (seen : List (ℕ × String))
      → Keeps I (Acquisition.store_posts r username window ps seen)
  unfolding Acquisition.store_posts
  store_posts-Keeps r username window [] seen = search parts
  store_posts-Keeps r username window (p ∷ ps) seen =
      store_post-Keeps r username window p _ _ _ (store_posts-Keeps r username window ps seen)
        (store_posts-Keeps r username window ps ((p.message_id, ext.sha256_text p.body) ∷ seen))

  withdraw_absent-Keeps :
      (channel : ℕ) (before : Option ℕ) (page : ProviderPage)
      → Keeps I (Acquisition.withdraw_absent channel before page)
  unfolding Acquisition.withdraw_absent Acquisition.count_withdrawn
  withdraw_absent-Keeps channel before page = search (parts, withdraw_missing-Keeps) depth 20

  stop-Keeps :
      (r : AcquisitionRequest) (before : Option ℕ) (pages revisions : ℕ) (wait : Option ℕ)
      → Keeps I (Engine.stop r before pages revisions wait)
  unfolding Engine.stop
  stop-Keeps r before pages revisions wait = search (parts, checkpoint-Keeps) depth 20

  finish-Keeps :
      (r : AcquisitionRequest) (before : Option ℕ) (pages revisions : ℕ)
      → Keeps I (Engine.finish r before pages revisions)
  unfolding Engine.finish
  finish-Keeps r before pages revisions = search (parts, checkpoint-Keeps) depth 20

  walk-Keeps :
      (p : PublicChannelProvider) (r : AcquisitionRequest) (username : String) (channel : ℕ)
      (window : ℕ × ℕ) (left : ℕ) (before : Option ℕ) (pages revisions : ℕ)
      (seen : List (ℕ × String))
      → Keeps I (Engine.walk p r username channel window left before pages revisions seen)
  unfolding Engine.walk
  walk-Keeps p r username channel window zero before pages revisions seen =
      finish-Keeps r before pages revisions
  walk-Keeps p r username channel window (suc left) before pages revisions seen =
      search
        (
          parts,
          stop-Keeps,
          store_posts-Keeps,
          withdraw_absent-Keeps,
          checkpoint-Keeps,
          finish-Keeps,
          walk-Keeps p r username channel window left,
        )
        depth 30

  acquire_from-Keeps :
      (p : PublicChannelProvider) (r : AcquisitionRequest) (at : Option ℕ × ℕ × ℕ)
      → Keeps I (Engine.acquire_from p r at)
  unfolding Engine.acquire_from
  acquire_from-Keeps p r (before, pages, revisions) =
      search (parts, resolve-Keeps, parse_window-Keeps, walk-Keeps) depth 20

  acquire-Keeps :
      (p : PublicChannelProvider) (r : AcquisitionRequest) → Keeps I (Engine.acquire p r)
  unfolding Engine.acquire
  acquire-Keeps p r = search (parts, resume-Keeps, acquire_from-Keeps) depth 20

  commit_built-Keeps :
      (run : PendingRun) (m : Result ManifestError CanonicalManifest)
      → Keeps I (Execution.commit_built run m)
  unfolding Execution.commit_built
  commit_built-Keeps run (err e) = search (parts, fail_run-Keeps i) depth 20
  commit_built-Keeps run (ok m) = search (parts, commit_manifest-Keeps i) depth 20

  commit-Keeps :
      (run : PendingRun) (sources : List ManifestSource) (gap : Bool)
      → Keeps I (Execution.commit run sources gap)
  unfolding Execution.commit
  commit-Keeps run sources gap =
      search (parts, fail_run-Keeps i, complete_empty_run-Keeps i, commit_built-Keeps) depth 20

  select_sources-Keeps :
      (limit : ℕ) (run : PendingRun) → Keeps I (Execution.select_sources limit run)
  unfolding Execution.select_sources
  select_sources-Keeps limit run = search parts depth 20

  module _ (provider : PublicChannelProvider) (source_count : ℕ) where
    acquire_channels-Keeps :
        (run : PendingRun) (t : Tally) (cs : List (ℕ × String))
        → Keeps I (Execution.acquire_channels provider source_count run t cs)
    unfolding Execution.acquire_channels
    acquire_channels-Keeps run t [] = search parts
    acquire_channels-Keeps run t (c ∷ cs) =
        Keeps-bind
          (recover
            (Engine.acquire provider (Execution.channel_request provider source_count run c)))
          _ (search (parts, acquire-Keeps))
          λ outcome. acquire_channels-Keeps run (Execution.counted outcome t) cs

    acquire_run-Keeps :
        (run : PendingRun) (cs : List (ℕ × String))
        → Keeps I (Execution.acquire provider source_count run cs)
    unfolding Execution.acquire
    acquire_run-Keeps run cs = search (parts, acquire_channels-Keeps) depth 20

    conclude-Keeps :
        (run : PendingRun) (gap : Bool) → Keeps I (Execution.conclude provider source_count run gap)
    unfolding Execution.conclude
    conclude-Keeps run gap =
        search (parts, select_sources-Keeps, record_acquisition-Keeps i, commit-Keeps) depth 20

    proceed-Keeps :
        (run : PendingRun) (a : Acquired) → Keeps I (Execution.proceed provider source_count run a)
    unfolding Execution.proceed
    proceed-Keeps run Acquired.deferred = search parts
    proceed-Keeps run Acquired.unavailable = search (parts, fail_run-Keeps i) depth 20
    proceed-Keeps run Acquired.complete = conclude-Keeps run false
    proceed-Keeps run Acquired.incomplete = conclude-Keeps run true

    execute_run-Keeps :
        (run : PendingRun) → Keeps I (Execution.execute_run provider source_count run)
    unfolding Execution.execute_run
    execute_run-Keeps run =
        search (parts, begin_acquisition-Keeps i, acquire_run-Keeps, proceed-Keeps) depth 20

    pub execute_one-Keeps : Keeps I (Execution.execute_one provider source_count)
    unfolding Execution.execute_one Execution.next_pending
    execute_one-Keeps = search (parts, execute_run-Keeps) depth 20

  pub sweep_once-Keeps : (days now : ℕ) → Keeps I (Maintenance.sweep_once days now)
  unfolding Maintenance.sweep_once Maintenance.minimize_before Maintenance.minimize_manifests_before
  sweep_once-Keeps days now = search (parts, i.bodies_minimized, i.texts_minimized) depth 20
