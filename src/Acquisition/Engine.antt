-- ===== src/Acquisition/Engine.antt =====
-- src/acquisition.rs: `AcquisitionEngine::execute`, its loop over the pages of a channel and its ends.
use ratatoskr_channel_digest.Prelude.{
  ℕ, zero, suc, ◌+◌, ◌-◌, String, Bool, true, Option, none, some, List, [], min, ltb, if◌then◌else◌,
  maybe, is_some,
}
use ratatoskr_channel_digest.Contracts.{External}
use ratatoskr_channel_digest.Storage.{M, pure, raise, ◌>>=◌, ◌>>◌}
use ratatoskr_channel_digest.Provider.{
  ProviderPage, PublicChannelProvider, answer_of, wait_of, parse_username,
}
use ratatoskr_channel_digest.Acquisition.{
  AcquisitionRequest, AcquisitionReport, AcquisitionError, ask, checkpoint, resume, resolve,
  parse_window, store_posts, withdraw_absent,
}

module _ ⦃ext : External⦄ where
  -- A page that could not be fetched, after the given number of pages.
  unfoldable pub stop :
      AcquisitionRequest → Option ℕ → ℕ → ℕ → Option ℕ → M AcquisitionError AcquisitionReport
  stop r before pages revisions wait =
      maybe wait
        (if ltb 0 pages
          then (do
            checkpoint r before pages revisions "provider_unavailable" none
            pure (record { pages = pages; revisions = revisions; partial = true }))
          else raise AcquisitionError.unavailable)
        λ seconds. do
          checkpoint r before pages revisions "flood_wait" (some seconds)
          raise AcquisitionError.deferred

  -- The end of `execute` behind its loop.
  unfoldable pub finish :
      AcquisitionRequest → Option ℕ → ℕ → ℕ → M AcquisitionError AcquisitionReport
  finish r before pages revisions = do
    checkpoint r before pages revisions (if is_some before then "page_limit" else "completed") none
    pure (record { pages = pages; revisions = revisions; partial = is_some before })

  -- The cursor behind a page that was stored.
  abbrev pub next_cursor : ProviderPage → Bool → Option ℕ
  next_cursor page reached = if reached then none else page.next_before_message_id

  -- The loop of `execute`, by the pages that `max_pages` leaves: `while pages < request.max_pages`.
  unfoldable pub walk :
      PublicChannelProvider
      → AcquisitionRequest
      → String
      → ℕ
      → ℕ × ℕ
      → ℕ
      → Option ℕ
      → ℕ
      → ℕ
      → List (ℕ × String)
      → M AcquisitionError AcquisitionReport
  walk provider r username channel window zero before pages revisions seen =
      finish r before pages revisions
  walk provider r username channel window (suc left) before pages revisions seen = do
    answer ← ask (λ n. provider.fetch_public_posts n channel before (min r.page_size 100))
    maybe (answer_of answer) (stop r before pages revisions (wait_of answer)) λ page. do
      (stored, reached, seen') ← store_posts r username window page.posts seen
      withdraw_absent r.channel_id before page
      checkpoint r (next_cursor page reached) (suc pages) (revisions + stored) "page_committed" none
      maybe (next_cursor page reached) (finish r none (suc pages) (revisions + stored)) λ cursor.
          walk provider r username channel window left (some cursor) (suc pages)
            (revisions + stored) seen'

  -- `execute` behind its checkpoint
  unfoldable pub acquire_from :
      PublicChannelProvider
      → AcquisitionRequest
      → Option ℕ × ℕ × ℕ
      → M AcquisitionError AcquisitionReport
  acquire_from provider r (before, pages, revisions) =
      maybe (parse_username r.username) (raise AcquisitionError.unavailable) λ username. do
        channel ← resolve provider r username before pages revisions
        window ← parse_window r
        walk provider r username channel window (r.max_pages - pages) before pages revisions []

  -- `AcquisitionEngine::execute`
  unfoldable pub acquire :
      PublicChannelProvider → AcquisitionRequest → M AcquisitionError AcquisitionReport
  unfolding acquire_from
  acquire provider r = do at ← resume r; acquire_from provider r at
