-- ===== src/Tests/Counting.antt =====
-- The theorems on the counters of the operator plane at concrete inputs.
use ratatoskr_channel_digest.Prelude.{
  none, List, [], ◌∷◌, ◌≡◌, refl, contains, count, rows, select, update, sort, insert, maybe,
}
use ratatoskr_channel_digest.Schema.{Db}
use ratatoskr_channel_digest.Metrics.{add_bodies, add_manifests}
use ratatoskr_channel_digest.Storage.{pure, ◌>>=◌, map_err, attempt, tally, execute_alone}
use ratatoskr_channel_digest.Revisions.{withdraw, withdraw_missing}
use ratatoskr_channel_digest.Acquisition.{lowest_id, proved_range, count_withdrawn, withdraw_absent}
use ratatoskr_channel_digest.Acquisition.Counted.{withdraw_absent-IsMoved}
use ratatoskr_channel_digest.Maintenance.{
  sweep_once, minimize_before, minimize_manifests_before, minimize_revisions, minimize_manifests,
  expired_revisions, spent_manifests,
}
use ratatoskr_channel_digest.Maintenance.Counted.{IsKeyed, IsMoved, IsCounted, texts_of}
use ratatoskr_channel_digest.Runtime.Loops.{TimerEvent, supervise_retention}
use ratatoskr_channel_digest.Runtime.Sweeping.{supervise_retention-IsCounted}
use ratatoskr_channel_digest.Tests.{toy, world}
use ratatoskr_channel_digest.Tests.Execution.{digest_db, last_page}

-- The manifest holds a post that the page reports deleted.
abbrev carried_db : Db
carried_db = record digest_db {
  messages = record { manifest_id = 2; channel_id = 11; provider_message_id = 41 } ∷ [];
}

withdrawn_is_counted :
    (withdraw_absent ⦃ext = toy⦄ 11 none last_page (world 100 carried_db)).1.counter
    ≡ record { bodies = 0; manifests = 1 }
unfolding withdraw_absent withdraw_missing withdraw count_withdrawn tally add_manifests proved_range
    lowest_id contains count rows update execute_alone attempt map_err maybe pure ◌>>=◌
withdrawn_is_counted = refl

withdraw_absent-IsMoved_example :
    IsMoved 0
      (withdraw_absent ⦃ext = toy⦄ 11 none last_page (world 100 carried_db)).1.counter.manifests
      1
      (texts_of (withdraw_absent ⦃ext = toy⦄ 11 none last_page (world 100 carried_db)).1.committed)
unfolding count
withdraw_absent-IsMoved_example =
    withdraw_absent-IsMoved ⦃ext = toy⦄ 11 none last_page (world 100 carried_db)

-- A drained loop does not sweep again.
abbrev events : List TimerEvent
events = TimerEvent.tick 30 ∷ TimerEvent.pass 5 ∷ TimerEvent.drain ∷ TimerEvent.tick 40 ∷ []

sweep_is_counted :
    (supervise_retention 0 events (world 100 digest_db)).counter
    ≡ record { bodies = 1; manifests = 1 }
unfolding supervise_retention sweep_once minimize_before minimize_manifests_before
    minimize_revisions minimize_manifests expired_revisions spent_manifests tally add_bodies
    add_manifests contains count rows select update sort insert execute_alone attempt pure ◌>>=◌
sweep_is_counted = refl

digest_db-IsKeyed : IsKeyed digest_db
unfolding contains
digest_db-IsKeyed = record { revisions = (refl, (refl, tt)); manifests = (refl, tt) }

supervise_retention-IsCounted_example :
    IsCounted (world 100 digest_db) (supervise_retention 0 events (world 100 digest_db))
supervise_retention-IsCounted_example =
    supervise_retention-IsCounted 0 events (world 100 digest_db) digest_db-IsKeyed
