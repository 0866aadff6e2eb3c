-- ===== src/Acquisition/Counted.antt =====
-- The counter of the manifests against the texts that a withdrawal takes.
use ratatoskr_channel_digest.Prelude.{
  ℕ, ◌+◌, Bool, Option, ◌≡◌, refl, arith, ltb, is_some, count, update, maybe, All_intro, Bool-cases,
  Option-cases, inl, inr,
}
use ratatoskr_channel_digest.Contracts.{External}
use ratatoskr_channel_digest.Schema.{Db, Manifest}
use ratatoskr_channel_digest.Storage.{World, pure, ◌>>=◌, map_err, attempt, tally, execute_alone}
use ratatoskr_channel_digest.Metrics.{add_manifests}
use ratatoskr_channel_digest.Revisions.{is_gone, carries, minimized, withdraw, withdraw_missing}
use ratatoskr_channel_digest.Provider.{ProviderPage}
use ratatoskr_channel_digest.Acquisition.{
  proved_range, live_ids, deleted_ids, count_withdrawn, withdraw_absent,
}
use ratatoskr_channel_digest.Acquisition.Withdrawal.{count_withdrawn-committed}
use ratatoskr_channel_digest.Maintenance.Counted.{
  count-update_lost, texts_of, IsMoved, IsMoved-same, IsMoved-add,
}

withdrawn-texts :
    (channel : ℕ) (gone : ℕ → Bool) (now : ℕ) (d : Db)
    → count
          (λ (m : Manifest). is_some m.canonical_text)
          (update (carries channel gone d.messages) (minimized now) d.manifests)
        + count (carries channel gone d.messages) d.manifests
      ≡ texts_of d
withdrawn-texts channel gone now d =
    count-update_lost _ _ (minimized now) (λ m. refl) d.manifests
      (All_intro _ (λ m h. ground (arith, h)) d.manifests)

module _ ⦃ext : External⦄ where
  count_withdrawn-IsMoved :
      (n left lost : ℕ) (w : World)
      → left + n ≡ lost
      → IsMoved w.counter.manifests (count_withdrawn n w).1.counter.manifests lost left
  unfolding count_withdrawn tally add_manifests pure
  count_withdrawn-IsMoved n left lost w h = elim (Bool-cases (ltb 0 n)) [
    | inl e ↦ rw e (IsMoved-add _ _ _ _ h)
    | inr e ↦
        let zero_lost : left ≡ lost = ground (arith, e, h) in rw (e, zero_lost) (IsMoved-same _ _)
  ]

  -- Whichever call of the database fails, the withdrawal of a page moves the counter of manifests by
  -- the texts of manifests that it took from the database, modulo 2^64, and adds no text.
  pub withdraw_absent-IsMoved :
      (channel : ℕ) (before : Option ℕ) (page : ProviderPage) (w : World)
      → IsMoved w.counter.manifests
          (withdraw_absent channel before page w).1.counter.manifests
          (texts_of w.committed)
          (texts_of (withdraw_absent channel before page w).1.committed)
  unfolding withdraw_absent withdraw_missing withdraw execute_alone attempt map_err maybe pure ◌>>=◌
  withdraw_absent-IsMoved channel before page w = elim (Option-cases (proved_range page before)) [
    | inl e ↦ rw e (IsMoved-same _ _)
    | inr (proved, e) ↦ elim (Bool-cases (w.fails w.calls)) [
      | inl f ↦ rw (e, f) (IsMoved-same _ _)
      | inr f ↦
          rw (e, f, count_withdrawn-committed)
            (count_withdrawn-IsMoved _ _ _ _ (
              withdrawn-texts channel
                (is_gone proved (live_ids page.posts) (deleted_ids page.posts)) w.clock
                w.committed))
    ]
  ]
