-- ===== src/Acquisition/Withdrawal.antt =====
-- What a page proves about the posts of its channel: which revisions it may withdraw, and that it
-- withdraws the others.
use ratatoskr_channel_digest.Prelude.{
  ℕ, Bool, true, false, not, ◌&&◌, ◌||◌, Option, none, some, List, [], ◌∷◌, ◌≡◌, refl, ◌∙◌, arith,
  ltb, leb, ◌==◌, Bool-cases, is_some, holds, contains, rows, maybe, Option-cases, inl, inr, All,
  All-reached, All_intro, rows-update,
}
use ratatoskr_channel_digest.Contracts.{External}
use ratatoskr_channel_digest.Schema.{Db, Revision}
use ratatoskr_channel_digest.Storage.{World, pure, map_err, execute_alone, attempt, tally, ◌>>=◌}
use ratatoskr_channel_digest.Storage.Rules.{Stable}
use ratatoskr_channel_digest.Worker.Frames.{Stable-kept, Kept-some}
use ratatoskr_channel_digest.Storage.Alone.{Leaves, leaves_rules}
use ratatoskr_channel_digest.Revisions.{
  ProvedIdRange, below_cursor, holds_id, is_gone, withdraws, withdrawn, withdraw, withdraw_missing,
}
use ratatoskr_channel_digest.Provider.{ProviderPost, ProviderPage}
use ratatoskr_channel_digest.Acquisition.{
  lowest_id, proved_range, live_ids, deleted_ids, count_withdrawn, withdraw_absent,
}

-- The page has a live post of this identity, or reports it deleted.
abbrev pub is_shown : ProviderPage → ℕ → Bool
is_shown page id = contains (λ (p : ProviderPost). not p.deleted && p.message_id == id) page.posts

abbrev pub is_reported : ProviderPage → ℕ → Bool
is_reported page id = contains (λ (p : ProviderPost). p.deleted && p.message_id == id) page.posts

-- A later page follows, and each post of this one has a greater identity.
abbrev pub is_beyond : ProviderPage → ℕ → Bool
is_beyond page id =
    is_some page.next_before_message_id
    && not (contains (λ (p : ProviderPost). leb p.message_id id) page.posts)

-- What the page says nothing against.
abbrev pub is_spared : Option ℕ → ProviderPage → ℕ → Bool
is_spared before page id =
    not (is_reported page id)
    && (is_shown page id || not (below_cursor before id) || is_beyond page id)

holds-live :
    (id : ℕ) (ps : List ProviderPost)
    → holds_id (live_ids ps) id
      ≡ contains (λ (p : ProviderPost). not p.deleted && p.message_id == id) ps
unfolding contains rows
holds-live id [] = refl
holds-live id (p ∷ ps) = ground (arith, holds-live id ps)

holds-deleted :
    (id : ℕ) (ps : List ProviderPost)
    → holds_id (deleted_ids ps) id
      ≡ contains (λ (p : ProviderPost). p.deleted && p.message_id == id) ps
unfolding contains rows
holds-deleted id [] = refl
holds-deleted id (p ∷ ps) = ground (arith, holds-deleted id ps)

lowest_id-leb :
    (id : ℕ) (ps : List ProviderPost)
    → holds (λ l. leb l id) (lowest_id ps) ≡ contains (λ (p : ProviderPost). leb p.message_id id) ps
unfolding contains lowest_id
lowest_id-leb id [] = refl
lowest_id-leb id (p ∷ ps) = ground (arith, lowest_id-leb id ps)

-- The identities that a page withdraws are those it does not spare.
gone-spared :
    (before : Option ℕ) (page : ProviderPage) (proved : ProvedIdRange) (id : ℕ)
    → proved_range page before ≡ some proved
    → is_gone proved (live_ids page.posts) (deleted_ids page.posts) id
      ≡ not (is_spared before page id)
unfolding proved_range
gone-spared before page proved id h = elim (Option-cases page.next_before_message_id) [
  | inl e ↦ ground (arith, e, h, holds-live id page.posts, holds-deleted id page.posts)
  | inr (n, e) ↦ elim (Option-cases (lowest_id page.posts)) [
    | inl f ↦ ground (arith, e, f, h)
    | inr (l, f) ↦ ground (
      arith,
      e,
      f,
      h,
      holds-live id page.posts,
      holds-deleted id page.posts,
      lowest_id-leb id page.posts,
    )
  ]
]

lowest_id-none :
    (p : ProviderPost → Bool) (ps : List ProviderPost) → lowest_id ps ≡ none → contains p ps ≡ false
unfolding contains lowest_id
lowest_id-none p [] h = refl
lowest_id-none p (q ∷ ps) h = elim (Option-cases (lowest_id ps)) [
  | inl e ↦ absurd (ground (arith, e, h))
  | inr (l, e) ↦ absurd (ground (arith, e, h))
]

-- A page that proves nothing spares every identity.
spared-nothing :
    (before : Option ℕ) (page : ProviderPage) (id : ℕ)
    → proved_range page before ≡ none
    → is_spared before page id ≡ true
unfolding proved_range
spared-nothing before page id h = elim (Option-cases page.next_before_message_id) [
  | inl e ↦ absurd (ground (arith, e, h))
  | inr (n, e) ↦ elim (Option-cases (lowest_id page.posts)) [
    | inl f ↦ ground (
      arith,
      e,
      lowest_id-none (λ (p : ProviderPost). p.deleted && p.message_id == id) page.posts f,
      lowest_id-none (λ (p : ProviderPost). leb p.message_id id) page.posts f,
    )
    | inr (l, f) ↦ absurd (ground (arith, e, f, h))
  ]
]

-- The revisions of other channels, and those whose post the page says nothing against.
abbrev pub is_left : ℕ → Option ℕ → ProviderPage → Revision → Bool
is_left channel before page r =
    not (r.channel_id == channel) || is_spared before page r.provider_message_id

-- The revisions that the page leaves are these.
abbrev pub Leave : ℕ → Option ℕ → ProviderPage → List Revision → Db → Type 0
Leave channel before page kept d = rows (is_left channel before page) d.revisions ≡ kept

pub count_withdrawn-committed :
    ⦃ext : External⦄ (n : ℕ) (w : World) → (count_withdrawn n w).1.committed ≡ w.committed
unfolding count_withdrawn tally pure
count_withdrawn-committed n w = elim (Bool-cases (ltb 0 n)) [ inl e ↦ rw e | inr e ↦ rw e ]

module _ (channel : ℕ) (before : Option ℕ) (page : ProviderPage) where
  withdraw-Leave :
      (proved : ProvedIdRange) (kept : List Revision)
      → proved_range page before ≡ some proved
      → Stable
          (Leave channel before page kept)
          (withdraw channel (is_gone proved (live_ids page.posts) (deleted_ids page.posts)))
  unfolding withdraw
  withdraw-Leave proved kept h = Stable-kept _ λ now d k. Kept-some _ _ (
      rows-update (is_left channel before page) _ (withdrawn now)
        (λ r e.
          let gone = gone-spared before page proved r.provider_message_id h in
          let out : is_left channel before page r ≡ false = ground (arith, e, gone) in (out, out))
        d.revisions
      ∙ k)

  -- Whichever call of the database fails, a page takes no revision of another channel, none of a post
  -- that it shows, and none of a post that it neither reports deleted nor can rule out: one at or
  -- above the identity that it was asked to stop below, or one below all its posts while more follow.
  pub withdraw_absent-spared :
      ⦃ext : External⦄ (w : World)
      → rows
          (is_left channel before page)
          (withdraw_absent channel before page w).1.committed.revisions
        ≡ rows (is_left channel before page) w.committed.revisions
  unfolding withdraw_absent withdraw_missing count_withdrawn maybe pure
  withdraw_absent-spared ⦃ext⦄ w = elim (Option-cases (proved_range page before)) [
    | inl e ↦ rw e refl
    | inr (proved, e) ↦
        let left : Leaves
            (Leave channel before page (rows (is_left channel before page) w.committed.revisions))
            (withdraw_absent channel before page) =
          rw e (search (leaves_rules, withdraw-Leave proved _ e) depth 20) in
        left.at w refl
  ]

  -- Where the call of the database goes through, each revision of the channel that the page does not
  -- leave is withdrawn afterwards.
  pub withdraw_absent-withdrawn :
      ⦃ext : External⦄ (w : World)
      → w.fails w.calls ≡ false
      → All
          (λ r. is_left channel before page r || is_some r.deleted_at ≡ true)
          (withdraw_absent channel before page w).1.committed.revisions
  unfolding withdraw_absent withdraw_missing withdraw execute_alone attempt map_err maybe pure ◌>>=◌
  withdraw_absent-withdrawn ⦃ext⦄ w h = elim (Option-cases (proved_range page before)) [
    | inl e ↦
        rw e
          (All_intro _ (λ r. ground (arith, spared-nothing before page r.provider_message_id e)) _)
    | inr (proved, e) ↦
        rw (e, h, count_withdrawn-committed)
          (All-reached _
            (withdraws channel (is_gone proved (live_ids page.posts) (deleted_ids page.posts)))
            (withdrawn w.clock) (λ r k. ground (arith, k))
            (λ r k. ground (arith, k, gone-spared before page proved r.provider_message_id e)) _)
  ]
