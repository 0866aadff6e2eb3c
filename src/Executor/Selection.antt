-- ===== src/Executor/Selection.antt =====
-- src/executor.rs: `select_sources`, the revisions that one digest takes.
use ratatoskr_channel_digest.Prelude.{
  ℕ, suc, ◌^◌, String, Bool, not, ◌&&◌, ◌||◌, Option, none, some, List, [], ◌∷◌, ◌++◌, map, ltb,
  leb, ◌==◌, if◌then◌else◌, is_some, length, contains, count, select, rows, sort, take,
}
use ratatoskr_channel_digest.Contracts.{External}
use ratatoskr_channel_digest.Schema.{Db, Channel, Subscription, Revision}
use ratatoskr_channel_digest.Statements.{active_of}
use ratatoskr_channel_digest.ManifestBuilder.{ManifestSource}

-- How many revisions were selected, and how many there were before the cap.
pub record Selection : Type 0 where
  pub sources : List ManifestSource
  pub eligible : ℕ

abbrev pub is_subscribed : ℕ → Db → ℕ → Bool
is_subscribed owner d channel =
    contains (λ (s : Subscription). active_of owner s && s.channel_id == channel) d.subscriptions

-- The innermost `where`: a revision of the owner's channels, published in the window.
abbrev pub in_window : ℕ → ℕ → ℕ → Db → Revision → Bool
in_window owner start end d r =
    is_subscribed owner d r.channel_id && leb start r.published_at && ltb r.published_at end

abbrev pub same_post : Revision → Revision → Bool
same_post a b = a.channel_id == b.channel_id && a.provider_message_id == b.provider_message_id

-- `order by observed_at, revision_id`
abbrev pub observed_before : Revision → Revision → Bool
observed_before a b =
    ltb a.observed_at b.observed_at
    || a.observed_at == b.observed_at && ltb a.revision_id b.revision_id

-- `row_number() over (partition by channel_id, provider_message_id order by …)`
abbrev pub revision_index : List Revision → Revision → ℕ
revision_index observed r = suc (count (λ x. same_post x r && observed_before x r) observed)

-- `join channels c … where o.body is not null and o.deleted_at is null`
abbrev pub is_servable : Db → Revision → Bool
is_servable d r =
    is_some r.body
    && not (is_some r.deleted_at)
    && contains (λ (c : Channel). c.channel_id == r.channel_id) d.channels

-- `distinct on (channel_id, provider_message_id) … order by observed_at desc, revision_id desc`
abbrev pub is_latest : List Revision → Revision → Bool
is_latest servable r = not (contains (λ x. same_post x r && observed_before r x) servable)

-- The subquery `selected`
unfoldable pub eligible_revisions : ℕ → ℕ → ℕ → Db → List Revision
eligible_revisions owner start end d =
    let servable = rows (is_servable d) (rows (in_window owner start end d) d.revisions) in
    rows (is_latest servable) servable

-- `order by published_at desc, channel_id, provider_message_id desc, revision_id desc`
abbrev pub is_newer_post : Revision → Revision → Bool
is_newer_post a b =
    ltb b.published_at a.published_at
    || a.published_at == b.published_at
      && (ltb a.channel_id b.channel_id
          || a.channel_id == b.channel_id
            && (ltb b.provider_message_id a.provider_message_id
                || a.provider_message_id == b.provider_message_id
                  && ltb b.revision_id a.revision_id))

unfoldable pub newest_revisions : ℕ → ℕ → ℕ → ℕ → Db → List Revision
unfolding eligible_revisions
newest_revisions limit owner start end d =
    take limit (sort is_newer_post (eligible_revisions owner start end d))

unfoldable pub reversed : {A : Type 0} → List A → List A
reversed [] = []
reversed (x ∷ xs) = reversed xs ++ x ∷ []

abbrev pub or_empty : Option String → String
or_empty none = ""
or_empty (some t) = t

-- `u32::try_from(revision_index).unwrap_or(0)`
abbrev pub in_u32 : ℕ → ℕ
in_u32 n = if ltb n (2 ^ 32) then n else 0

abbrev pub username_of : Option Channel → String
username_of none = ""
username_of (some c) = c.username

abbrev pub display_name_of : Option Channel → Option String
display_name_of none = none
display_name_of (some c) = c.display_name

module _ ⦃ext : External⦄ where
  abbrev pub source_of : Db → List Revision → Revision → ManifestSource
  source_of d observed r =
      let channel = select (λ (c : Channel). c.channel_id == r.channel_id) d.channels in
      record {
        revision_id = r.revision_id;
        channel_id = r.channel_id;
        channel_username = username_of channel;
        channel_display_name = display_name_of channel;
        message_id = r.provider_message_id;
        content_sha256 = r.content_sha256;
        published_at = ext.instant_text r.published_at;
        canonical_link = r.canonical_link;
        body = or_empty r.body;
        revision_index = in_u32 (revision_index observed r);
      }

  -- `select_sources` behind its statement: the rows oldest first
  unfoldable pub selection : ℕ → ℕ → ℕ → ℕ → Db → Selection
  unfolding newest_revisions reversed
  selection limit owner start end d =
      let chosen = newest_revisions limit owner start end d in
      let observed = rows (in_window owner start end d) d.revisions in
      record {
        sources = map (source_of d observed) (reversed chosen);
        eligible = if length chosen == 0 then 0 else length (eligible_revisions owner start end d);
      }
