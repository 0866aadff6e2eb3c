-- ===== src/Acquisition.antt =====
-- src/acquisition.rs: `AcquisitionEngine`, a bounded walk over the pages of a channel that a later
-- tick takes up from its checkpoint. The provider is an argument.
pub mod Withdrawal
pub mod Bounds
pub mod Counted
pub mod Engine
use Prim.Native.String.{len}
use ratatoskr_channel_digest.Prelude.{
  ℕ, zero, suc, ◌+◌, ◌-◌, ◌*◌, ◌^◌, String, concat, Bool, true, false, not, ◌&&◌, ◌||◌, Option,
  none, some, List, [], ◌∷◌, min, max, map, ltb, leb, ◌==◌, str_eq, if◌then◌else◌, maybe, is_some,
  contains, select, rows,
}
use ratatoskr_channel_digest.Contracts.{External}
use ratatoskr_channel_digest.Schema.{Lease}
use ratatoskr_channel_digest.Storage.{
  ok, M, Sql, pure, raise, ◌>>=◌, ◌>>◌, map_err, fresh, tally, execute_alone,
}
use ratatoskr_channel_digest.Metrics.{add_manifests}
use ratatoskr_channel_digest.Revisions.{ProvedIdRange, RevisionError, append, withdraw_missing}
use ratatoskr_channel_digest.Provider.{
  ProviderPost, ProviderPage, PublicChannelProvider, parse_username, answer_of, wait_of,
}

pub record AcquisitionRequest : Type 0 where
  pub run_id : ℕ
  pub channel_id : ℕ
  pub username : String
  pub window_start : String
  pub window_end : String
  pub max_pages : ℕ
  pub page_size : ℕ

pub record AcquisitionReport : Type 0 where
  pub pages : ℕ
  pub revisions : ℕ
  pub partial : Bool

pub data AcquisitionError : Type 0 where
  unavailable deferred : AcquisitionError

abbrev pub from_revision : RevisionError → AcquisitionError
from_revision e = AcquisitionError.unavailable

-- A call of the provider, counted with those of the database.
unfoldable pub ask : {A : Type 0} → (ℕ → A) → M AcquisitionError A
ask f w = (ok (f w.calls), record w { calls = suc w.calls })

-- `proved_range`
unfoldable pub lowest_id : List ProviderPost → Option ℕ
lowest_id [] = none
lowest_id (p ∷ ps) = elim (lowest_id ps) [
  | none ↦ some p.message_id
  | some id ↦ some (min p.message_id id)
]

unfoldable pub proved_range : ProviderPage → Option ℕ → Option ProvedIdRange
unfolding lowest_id
proved_range page requested_before = elim page.next_before_message_id [
  | none ↦ some (record { lowest = 0; below = requested_before })
  | some next ↦ elim (lowest_id page.posts) [
    | none ↦ none
    | some id ↦ some (record { lowest = id; below = requested_before })
  ]
]

abbrev pub ids : List ProviderPost → List ℕ
ids posts = map (λ (p : ProviderPost). p.message_id) posts

abbrev pub live_ids : List ProviderPost → List ℕ
live_ids posts = ids (rows (λ (p : ProviderPost). not p.deleted) posts)

abbrev pub deleted_ids : List ProviderPost → List ℕ
deleted_ids posts = ids (rows (λ (p : ProviderPost). p.deleted) posts)

abbrev pub same_lease : String → ℕ → Lease → Bool
same_lease kind run l = str_eq l.resource_kind kind && l.resource_id == run

abbrev pub second : ℕ
second = 1_000_000

-- `case when $8::bigint is null then now() + interval '5 minutes' else …`
abbrev pub expiry : Option ℕ → ℕ → ℕ
expiry none now = now + 300 * second
expiry (some seconds) now = now + seconds * second

-- `wait.as_secs().clamp(1, 3_600)`
abbrev pub clamp_wait : Option ℕ → Option ℕ
clamp_wait none = none
clamp_wait (some seconds) = some (min 3_600 (max 1 seconds))

unfoldable pub without : String → ℕ → List Lease → List Lease
without kind run leases = rows (λ l. not (same_lease kind run l)) leases

-- `insert into leases … on conflict (resource_kind, resource_id) do update …`
unfoldable pub put_lease : (ℕ → Lease) → Sql (Unit {0})
unfolding without
put_lease row now d = some (
  tt,
  record d { leases = row now ∷ without (row now).resource_kind (row now).resource_id d.leases },
)

abbrev pub fits_i64 : ℕ → Bool
fits_i64 n = ltb n (2 ^ 63)

-- A body that a revision can hold: not deleted, not empty, not too long.
abbrev pub is_readable : ProviderPost → Bool
is_readable p = not (p.deleted || len p.body == 0 || ltb 16_384 (len p.body))

abbrev pub saw : ℕ → String → List (ℕ × String) → Bool
saw id digest seen = contains (λ (s : ℕ × String). s.0 == id && str_eq s.1 digest) seen

-- How a page was stored: the revisions, whether it reached the window start, and what was seen.
abbrev pub Stored : Type 0
Stored = ℕ × Bool × List (ℕ × String)

abbrev pub one_more : Stored → Stored
one_more (n, reached, seen) = (suc n, reached, seen)

abbrev pub reached_start : Stored → Stored
reached_start (n, reached, seen) = (n, true, seen)

module _ ⦃ext : External⦄ where
  -- `acquisition_kind`
  abbrev pub acquisition_kind : ℕ → String
  acquisition_kind channel = concat "acquisition:" (ext.uuid_text channel)

  abbrev pub lease_row : ℕ → AcquisitionRequest → Option ℕ → ℕ → ℕ → String → Option ℕ → ℕ → Lease
  lease_row holder r before pages revisions state wait now = record {
    resource_kind = acquisition_kind r.channel_id;
    resource_id = r.run_id;
    holder_id = holder;
    acquired_at = now;
    expires_at = expiry (clamp_wait wait) now;
    checkpoint = record {
      channel_id = r.channel_id;
      before_message_id = before;
      pages = pages;
      revisions = revisions;
      state = state;
    };
  }

  -- `AcquisitionEngine::checkpoint`
  unfoldable pub checkpoint :
      AcquisitionRequest → Option ℕ → ℕ → ℕ → String → Option ℕ → M AcquisitionError (Unit {0})
  checkpoint r before pages revisions state wait = do
    holder ← fresh
    if fits_i64 pages && fits_i64 revisions
        then execute_alone AcquisitionError.unavailable
            (put_lease (lease_row holder r before pages revisions state wait))
        else raise AcquisitionError.unavailable

  abbrev pub position : AcquisitionRequest → Lease → Option ℕ × ℕ × ℕ
  position r l =
      if str_eq l.checkpoint.state "completed"
      then (none, r.max_pages, l.checkpoint.revisions)
      else (l.checkpoint.before_message_id, l.checkpoint.pages, l.checkpoint.revisions)

  -- The checkpoint that was stored, and the time.
  unfoldable pub take_up :
      AcquisitionRequest → Option Lease × ℕ → M AcquisitionError (Option ℕ × ℕ × ℕ)
  take_up r (stored, now) = maybe stored (pure (none, 0, 0)) λ l.
      if str_eq l.checkpoint.state "flood_wait" && ltb now l.expires_at
      then raise AcquisitionError.deferred
      else pure (position r l)

  -- `AcquisitionEngine::resume`; the second member of what is read stands for `expires_at > now()`.
  unfoldable pub resume : AcquisitionRequest → M AcquisitionError (Option ℕ × ℕ × ℕ)
  unfolding take_up
  resume r = do
    checkpoint ← execute_alone AcquisitionError.unavailable (λ now d.
        some ((select (same_lease (acquisition_kind r.channel_id) r.run_id) d.leases, now), d))
    take_up r checkpoint

  -- `AcquisitionEngine::resolve`
  unfoldable pub resolve :
      PublicChannelProvider → AcquisitionRequest → String → Option ℕ → ℕ → ℕ → M AcquisitionError ℕ
  resolve provider r username before pages revisions = do
    answer ← ask (λ n. provider.resolve_public_channel n username)
    maybe (answer_of answer)
        (maybe (wait_of answer) (raise AcquisitionError.unavailable) λ wait. do
          checkpoint r before pages revisions "flood_wait" (some wait)
          raise AcquisitionError.deferred)
        pure

  -- `parse_window`
  unfoldable pub parse_window : AcquisitionRequest → M AcquisitionError (ℕ × ℕ)
  parse_window r =
      maybe (ext.parse_instant r.window_start) (raise AcquisitionError.unavailable) λ start.
        maybe (ext.parse_instant r.window_end) (raise AcquisitionError.unavailable)
          λ end. pure (start, end)

  abbrev pub canonical_link : String → ℕ → String
  canonical_link username id =
      concat "https://t.me/" (concat username (concat "/" (ext.id_text id)))

  -- `self.revisions.append(…)` for one post
  unfoldable pub append_post :
      AcquisitionRequest → String → ProviderPost → M AcquisitionError (Unit {0})
  append_post r username p = do
    map_err from_revision (
        append (record {
          channel_id = r.channel_id;
          provider_message_id = p.message_id;
          body = p.body;
          canonical_link = canonical_link username p.message_id;
          published_at = p.published_at;
          observed_at = r.window_end;
        }))
    pure tt

  -- One round of the loop of `store_page`: `others` and `marked` are the rest of it, without and with
  -- the post among those seen.
  unfoldable pub store_post :
      AcquisitionRequest
      → String
      → ℕ × ℕ
      → ProviderPost
      → Bool
      → M AcquisitionError Stored
      → M AcquisitionError Stored
      → M AcquisitionError Stored
  store_post r username window p is_seen others marked =
      if not (is_readable p)
      then others
      else maybe (ext.parse_instant p.published_at) (raise AcquisitionError.unavailable)
          λ published.
            if ltb published window.0
            then (do stored ← others; pure (reached_start stored))
            else if leb window.1 published || is_seen
            then others
            else (do append_post r username p; stored ← marked; pure (one_more stored))

  -- `AcquisitionEngine::store_page`: the loop over the posts
  unfoldable pub store_posts :
      AcquisitionRequest
      → String
      → ℕ × ℕ
      → List ProviderPost
      → List (ℕ × String)
      → M AcquisitionError Stored
  unfolding store_post
  store_posts r username window [] seen = pure (0, false, seen)
  store_posts r username window (p ∷ ps) seen =
      store_post r username window p (saw p.message_id (ext.sha256_text p.body) seen)
        (store_posts r username window ps seen)
        (store_posts r username window ps ((p.message_id, ext.sha256_text p.body) ∷ seen))

  -- `if withdrawn.manifests > 0`
  unfoldable pub count_withdrawn : ℕ → M AcquisitionError (Unit {0})
  count_withdrawn n = if ltb 0 n then tally (add_manifests n) else pure tt

  -- `AcquisitionEngine::withdraw_absent`
  unfoldable pub withdraw_absent : ℕ → Option ℕ → ProviderPage → M AcquisitionError (Unit {0})
  withdraw_absent channel requested_before page =
      maybe (proved_range page requested_before) (pure tt) λ proved. do
        withdrawn ←
            map_err from_revision
              (withdraw_missing channel proved (live_ids page.posts) (deleted_ids page.posts))
        count_withdrawn withdrawn.manifests
