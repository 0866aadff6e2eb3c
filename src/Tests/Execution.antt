-- ===== src/Tests/Execution.antt =====
-- The theorems on the acquisition, the executor and the retention at concrete inputs.
use Prim.Native.String.{len}
use ratatoskr_channel_digest.Prelude.{
  ◌||◌, true, false, none, some, List, [], ◌∷◌, ◌≡◌, refl, arith, length, min, All, Distinct, rows,
  contains, update, sort, insert, is_some, str_eq,
}
use ratatoskr_channel_digest.Contracts.{External, OutputLanguage}
use ratatoskr_channel_digest.Schema.{Db, empty_db, RunState, Revision}
use ratatoskr_channel_digest.Storage.{ok}
use ratatoskr_channel_digest.Provider.{Answer, ProviderPage, PublicChannelProvider}
use ratatoskr_channel_digest.Acquisition.{AcquisitionRequest, AcquisitionReport, withdraw_absent}
use ratatoskr_channel_digest.Acquisition.Withdrawal.{
  is_left, withdraw_absent-spared, withdraw_absent-withdrawn,
}
use ratatoskr_channel_digest.Maintenance.{spent_manifests, among_manifests, without_text}
use ratatoskr_channel_digest.ManifestBuilder.{
  ManifestSource, build, contract_sources, contract_source, serialize, ascending_set, distinct,
  take_chars,
}
use ratatoskr_channel_digest.ManifestBuilder.Bounds.{Describes, build-Describes}
use ratatoskr_channel_digest.Coordinator.{CanonicalManifest}
use ratatoskr_channel_digest.Executor.Execution.{PendingRun}
use ratatoskr_channel_digest.Executor.Selection.{
  selection, eligible_revisions, in_window, is_servable, same_post,
}
use ratatoskr_channel_digest.Executor.Selected.{
  same_revision, selection-length, eligible_revisions-Distinct,
}
use ratatoskr_channel_digest.Worker.{Operation, perform_all}
use ratatoskr_channel_digest.Worker.Privacy.{
  AllPrivate, IsForgotten, perform_all-IsPrivate, perform_all-IsForgotten,
}
use ratatoskr_channel_digest.Tests.{toy, world, run_in, manifest}

abbrev stored : Revision
stored = record {
  revision_id = 21;
  channel_id = 11;
  provider_message_id = 40;
  content_sha256 = "text";
  body = some "text";
  published_at = 15;
  observed_at = 20;
  canonical_link = "https://t.me/news/6";
  deleted_at = none;
  minimized_at = none;
}

abbrev gone : Revision
gone = record stored {
  revision_id = 22;
  provider_message_id = 41;
  content_sha256 = "more";
  body = none;
  deleted_at = some 25;
  minimized_at = some 25;
}

-- An owner with one channel, two revisions and a settled run.
abbrev pub digest_db : Db
digest_db = record empty_db {
  channels = record { channel_id = 11; username = "news_daily"; display_name = none } ∷ [];
  subscriptions =
      record {
        subscription_id = 12;
        owner_id = 7;
        channel_id = 11;
        first_activated_at = 5;
        enabled = true;
        updated_at = 5;
      }
      ∷ [];
  runs = run_in RunState.completed ∷ [];
  manifests = manifest ∷ [];
  revisions = stored ∷ gone ∷ [];
}

-- The instant that a text names is its length.
abbrev writer : External
writer = record toy { canonical_text = λ m. some "bb"; parse_instant = λ t. some (len t) }

-- A provider that has one page: a post that it shows, and one that it reports deleted.
abbrev pub last_page : ProviderPage
last_page = record {
  posts =
      record { message_id = 41; body = "more"; published_at = "pp"; deleted = true }
      ∷ record { message_id = 42; body = "new"; published_at = "pp"; deleted = false }
      ∷ [];
  next_before_message_id = none;
}

abbrev provider : PublicChannelProvider
provider = record {
  resolve_public_channel = λ n username. Answer.answered 3;
  fetch_public_posts = λ n channel before limit. Answer.answered last_page;
}

abbrev asked : AcquisitionRequest
asked = record {
  run_id = 1;
  channel_id = 11;
  username = "news_daily";
  window_start = "a";
  window_end = "bbb";
  max_pages = 20;
  page_size = 100;
}

abbrev day_of_work : List Operation
day_of_work = Operation.execute provider 100 ∷ Operation.sweep 0 500 ∷ []

private_db : AllPrivate digest_db
private_db = ((refl, refl), ((refl, refl), tt))

perform_all-IsPrivate_example :
    AllPrivate (perform_all ⦃ext = toy⦄ day_of_work (world 100 digest_db)).committed
perform_all-IsPrivate_example =
    perform_all-IsPrivate ⦃ext = toy⦄ day_of_work (world 100 digest_db) private_db private_db

forgotten : IsForgotten 22 digest_db.revisions
unfolding contains
forgotten = (refl, (refl, (refl, tt)))

perform_all-IsForgotten_example :
    IsForgotten 22 (perform_all ⦃ext = toy⦄ day_of_work (world 100 digest_db)).committed.revisions
perform_all-IsForgotten_example =
    perform_all-IsForgotten 22 ⦃ext = toy⦄ day_of_work (world 100 digest_db) forgotten forgotten

withdraw_absent-spared_example :
    rows
      (is_left 11 none last_page)
      (withdraw_absent ⦃ext = toy⦄ 11 none last_page (world 0 digest_db)).1.committed.revisions
    ≡ rows (is_left 11 none last_page) digest_db.revisions
withdraw_absent-spared_example =
    withdraw_absent-spared 11 none last_page ⦃ext = toy⦄ (world 0 digest_db)

withdraw_absent-withdrawn_example :
    All
      (λ r. is_left 11 none last_page r || is_some r.deleted_at ≡ true)
      (withdraw_absent ⦃ext = toy⦄ 11 none last_page (world 100 digest_db)).1.committed.revisions
withdraw_absent-withdrawn_example =
    withdraw_absent-withdrawn 11 none last_page ⦃ext = toy⦄ (world 100 digest_db) refl

abbrev swept : Db
swept = record digest_db {
  manifests =
      update (among_manifests (spent_manifests 30 5 digest_db)) (without_text 40)
        digest_db.manifests;
}

selection-length_example :
    ((selection ⦃ext = toy⦄ 100 7 10 20 digest_db).eligible
      ≡ length (eligible_revisions 7 10 20 digest_db))
    × (length (selection ⦃ext = toy⦄ 100 7 10 20 digest_db).sources
        ≡ min 100 (selection ⦃ext = toy⦄ 100 7 10 20 digest_db).eligible)
selection-length_example = selection-length ⦃ext = toy⦄ 100 7 10 20 digest_db (omega arith)

Distinct-revisions : Distinct same_revision digest_db.revisions
unfolding contains
Distinct-revisions = (refl, (refl, tt))

eligible_revisions-Distinct_example :
    Distinct same_post (eligible_revisions 7 10 20 digest_db)
    × All
        (λ r. (in_window 7 10 20 digest_db r ≡ true) × (is_servable digest_db r ≡ true))
        (eligible_revisions 7 10 20 digest_db)
eligible_revisions-Distinct_example =
    eligible_revisions-Distinct 7 10 20 digest_db Distinct-revisions

abbrev source : ManifestSource
source = record {
  revision_id = 21;
  channel_id = 11;
  channel_username = "news";
  channel_display_name = none;
  message_id = 40;
  content_sha256 = "text";
  published_at = "pp";
  canonical_link = "https://t.me/news/6";
  body = "text";
  revision_index = 1;
}

abbrev made : CanonicalManifest
made = record {
  manifest_id = 2;
  owner_id = 7;
  run_id = 1;
  text = "bb";
  sha256 = "bb";
  source_count = 1;
  channel_count = 1;
  messages = (11, 40) ∷ [];
}

builds : build ⦃ext = writer⦄ 2 7 1 "a" "bbb" (source ∷ []) ≡ ok made
unfolding build contract_sources contract_source serialize ascending_set distinct take_chars sort
    insert contains str_eq
builds = refl

build-Describes_example : Describes ⦃ext = writer⦄ 2 7 1 (source ∷ []) made
build-Describes_example = build-Describes ⦃ext = writer⦄ 2 7 1 (source ∷ []) "a" "bbb" made builds

abbrev pending : PendingRun
pending = record {
  run_id = 1;
  owner_id = 7;
  window_start = "a";
  window_end = "bbb";
  language = OutputLanguage.en;
  state = RunState.acquiring;
  operation_id = 9;
}

abbrev report : AcquisitionReport
report = record { pages = 1; revisions = 1; partial = false }
