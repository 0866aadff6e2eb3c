-- ===== src/Api.antt =====
-- src/api.rs: the authorization of a request and the reads that are scoped to an owner.
pub mod ConstantTime
pub mod Scope
pub mod Claims
pub mod Listing
pub mod Router
pub mod Served
use ratatoskr_channel_digest.Prelude.{
  ℕ, zero, suc, ◌+◌, ◌*◌, ◌/◌, ◌%◌, ◌^◌, String, min, max, Bool, true, false, not, ◌&&◌, ◌||◌,
  Option, none, some, List, [], ◌∷◌, length, ltb, ◌==◌, str_eq, strip_prefix, maybe, if◌then◌else◌,
  holds, select, rows, sort, take, map, is_some,
}
use ratatoskr_channel_digest.Contracts.{Bytes, External}
use ratatoskr_channel_digest.Schema.{
  Db, Manifest, DigestResult, RunState, state_eq, Subscription, Channel,
}
use ratatoskr_channel_digest.Storage.{Result, ok, err, World, M, query, lift, pure, ◌>>=◌}
use ratatoskr_channel_digest.ResultReader.{
  Value, KnowledgeResultProjection, KnowledgeResultReadError, Upstream, read,
}

-- `^` and `|` on words of the given width, bit by bit.
unfoldable pub xor : ℕ → ℕ → ℕ → ℕ
xor zero a b = 0
xor (suc w) a b = (a + b) % 2 + 2 * xor w (a / 2) (b / 2)

unfoldable pub or : ℕ → ℕ → ℕ → ℕ
or zero a b = 0
or (suc w) a b = max (a % 2) (b % 2) + 2 * or w (a / 2) (b / 2)

-- `get(index).copied().unwrap_or(0)`
unfoldable pub byte_at : Bytes → ℕ → ℕ
byte_at [] index = 0
byte_at (b ∷ bs) zero = b
byte_at (b ∷ bs) (suc index) = byte_at bs index

-- The loop over the indices that are left.
unfoldable pub differences : Bytes → Bytes → ℕ → ℕ → ℕ → ℕ
unfolding xor or byte_at
differences left right zero index difference = difference
differences left right (suc n) index difference =
    differences left right n (suc index)
      (or 64 difference (xor 8 (byte_at left index) (byte_at right index)))

unfoldable pub constant_time_equal : Bytes → Bytes → Bool
unfolding differences xor
constant_time_equal left right =
    differences left right (max (length left) (length right)) 0
      (xor 64 (length left) (length right))
    == 0

-- The parsers of the contract crates, and the bytes of a text.
pub record ApiParsers : Type 0 where
  pub as_bytes : String → Bytes
  pub parse_user : String → Option ℕ
  pub parse_run : String → Option ℕ
  pub parse_digest : String → Option String
  pub parses_subscription : String → Bool
  pub parses_username : String → Bool
  pub parses_result : String → Bool
  pub parses_failure_class : String → Bool
  pub parses_instant : ℕ → Bool

-- A status without a body, or a body with the status 200.
pub data Response (A : Type 0) : Type 0 where
  status : ℕ → Response A
  body : A → Response A

-- An error of a handler is its answer too.
abbrev pub answer_with : {A : Type 0} → Result (Response A) (Response A) → Response A
answer_with (ok r) = r
answer_with (err r) = r

-- `checked_page_size`
unfoldable pub checked_page_size : ℕ → ℕ → Result ℕ ℕ
checked_page_size page_limit page_size =
    if page_size == 0 || ltb 100 page_size then err 400 else ok (min page_size page_limit)

-- A refused page size is the answer.
abbrev pub page_limit_of : {A : Type 0} → ℕ → ℕ → Result (Response A) ℕ
page_limit_of page_limit page_size = elim (checked_page_size page_limit page_size) [
  | err s ↦ err (Response.status s)
  | ok limit ↦ ok limit
]

-- A digest result that the API shows.
pub record ResultView : Type 0 where
  pub result_id : ℕ
  pub run_id : ℕ
  pub outcome : RunState
  pub recap_id : Option ℕ
  pub citation_count : Option ℕ
  pub result_digest : Option String
  pub recap : Option Bytes
  pub safe_failure_class : Option String

pub record SubscriptionView : Type 0 where
  pub subscription_id : ℕ
  pub channel_username : String
  pub enabled : Bool

-- `outcome_of`: a state that ends a run
abbrev pub is_outcome : RunState → Bool
is_outcome s =
    state_eq s RunState.completed || state_eq s RunState.partial || state_eq s RunState.failed

abbrev pub read_status : KnowledgeResultReadError → ℕ
read_status KnowledgeResultReadError.unavailable = 503
read_status KnowledgeResultReadError.invalid = 502

-- `and_then` on an optional header
abbrev pub parsed : {A : Type 0} → (String → Option A) → Option String → Option A
parsed f none = none
parsed f (some t) = f t

-- `order by s.first_activated_at desc, s.subscription_id desc`
abbrev pub activated_later : Subscription → Subscription → Bool
activated_later a b =
    ltb b.first_activated_at a.first_activated_at
    || a.first_activated_at == b.first_activated_at && ltb b.subscription_id a.subscription_id

abbrev pub joined : Db → Subscription → Subscription × Option Channel
joined d s = (s, select (λ (c : Channel). c.channel_id == s.channel_id) d.channels)

-- The subscriptions of the owner that a page shows, each joined with its channel.
unfoldable pub subscription_rows : ℕ → ℕ → Db → List (Subscription × Option Channel)
subscription_rows owner limit d = map (joined d) (
    take limit (
      sort activated_later (
        rows
          (λ (s : Subscription).
            s.owner_id == owner
            && is_some (select (λ (c : Channel). c.channel_id == s.channel_id) d.channels))
          d.subscriptions)))

-- `where manifest_id = $1 and owner_id = $2 and run_id = $3 and sha256 = $4`
abbrev pub is_claimed : ℕ → ℕ → ℕ → String → Manifest → Bool
is_claimed manifest owner run digest m =
    m.manifest_id == manifest && m.owner_id == owner && m.run_id == run && str_eq m.sha256 digest

abbrev pub manifest_response : Option Manifest → Response String
manifest_response none = Response.status 404
manifest_response (some m) = elim m.canonical_text [
  | none ↦ Response.status 410
  | some text ↦ Response.body text
]

abbrev pub is_result_of : ℕ → ℕ → DigestResult → Bool
is_result_of result owner r = r.result_id == result && r.owner_id == owner

module _ ⦃ext : External⦄ ⦃parse : ApiParsers⦄ where
  -- `authorize`: the header, as far as it is a text, against the secret
  unfoldable pub authorize : String → Option String → Bool
  unfolding constant_time_equal
  authorize secret header = elim header [
    | none ↦ false
    | some value ↦
        holds (λ v. constant_time_equal (parse.as_bytes v) (parse.as_bytes secret))
          (strip_prefix "Bearer " value)
  ]

  -- `require_owner`: none is unauthorized
  unfoldable pub require_owner : Option String → Option ℕ
  require_owner header = parsed parse.parse_user header

  -- A view of every row, or none where a stored value does not parse.
  unfoldable pub subscription_views :
      List (Subscription × Option Channel) → Option (List SubscriptionView)
  subscription_views [] = some []
  subscription_views ((s, none) ∷ rest) = none
  subscription_views ((s, some c) ∷ rest) = elim (subscription_views rest) [
    | none ↦ none
    | some views ↦
        if parse.parses_subscription (ext.uuid_text s.subscription_id)
          && parse.parses_username c.username
        then some (
            record {
              subscription_id = s.subscription_id;
              channel_username = c.username;
              enabled = s.enabled;
            }
            ∷ views)
        else none
  ]

  abbrev pub subscriptions_response :
      List (Subscription × Option Channel) → Response (List SubscriptionView)
  subscriptions_response found = elim (subscription_views found) [
    | none ↦ Response.status 500
    | some v ↦ Response.body v
  ]

  -- `list_subscriptions`
  unfoldable pub list_subscriptions :
      ℕ → ℕ → ℕ → M (Response (List SubscriptionView)) (Response (List SubscriptionView))
  unfolding checked_page_size subscription_rows subscription_views
  list_subscriptions page_limit owner page_size = do
    limit ← lift (page_limit_of page_limit page_size)
    found ← query (Response.status 503) (subscription_rows owner limit)
    pure (subscriptions_response found)

  -- `get_manifest`, of the texts of its two claims
  unfoldable pub get_manifest :
      ℕ → ℕ → Option String → Option String → M (Response String) (Response String)
  get_manifest owner manifest run_header digest_header =
      maybe (parsed parse.parse_run run_header) (pure (Response.status 404)) λ run.
        maybe (parsed parse.parse_digest digest_header) (pure (Response.status 404)) λ digest. do
          row ←
              query (Response.status 503)
                (λ db. select (is_claimed manifest owner run digest) db.manifests)
          pure (manifest_response row)

  -- The failure class of a failed result, which must be a known one.
  abbrev pub failed_view : DigestResult → Result ℕ ResultView
  failed_view row =
      if holds (λ c. not (parse.parses_failure_class c)) row.safe_failure_class
      then err 500
      else ok (record {
        result_id = row.result_id;
        run_id = row.run_id;
        outcome = row.outcome;
        recap_id = none;
        citation_count = none;
        result_digest = none;
        recap = none;
        safe_failure_class = row.safe_failure_class;
      })

  abbrev pub recap_view : DigestResult → ℕ → KnowledgeResultProjection → Result ℕ ResultView
  recap_view row recap_id p = elim p.recap [
    | none ↦ err 502
    | some members ↦
        if not (ltb row.citation_count (2 ^ 16))
        then err 500
        else elim (parse.parse_digest p.result_digest_hex) [
          | none ↦ err 502
          | some hex ↦ ok (record {
            result_id = row.result_id;
            run_id = row.run_id;
            outcome = row.outcome;
            recap_id = some recap_id;
            citation_count = some row.citation_count;
            result_digest = some hex;
            recap = some members;
            safe_failure_class = none;
          })
        ]
  ]

  -- `result_view`
  unfoldable pub result_view : Upstream → DigestResult → Result ℕ ResultView
  unfolding read
  result_view upstream row =
      if not (parse.parses_result (ext.uuid_text row.result_id))
        || not (ext.parses_run_id (ext.uuid_text row.run_id))
        || not (is_outcome row.outcome)
      then err 500
      else if state_eq row.outcome RunState.failed
      then failed_view row
      else elim row.recap_id [
        | none ↦ err 502
        | some recap_id ↦ elim row.result_digest_hex [
          | none ↦ err 502
          | some hex ↦ elim (read upstream recap_id hex) [
            | err e ↦ err (read_status e)
            | ok p ↦ recap_view row recap_id p
          ]
        ]
      ]

  abbrev pub result_response : Upstream → Option DigestResult → Response ResultView
  result_response upstream none = Response.status 404
  result_response upstream (some row) = elim (result_view upstream row) [
    | ok v ↦ Response.body v
    | err s ↦ Response.status s
  ]

  -- `get_result`
  unfoldable pub get_result : Upstream → ℕ → ℕ → M (Response ResultView) (Response ResultView)
  get_result upstream owner result = do
    row ← query (Response.status 503) (λ db. select (is_result_of result owner) db.results)
    pure (result_response upstream row)
