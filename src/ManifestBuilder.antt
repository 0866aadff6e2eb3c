-- ===== src/ManifestBuilder.antt =====
-- src/manifest.rs: `ManifestBuilder::build`, from the selected revisions to the canonical manifest.
pub mod Bounds
use Prim.Native.Nat.{Ordering}
use Prim.Native.String.{compare, len}
use ratatoskr_channel_digest.Prelude.{
  ℕ, zero, suc, ◌-◌, ◌^◌, String, concat, Bool, true, false, not, ◌&&◌, ◌||◌, Option, none, some,
  List, [], ◌∷◌, map, ltb, ◌==◌, str_eq, if◌then◌else◌, length, contains, sort,
}
use ratatoskr_channel_digest.Contracts.{ContractSource, ContractManifest, External}
use ratatoskr_channel_digest.Storage.{Result, ok, err, and_then}
use ratatoskr_channel_digest.Coordinator.{CanonicalManifest}

pub record ManifestSource : Type 0 where
  pub revision_id : ℕ
  pub channel_id : ℕ
  pub channel_username : String
  pub channel_display_name : Option String
  pub message_id : ℕ
  pub content_sha256 : String
  pub published_at : String
  pub canonical_link : String
  pub body : String
  pub revision_index : ℕ

pub data ManifestError : Type 0 where
  limit invalid : ManifestError

-- `collect::<BTreeSet<_>>()`: ascending, without repetition
module _ {A : Type 0} (eq before : A → A → Bool) where
  unfoldable pub distinct : List A → List A
  distinct [] = []
  distinct (x ∷ xs) = let rest = distinct xs in if contains (eq x) rest then rest else x ∷ rest

  unfoldable pub ascending_set : List A → List A
  unfolding distinct
  ascending_set xs = sort before (distinct xs)

abbrev pub same_pair : ℕ × ℕ → ℕ × ℕ → Bool
same_pair a b = a.0 == b.0 && a.1 == b.1

abbrev pub pair_before : ℕ × ℕ → ℕ × ℕ → Bool
pair_before a b = ltb a.0 b.0 || a.0 == b.0 && ltb a.1 b.1

abbrev pub message_of : ManifestSource → ℕ × ℕ
message_of s = (s.channel_id, s.message_id)

-- `chars().take(n)`
unfoldable pub take_chars : ℕ → String → String
take_chars zero s = String.[]
take_chars (suc n) String.[] = String.[]
take_chars (suc n) (String.◌∷◌ c s) = String.◌∷◌ c (take_chars n s)

-- `source.message_id.parse().unwrap_or(u128::MAX)`: a negative id does not parse.
abbrev pub numeric_id : ℕ → ℕ
numeric_id id = if ltb id (2 ^ 63) then 2 ^ 128 - 1 else id - 2 ^ 63

abbrev pub text_before : String → String → Bool
text_before a b = elim (compare a b) [ Ordering.lt ↦ true | _ ↦ false ]

-- The lexicographic order of `order_key`
unfoldable pub is_before : ContractSource → ContractSource → Bool
is_before a b =
    ltb a.published_at b.published_at
    || a.published_at == b.published_at
      && (text_before a.channel_ref b.channel_ref
          || str_eq a.channel_ref b.channel_ref
            && (ltb (numeric_id a.message_id) (numeric_id b.message_id)
                || numeric_id a.message_id == numeric_id b.message_id && ltb a.revision b.revision))

module _ ⦃ext : External⦄ where
  -- `instant`
  abbrev pub instant : String → Result ManifestError ℕ
  instant raw = elim (ext.parse_wire raw) [ none ↦ err ManifestError.invalid | some at ↦ ok at ]

  -- The display name, trimmed and not empty, or the username.
  abbrev pub name_of : ManifestSource → String
  name_of s = elim s.channel_display_name [
    | none ↦ s.channel_username
    | some name ↦ if len (ext.trim name) == 0 then s.channel_username else ext.trim name
  ]

  abbrev pub expected_link : ManifestSource → String
  expected_link s =
      concat "https://t.me/" (concat s.channel_username (concat "/" (ext.id_text s.message_id)))

  -- `contract_source`
  unfoldable pub contract_source : ManifestSource → Result ManifestError ContractSource
  unfolding take_chars
  contract_source s =
      if ltb ext.max_content_bytes (len s.body)
      then err ManifestError.limit
      else if not (str_eq s.canonical_link (expected_link s))
          || not (str_eq s.content_sha256 (ext.sha256_text s.body))
      then err ManifestError.invalid
      else and_then (instant s.published_at) λ published.
        if ext.parses_digest_hex (ext.sha256_text s.body)
        then ok (record {
          revision_ref = concat "channel-post-revision:" (ext.uuid_text s.revision_id);
          channel_ref = concat "telegram-public-channel:" (ext.uuid_text s.channel_id);
          channel_label = take_chars 80 (name_of s);
          message_id = s.message_id;
          published_at = published;
          content = s.body;
          content_digest = ext.sha256_text s.body;
          public_link = some s.canonical_link;
          revision = s.revision_index;
        })
        else err ManifestError.invalid

  -- `.map(contract_source).collect::<Result<Vec<_>, _>>()`
  unfoldable pub contract_sources : List ManifestSource → Result ManifestError (List ContractSource)
  unfolding contract_source
  contract_sources [] = ok []
  contract_sources (s ∷ ss) =
      and_then (contract_source s) λ first. and_then (contract_sources ss) λ rest. ok (first ∷ rest)

  abbrev pub channels_of : List ManifestSource → List ℕ
  channels_of sources = ascending_set ◌==◌ ltb (map (λ (s : ManifestSource). s.channel_id) sources)

  abbrev pub contract_manifest : ℕ → ℕ → ℕ → ℕ → ℕ → List ContractSource → ContractManifest
  contract_manifest manifest owner run start end selected = record {
    manifest_ref = concat "channel-digest-manifest:" (ext.uuid_text manifest);
    owner = owner;
    digest_run_id = ext.uuid_text run;
    window_start = start;
    window_end = end;
    sources = sort is_before selected;
  }

  abbrev pub built :
      ℕ → ℕ → ℕ → List ManifestSource → List ContractSource → String → CanonicalManifest
  built manifest owner run sources selected text = record {
    manifest_id = manifest;
    owner_id = owner;
    run_id = run;
    text = text;
    sha256 = ext.sha256_text text;
    source_count = length selected;
    channel_count = length (channels_of sources);
    messages = ascending_set same_pair pair_before (map message_of sources);
  }

  -- The identities parse, and the manifest has a canonical text.
  unfoldable pub serialize :
      ℕ → ℕ → ℕ → List ManifestSource → ContractManifest → Result ManifestError CanonicalManifest
  serialize manifest owner run sources m =
      if ext.parses_manifest_ref m.manifest_ref && ext.parses_run_id m.digest_run_id
      then elim (ext.canonical_text m) [
        | none ↦ err ManifestError.invalid
        | some text ↦ ok (built manifest owner run sources m.sources text)
      ]
      else err ManifestError.invalid

  -- `ManifestBuilder::build`
  unfoldable pub build :
      ℕ → ℕ → ℕ → String → String → List ManifestSource → Result ManifestError CanonicalManifest
  unfolding contract_sources serialize ascending_set
  build manifest owner run window_start window_end sources =
      if ltb ext.max_sources (length sources) || ltb ext.max_channels (length (channels_of sources))
      then err ManifestError.limit
      else and_then (instant window_start) λ start. and_then (instant window_end) λ end.
        if not (ext.window_valid start end)
        then err ManifestError.invalid
        else and_then (contract_sources sources) λ selected.
          serialize manifest owner run sources
            (contract_manifest manifest owner run start end selected)
