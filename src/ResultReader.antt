-- ===== src/ResultReader.antt =====
-- src/result_reader.rs: `KnowledgeResultReader::read`, which checks that a recap of the Knowledge service
-- is the one that was asked for. The response of the HTTP client is an argument.
pub mod Linkage
use Prim.Native.Char.{code}
use Prim.Native.String
use Prim.Native.String.{len}
use ratatoskr_channel_digest.Prelude.{
  ℕ, ◌+◌, ◌-◌, ◌^◌, String, Bool, true, false, not, ◌&&◌, ◌||◌, Option, none, some, List, [], ◌∷◌,
  ◌++◌, min, ltb, leb, ◌==◌, str_eq, if◌then◌else◌, is_some, holds, length,
}
use ratatoskr_channel_digest.Contracts.{Bytes, External}
use ratatoskr_channel_digest.Storage.{Result, ok, err, and_then}

-- A JSON value: the members of an object, or none of another value.
abbrev pub Value : Type 0
Value = Option Bytes

pub record KnowledgeResultProjection : Type 0 where
  pub analysis_id : ℕ
  pub result_digest_hex : String
  pub recap : Value

pub data KnowledgeResultReadError : Type 0 where
  unavailable invalid : KnowledgeResultReadError

pub record KnowledgeEnvelope : Type 0 where
  pub analysis_id : ℕ
  pub algorithm : String
  pub hex : String
  pub recap : Value

-- What the client answers with; a chunk that could not be read is none.
pub record HttpResponse : Type 0 where
  pub status : ℕ
  pub content_type : Option String
  pub content_length : Option ℕ
  pub chunks : List (Option Bytes)

-- `reqwest` and `serde_json`: no answer where the request could not be sent.
pub record Upstream : Type 0 where
  pub send : ℕ → Option HttpResponse
  pub decode : Bytes → Option KnowledgeEnvelope
  pub max_response_bytes : ℕ

abbrev pub is_hex_digit : ℕ → Bool
is_hex_digit c = leb 48 c && leb c 57 || leb 97 c && leb c 102

unfoldable pub all_hex_digits : String → Bool
all_hex_digits String.[] = true
all_hex_digits (String.◌∷◌ c s) = is_hex_digit (code c) && all_hex_digits s

-- `is_sha256_hex`
unfoldable pub is_sha256_hex : String → Bool
unfolding all_hex_digits
is_sha256_hex value = len value == 64 && all_hex_digits value

-- `split(';').next()`
unfoldable pub before_semicolon : String → String
before_semicolon String.[] = String.[]
before_semicolon (String.◌∷◌ c s) =
    let rest = String.◌∷◌ c (before_semicolon s) in if code c == 59 then String.[] else rest

abbrev pub saturating_add : ℕ → ℕ → ℕ
saturating_add a b = min (2 ^ 64 - 1) (a + b)

-- The loop over the chunks of the body.
unfoldable pub collect : ℕ → Bytes → List (Option Bytes) → Result KnowledgeResultReadError Bytes
collect limit bytes [] = ok bytes
collect limit bytes (none ∷ chunks) = err KnowledgeResultReadError.unavailable
collect limit bytes (some chunk ∷ chunks) =
    let rest = collect limit (bytes ++ chunk) chunks in
    if ltb limit (saturating_add (length bytes) (length chunk))
    then err KnowledgeResultReadError.invalid
    else rest

-- The envelope is that of another analysis or digest, or has no recap.
unfoldable pub is_unlinked : ℕ → String → KnowledgeEnvelope → Bool
unfolding is_sha256_hex
is_unlinked analysis expected e =
    not (e.analysis_id == analysis)
    || not (str_eq e.algorithm "sha256")
    || not (is_sha256_hex e.hex)
    || not (str_eq e.hex expected)
    || not (is_some e.recap)

-- From the decoded body to the projection.
unfoldable pub linked :
    ℕ
    → String
    → Option KnowledgeEnvelope
    → Result KnowledgeResultReadError KnowledgeResultProjection
linked analysis expected none = err KnowledgeResultReadError.invalid
linked analysis expected (some e) =
    if is_unlinked analysis expected e
    then err KnowledgeResultReadError.invalid
    else ok (record { analysis_id = analysis; result_digest_hex = e.hex; recap = e.recap })

module _ ⦃ext : External⦄ (upstream : Upstream) where
  abbrev pub is_json : String → Bool
  is_json value = str_eq (ext.lower (ext.trim (before_semicolon value))) "application/json"

  -- Behind the request: the checks of the response and of its body.
  unfoldable pub accept :
      ℕ → String → HttpResponse → Result KnowledgeResultReadError KnowledgeResultProjection
  unfolding collect linked before_semicolon
  accept analysis expected response =
      if leb 500 response.status && ltb response.status 600
      then err KnowledgeResultReadError.unavailable
      else if not (response.status == 200)
      then err KnowledgeResultReadError.invalid
      else if not (holds is_json response.content_type)
      then err KnowledgeResultReadError.invalid
      else if holds (ltb upstream.max_response_bytes) response.content_length
      then err KnowledgeResultReadError.invalid
      else and_then (collect upstream.max_response_bytes [] response.chunks)
          λ bytes. linked analysis expected (upstream.decode bytes)

  -- `KnowledgeResultReader::read`
  unfoldable pub read : ℕ → String → Result KnowledgeResultReadError KnowledgeResultProjection
  unfolding accept is_sha256_hex
  read analysis expected =
      if not (is_sha256_hex expected)
      then err KnowledgeResultReadError.invalid
      else elim (upstream.send analysis) [
        | none ↦ err KnowledgeResultReadError.unavailable
        | some response ↦ accept analysis expected response
      ]
