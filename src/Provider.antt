-- ===== src/Provider.antt =====
-- src/provider.rs: the public-channel capability, and what the MTProto adapter makes of the answers of
-- the Telegram client.
pub mod Telegram
use Prim.Native.Char.{code}
use Prim.Native.String.{len}
use ratatoskr_channel_digest.Prelude.{
  ℕ, String, Bool, true, false, not, ◌&&◌, ◌||◌, Option, none, some, List, [], ◌∷◌, leb, ◌==◌,
  if◌then◌else◌, length,
}

pub data ProviderError : Type 0 where
  invalid_channel reauthorization_required unavailable : ProviderError
  flood_wait : ℕ → ProviderError

abbrev pub is_lower : ℕ → Bool
is_lower c = leb 97 c && leb c 122

abbrev pub is_upper : ℕ → Bool
is_upper c = leb 65 c && leb c 90

abbrev pub is_digit : ℕ → Bool
is_digit c = leb 48 c && leb c 57

abbrev pub is_username_char : ℕ → Bool
is_username_char c = is_lower c || is_digit c || c == 95

-- `first().is_some_and(u8::is_ascii_alphabetic)`
unfoldable pub starts_alphabetic : String → Bool
starts_alphabetic String.[] = false
starts_alphabetic (String.◌∷◌ c s) = is_lower (code c) || is_upper (code c)

-- No byte is outside of the alphabet; a character beyond ASCII has only such bytes.
unfoldable pub all_username_chars : String → Bool
all_username_chars String.[] = true
all_username_chars (String.◌∷◌ c s) = is_username_char (code c) && all_username_chars s

-- `PublicChannelUsername::parse`
unfoldable pub parse_username : String → Option String
unfolding starts_alphabetic all_username_chars
parse_username candidate =
    if not (leb 5 (len candidate) && leb (len candidate) 32)
      || not (starts_alphabetic candidate)
      || not (all_username_chars candidate)
    then none
    else some candidate

pub record ProviderPost : Type 0 where
  pub message_id : ℕ
  pub body : String
  pub published_at : String
  pub deleted : Bool

pub record ProviderPage : Type 0 where
  pub posts : List ProviderPost
  pub next_before_message_id : Option ℕ

-- What a call of the provider under a timeout ends with.
pub data Answer (A : Type 0) : Type 0 where
  answered : A → Answer A
  refused : ProviderError → Answer A
  timed_out : Answer A

-- `PublicChannelProvider`: the first argument is the number of the call, so that the same question
-- may have another answer later. A resolved channel is a number.
pub record PublicChannelProvider : Type 0 where
  pub resolve_public_channel : ℕ → String → Answer ℕ
  pub fetch_public_posts : ℕ → ℕ → Option ℕ → ℕ → Answer ProviderPage

module _ {A : Type 0} where
  abbrev pub answer_of : Answer A → Option A
  answer_of (Answer.answered a) = some a
  answer_of _ = none

  abbrev pub wait_of : Answer A → Option ℕ
  wait_of (Answer.refused (ProviderError.flood_wait seconds)) = some seconds
  wait_of _ = none

-- grammers: an RPC error with its code and value, or another failure.
pub data InvocationError : Type 0 where
  rpc : ℕ → Option ℕ → InvocationError
  other : InvocationError

-- `classify_invocation_error`
unfoldable pub classify_invocation_error : InvocationError → ProviderError
classify_invocation_error InvocationError.other = ProviderError.unavailable
classify_invocation_error (InvocationError.rpc code value) =
    if code == 420
    then elim value [ none ↦ ProviderError.unavailable | some s ↦ ProviderError.flood_wait s ]
    else if code == 401
    then ProviderError.reauthorization_required
    else ProviderError.unavailable

unfoldable pub last_id : List ProviderPost → Option ℕ
last_id [] = none
last_id (p ∷ []) = some p.message_id
last_id (p ∷ q ∷ ps) = last_id (q ∷ ps)

-- `fetch_public_posts` behind its iterator: the messages read, at most `limit.min(100)` of them.
unfoldable pub page_of : ℕ → List ProviderPost → ProviderPage
page_of limit posts = record {
  posts = posts;
  next_before_message_id = if length posts == limit then last_id posts else none;
}
