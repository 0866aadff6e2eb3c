-- ===== src/Provider/Telegram.antt =====
-- src/provider.rs: `MtProtoPublicChannelProvider`, the provider over the Telegram client. The client and
-- the decoder of a session are an interface.
use ratatoskr_channel_digest.Prelude.{
  ℕ, ◌-◌, ◌+◌, ◌^◌, String, Bool, false, not, ◌&&◌, Option, none, some, List, [], ◌∷◌, min, ltb,
  leb, if◌then◌else◌, maybe,
}
use ratatoskr_channel_digest.Contracts.{Bytes}
use ratatoskr_channel_digest.Storage.{Result, ok, err, and_then, convert}
use ratatoskr_channel_digest.Provider.{
  ProviderError, ProviderPost, ProviderPage, InvocationError, classify_invocation_error, page_of,
}

-- A channel of Telegram as far as the source looks at it; `to_ref` may fail, or have none.
pub record ChannelPeer : Type 0 where
  pub bare_id : Option ℕ
  pub title : String
  pub to_ref : Option (Option ℕ)

pub data Peer : Type 0 where
  channel : ChannelPeer → Peer
  user group : Peer

-- A message of the client; its identity, an i32, is the number that is 2^31 above it.
pub record ClientMessage : Type 0 where
  pub id : ℕ
  pub text : String
  pub date : String

-- `grammers`: the home of a session is none where its bytes do not decode or the home is negative, which
-- is refused alike; whether a client is authorized is none where it could not say so in time; the
-- messages of a channel end with an error, or with the last that was asked for.
pub record TelegramClient : Type 0 where
  pub home_dc : Bytes → Option ℕ
  pub is_authorized : ℕ → Bytes → Option Bool
  pub resolve_username : String → Result InvocationError (Option Peer)
  pub iter_messages : ℕ → ℕ → ℕ → List (Result InvocationError ClientMessage)

-- `ResolvedPublicChannel`
pub record ResolvedPublicChannel : Type 0 where
  pub provider_channel_id : ℕ
  pub username : String
  pub display_name : String
  pub peer_ref : ℕ

abbrev pub ok_or : {A : Type 0} → Option A → ProviderError → Result ProviderError A
ok_or none e = err e
ok_or (some a) e = ok a

-- 0 as an i32, and as an i64.
abbrev pub zero_i32 : ℕ
zero_i32 = 2 ^ 31

abbrev pub zero_i64 : ℕ
zero_i64 = 2 ^ 63

-- `i32::try_from(value).ok()` of an i64
abbrev pub to_i32 : ℕ → Option ℕ
to_i32 value =
    if leb (zero_i64 - zero_i32) value && ltb value (zero_i64 + zero_i32)
    then some (value - (zero_i64 - zero_i32))
    else none

-- `and_then(…).unwrap_or(0)`
abbrev pub offset_of : Option ℕ → ℕ
offset_of none = zero_i32
offset_of (some value) = maybe (to_i32 value) zero_i32 λ offset. offset

abbrev pub post_of : ClientMessage → ProviderPost
post_of m = record {
  message_id = m.id + (zero_i64 - zero_i32);
  body = m.text;
  published_at = m.date;
  deleted = false;
}

-- The loop over the messages of a page.
unfoldable pub collect_posts :
    List (Result InvocationError ClientMessage) → Result ProviderError (List ProviderPost)
collect_posts [] = ok []
collect_posts (err e ∷ rest) = err (classify_invocation_error e)
collect_posts (ok m ∷ rest) = and_then (collect_posts rest) λ posts. ok (post_of m ∷ posts)

unfoldable pub resolved : String → Peer → Result ProviderError ResolvedPublicChannel
resolved username Peer.user = err ProviderError.invalid_channel
resolved username Peer.group = err ProviderError.invalid_channel
resolved username (Peer.channel c) = and_then (ok_or c.bare_id ProviderError.invalid_channel) λ id.
    and_then (ok_or c.to_ref ProviderError.unavailable) λ found.
      and_then (ok_or found ProviderError.invalid_channel) λ peer. ok (record {
        provider_channel_id = id;
        username = username;
        display_name = c.title;
        peer_ref = peer;
      })

module _ (client : TelegramClient) where
  -- `MtProtoPublicChannelProvider::connect`
  unfoldable pub connect : ℕ → Bytes → Result ProviderError (Unit {0})
  connect api_id session =
      and_then (ok_or (client.home_dc session) ProviderError.reauthorization_required) λ dc.
        if not (leb 1 dc && leb dc 5)
        then err ProviderError.reauthorization_required
        else and_then (ok_or (client.is_authorized api_id session) ProviderError.unavailable)
            λ authorized. if authorized then ok tt else err ProviderError.reauthorization_required

  -- `resolve_public_channel`
  unfoldable pub resolve_public_channel : String → Result ProviderError ResolvedPublicChannel
  unfolding resolved classify_invocation_error
  resolve_public_channel username =
      and_then (convert classify_invocation_error (client.resolve_username username))
        λ found. and_then (ok_or found ProviderError.invalid_channel) λ peer. resolved username peer

  -- `fetch_public_posts`
  unfoldable pub fetch_public_posts :
      ResolvedPublicChannel → Option ℕ → ℕ → Result ProviderError ProviderPage
  unfolding collect_posts page_of
  fetch_public_posts c before_message_id limit =
      and_then
        (collect_posts
          (client.iter_messages c.peer_ref (offset_of before_message_id) (min limit 100)))
        λ posts. ok (page_of limit posts)
