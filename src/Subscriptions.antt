-- ===== src/Subscriptions.antt =====
-- src/subscriptions.rs: `SubscriptionRepository`, over schema.sql's `set_subscription`.
pub mod Roundtrip
use ratatoskr_channel_digest.Prelude.{
  ℕ, String, Bool, true, false, ◌&&◌, Option, none, some, ◌==◌, str_eq, if◌then◌else◌, maybe,
  select,
}
use ratatoskr_channel_digest.Contracts.{External}
use ratatoskr_channel_digest.Schema.{Db, Channel, Subscription as Row}
use ratatoskr_channel_digest.Storage.{M, Sql, pure, raise, ◌>>=◌, fresh, execute_alone, query}
use ratatoskr_channel_digest.Statements.{of_channel, set_subscription}

pub record Subscription : Type 0 where
  pub subscription_id : ℕ
  pub channel_username : String
  pub first_activated_at : ℕ
  pub enabled : Bool

pub data SubscriptionError : Type 0 where
  limit storage : SubscriptionError

-- The row of an owner's subscription to the channel of a username.
unfoldable pub subscription_of : ℕ → String → Db → Option Row
subscription_of owner username d =
    maybe (select (λ (c : Channel). str_eq c.username username) d.channels) none
      λ c. select (of_channel owner c.channel_id) d.subscriptions

abbrev pub projection : String → Row → Subscription
projection username s = record {
  subscription_id = s.subscription_id;
  channel_username = username;
  first_activated_at = s.first_activated_at;
  enabled = s.enabled;
}

-- `select … from set_subscription(…)`: the row behind the call, or none on SQLSTATE P0001, the limit.
unfoldable pub set_returning : ℕ → ℕ → ℕ → String → Bool → ℕ → Sql (Option Row)
unfolding subscription_of
set_returning id channel owner username enabled requested_at now d =
    maybe (set_subscription id channel owner username enabled requested_at d) none
      λ (changed, after).
        some (if changed then subscription_of owner username after else none, after)

module _ ⦃ext : External⦄ where
  -- `SubscriptionRepository::set`
  unfoldable pub set : ℕ → String → Bool → ℕ → M SubscriptionError Subscription
  unfolding set_returning
  set owner username enabled requested_at = do
    id ← fresh
    channel ← fresh
    row ←
        execute_alone SubscriptionError.storage
          (set_returning id channel owner (ext.lower username) enabled requested_at)
    maybe row (raise SubscriptionError.limit) λ s. pure (projection (ext.lower username) s)

  -- `SubscriptionRepository::get`
  unfoldable pub get : ℕ → String → M SubscriptionError (Option Subscription)
  unfolding subscription_of
  get owner username = do
    row ← query SubscriptionError.storage (subscription_of owner (ext.lower username))
    pure (maybe row none λ s. some (projection (ext.lower username) s))
