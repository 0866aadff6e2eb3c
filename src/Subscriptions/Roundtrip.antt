-- ===== src/Subscriptions/Roundtrip.antt =====
-- What is set is what is read.
use ratatoskr_channel_digest.Schema.{Subscription as Row}
use ratatoskr_channel_digest.Subscriptions.{Subscription}
