-- ===== src/Client/Messages.antt =====
-- Subscribing and publishing (include/nats_client/Client.hpp).
pub mod Subjects
use natsclient_cpp.Base.{codes, decimal, ◌++◌}
use natsclient_cpp.Nats.{null, StatusCall, HandleCall, Library, pure, ◌>>=◌, View, text, c_string}
use natsclient_cpp.Error.{expected, success}
use natsclient_cpp.SubscriptionSync
use natsclient_cpp.SubscriptionSync.{NatsSubscriptionSync}
use natsclient_cpp.Client.{NatsClient, Outcome, attempt, attempt_open}

module _ {S : Type 0} (nats : Library S) where
  unfoldable pub subscribe_sync : NatsClient → View → Outcome nats NatsSubscriptionSync
  unfolding c_string text SubscriptionSync.construct
  subscribe_sync self subject = do
    t ← c_string subject
    attempt_open nats self (HandleCall.subscribe_sync self.conn t) null
        (pure (codes "Failed to subscribe to subject [" ++ (text subject ++ codes "].")))
        λ self sub. pure (expected (SubscriptionSync.construct sub), self)

  unfoldable pub queue_subscribe_sync : NatsClient → View → View → Outcome nats NatsSubscriptionSync
  unfolding c_string text SubscriptionSync.construct
  queue_subscribe_sync self subject queue_group = do
    t ← c_string subject
    g ← c_string queue_group
    attempt_open nats self (HandleCall.queue_subscribe_sync self.conn t g) null
        (pure (
          codes "Failed to queue subscribe to subject ["
          ++ (text subject ++ (codes "] with group [" ++ (text queue_group ++ codes "].")))))
        λ self sub. pure (expected (SubscriptionSync.construct sub), self)

  unfoldable pub unsubscribe : NatsClient → NatsSubscriptionSync → Outcome nats (Unit {0})
  unfolding text SubscriptionSync.subject
  unsubscribe self sub =
      attempt nats self (StatusCall.unsubscribe sub.ptr)
        (do
          subject ← SubscriptionSync.subject nats sub
          pure (codes "Failed to unsubscribe from subject [" ++ (text subject ++ codes "].")))
        λ self. pure (success, self)

  -- `publish(string_view, string_view)`
  unfoldable pub publish : NatsClient → View → View → Outcome nats (Unit {0})
  unfolding c_string text decimal
  publish self subject content = do
    t ← c_string subject
    attempt nats self (StatusCall.publish self.conn t content.bytes content.size)
        (pure (
          codes "Failed to publish string with "
          ++ (decimal content.size
              ++ (codes " bytes to subject [" ++ (text subject ++ codes "].")))))
        λ self. pure (success, self)

  -- `publish(string_view, span<const byte>)`
  unfoldable pub publish_bytes : NatsClient → View → View → Outcome nats (Unit {0})
  unfolding c_string text decimal
  publish_bytes self subject content = do
    t ← c_string subject
    attempt nats self (StatusCall.publish self.conn t content.bytes content.size)
        (pure (
          codes "Failed to publish "
          ++ (decimal content.size
              ++ (codes " bytes to subject [" ++ (text subject ++ codes "].")))))
        λ self. pure (success, self)
