-- ===== src/SubscriptionSync/Counts.antt =====
-- The counters and limits of a subscription (include/nats_client/SubscriptionSync.hpp).
use natsclient_cpp.Base.{ℤ, pos, some, Text, codes, decimal_int, ◌++◌, ◌!=◌, if◌then◌else◌}
use natsclient_cpp.Nats.{
  StatusCall, CounterCall, LimitsCall, Library, pure, ◌>>=◌, returning, writing, writing_two, text,
}
use natsclient_cpp.Error.{nats_error, expected, unexpected, success}
use natsclient_cpp.SubscriptionSync.{NatsSubscriptionSync, Outcome, subject}

-- `MaxPending`, `Pending` and `PendingLimits`: three structs of the same two fields.
pub record MaxPending : Type 0 where
  pub msgs : ℤ
  pub bytes : ℤ

pub record Pending : Type 0 where
  pub msgs : ℤ
  pub bytes : ℤ

pub record PendingLimits : Type 0 where
  pub msgs : ℤ
  pub bytes : ℤ

module _ {S : Type 0} (nats : Library S) where
  unfoldable pub get_max_pending : NatsSubscriptionSync → Outcome nats MaxPending
  unfolding subject
  get_max_pending self = do
    let p : MaxPending = record { msgs = pos 0; bytes = pos 0 }
    (s, msgs, bytes) ←
        writing_two (nats.limits (LimitsCall.get_max_pending self.ptr) p.msgs p.bytes)
    let self' : NatsSubscriptionSync = record self { s = some s }
    if s != nats.nats_ok
        then (do
          v ← subject nats self'
          let message : Text =
              codes "Failed to get max pending stats for subscription [" ++ (text v ++ codes "].")
          pure (unexpected (nats_error nats s message), self'))
        else pure (expected (record { msgs = msgs; bytes = bytes }), self')

  unfoldable pub get_dropped : NatsSubscriptionSync → Outcome nats ℤ
  unfolding subject
  get_dropped self = do
    (s, count) ← writing (nats.counter (CounterCall.get_dropped self.ptr) (pos 0))
    let self' : NatsSubscriptionSync = record self { s = some s }
    if s != nats.nats_ok
        then (do
          v ← subject nats self'
          let message : Text =
              codes "Failed to get dropped count for subscription [" ++ (text v ++ codes "].")
          pure (unexpected (nats_error nats s message), self'))
        else pure (expected count, self')

  unfoldable pub get_delivered : NatsSubscriptionSync → Outcome nats ℤ
  unfolding subject
  get_delivered self = do
    (s, count) ← writing (nats.counter (CounterCall.get_delivered self.ptr) (pos 0))
    let self' : NatsSubscriptionSync = record self { s = some s }
    if s != nats.nats_ok
        then (do
          v ← subject nats self'
          let message : Text =
              codes "Failed to get delivered count for subscription [" ++ (text v ++ codes "].")
          pure (unexpected (nats_error nats s message), self'))
        else pure (expected count, self')

  unfoldable pub get_pending : NatsSubscriptionSync → Outcome nats Pending
  unfolding subject
  get_pending self = do
    let p : Pending = record { msgs = pos 0; bytes = pos 0 }
    (s, msgs, bytes) ← writing_two (nats.limits (LimitsCall.get_pending self.ptr) p.msgs p.bytes)
    let self' : NatsSubscriptionSync = record self { s = some s }
    if s != nats.nats_ok
        then (do
          v ← subject nats self'
          let message : Text =
              codes "Failed to get pending stats for subscription [" ++ (text v ++ codes "].")
          pure (unexpected (nats_error nats s message), self'))
        else pure (expected (record { msgs = msgs; bytes = bytes }), self')

  unfoldable pub get_pending_limits : NatsSubscriptionSync → Outcome nats PendingLimits
  unfolding subject
  get_pending_limits self = do
    let p : PendingLimits = record { msgs = pos 0; bytes = pos 0 }
    (s, msgs, bytes) ←
        writing_two (nats.limits (LimitsCall.get_pending_limits self.ptr) p.msgs p.bytes)
    let self' : NatsSubscriptionSync = record self { s = some s }
    if s != nats.nats_ok
        then (do
          v ← subject nats self'
          let message : Text =
              codes "Failed to get pending limits stats for subscription ["
              ++ (text v ++ codes "].")
          pure (unexpected (nats_error nats s message), self'))
        else pure (expected (record { msgs = msgs; bytes = bytes }), self')

  unfoldable pub set_pending_limits : NatsSubscriptionSync → ℤ → ℤ → Outcome nats (Unit {0})
  unfolding subject
  set_pending_limits self msgs bytes = do
    s ← returning (nats.call (StatusCall.set_pending_limits self.ptr msgs bytes))
    let self' : NatsSubscriptionSync = record self { s = some s }
    if s != nats.nats_ok
        then (do
          v ← subject nats self'
          let message : Text =
              codes "Failed to set pending limits for subscription ["
              ++ (text v
                  ++ (codes "] to "
                      ++ (decimal_int msgs
                          ++ (codes " msgs and " ++ (decimal_int bytes ++ codes " bytes.")))))
          pure (unexpected (nats_error nats s message), self'))
        else pure (success, self')
