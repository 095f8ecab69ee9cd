-- ===== src/SubscriptionSync/Operation.antt =====
-- The operations of a subscription that open no handle (include/nats_client/SubscriptionSync.hpp), as
-- steps.
use natsclient_cpp.Base.{◌≡◌, ℤ}
use natsclient_cpp.Nats.{NatsStatus, Library, ok}
use natsclient_cpp.Error.{Expected}
use natsclient_cpp.SubscriptionSync.{
  NatsSubscriptionSync, no_delivery_delay, queued_msgs, auto_unsunscribe, drain, drain_timeout,
  wait_for_drain_completion, drain_completion_status,
}
use natsclient_cpp.SubscriptionSync.Counts.{
  MaxPending, Pending, PendingLimits, get_max_pending, get_dropped, get_delivered, get_pending,
  get_pending_limits, set_pending_limits,
}

-- A run that returns, with the object and the library's state before and after.
pub data Operation {S : Type 0} (nats : Library S) (x : NatsSubscriptionSync) (s : S)
    (y : NatsSubscriptionSync) (s' : S) : Type 0 where
  sets_no_delay :
      (r : Expected (Unit {0}))
      → no_delivery_delay nats x s ≡ ok (r, y) s'
      → Operation nats x s y s'
  counts_queued : (r : Expected (ℤ)) → queued_msgs nats x s ≡ ok (r, y) s' → Operation nats x s y s'
  limits_messages :
      (max : ℤ) (r : Expected (Unit {0}))
      → auto_unsunscribe nats x max s ≡ ok (r, y) s'
      → Operation nats x s y s'
  drains : (r : Expected (Unit {0})) → drain nats x s ≡ ok (r, y) s' → Operation nats x s y s'
  drains_in_time :
      (timeout : ℤ) (r : Expected (Unit {0}))
      → drain_timeout nats x timeout s ≡ ok (r, y) s'
      → Operation nats x s y s'
  waits_for_drain :
      (timeout : ℤ) (r : Expected (Unit {0}))
      → wait_for_drain_completion nats x timeout s ≡ ok (r, y) s'
      → Operation nats x s y s'
  sets_limits :
      (msgs bytes : ℤ) (r : Expected (Unit {0}))
      → set_pending_limits nats x msgs bytes s ≡ ok (r, y) s'
      → Operation nats x s y s'
  reads_max_pending :
      (r : Expected (MaxPending))
      → get_max_pending nats x s ≡ ok (r, y) s'
      → Operation nats x s y s'
  reads_pending :
      (r : Expected (Pending)) → get_pending nats x s ≡ ok (r, y) s' → Operation nats x s y s'
  reads_limits :
      (r : Expected (PendingLimits))
      → get_pending_limits nats x s ≡ ok (r, y) s'
      → Operation nats x s y s'
  counts_dropped :
      (r : Expected (ℤ)) → get_dropped nats x s ≡ ok (r, y) s' → Operation nats x s y s'
  counts_delivered :
      (r : Expected (ℤ)) → get_delivered nats x s ≡ ok (r, y) s' → Operation nats x s y s'
  reads_drain_status :
      (r : NatsStatus)
      → drain_completion_status nats x s ≡ ok r s'
      → y ≡ x
      → Operation nats x s y s'
