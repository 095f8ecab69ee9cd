-- ===== src/Heap/Polling.antt =====
-- The operations of subscriptions and watchers, and the setters of a client's options, leave the handles
-- that live alone (include/nats_client/SubscriptionSync.hpp, Kv.hpp and Options.hpp).
use natsclient_cpp.Base.{◌≡◌, ap, pos, ℤ, Bool, Option, none, some, arith}
use natsclient_cpp.Nats.{
  NatsStatus, Ptr, Kind, StatusCall, OptionCall, CounterCall, LimitsCall, Library, ok, ok-value,
  ok-state, string_view,
}
use natsclient_cpp.Error.{Expected, nats_error}
use natsclient_cpp.SubscriptionSync.{
  NatsSubscriptionSync, no_delivery_delay, queued_msgs, auto_unsunscribe, drain, drain_timeout,
  wait_for_drain_completion, drain_completion_status, subject,
}
use natsclient_cpp.SubscriptionSync.Counts.{
  MaxPending, Pending, PendingLimits, get_max_pending, get_dropped, get_delivered, get_pending,
  get_pending_limits, set_pending_limits,
}
use natsclient_cpp.SubscriptionSync.Operation.{
  Operation, sets_no_delay, counts_queued, limits_messages, drains, drains_in_time, waits_for_drain,
  sets_limits, reads_max_pending, reads_pending, reads_limits, counts_dropped, counts_delivered,
  reads_drain_status,
}
use natsclient_cpp.Kv.Watcher
use natsclient_cpp.Kv.Watcher.{KvWatcher}
use natsclient_cpp.Options.{NatsOptions}
use natsclient_cpp.Options.Setters.{Setter, run_setter}
use natsclient_cpp.Options.Chain.{answered, request, run_setter-answered}
use natsclient_cpp.Heap.Documents.{Documents, Same}

module _ {S : Type 0} (nats : Library S) (x y : NatsSubscriptionSync) (s s' : S) where
  -- The one call of an operation.
  abbrev Calls : Type 0
  Calls = (y.ptr ≡ x.ptr) × (c : StatusCall) × (s' ≡ (nats.call c s).1)

  abbrev Counts : Type 0
  Counts = (y.ptr ≡ x.ptr) × (c : CounterCall) × (s' ≡ (nats.counter c (pos 0) s).2)

  abbrev Limits : Type 0
  Limits = (y.ptr ≡ x.ptr) × (c : LimitsCall) × (s' ≡ (nats.limits c (pos 0) (pos 0) s).3)

  no_delivery_delay-Calls :
      (r : Expected (Unit {0})) → no_delivery_delay nats x s ≡ ok (r, y) s' → Calls
  unfolding no_delivery_delay nats_error subject string_view
  no_delivery_delay-Calls r e = (ground arith, StatusCall.no_delivery_delay x.ptr, ground arith)

  queued_msgs-Counts : (r : Expected (ℤ)) → queued_msgs nats x s ≡ ok (r, y) s' → Counts
  unfolding queued_msgs nats_error subject string_view
  queued_msgs-Counts r e = (ground arith, CounterCall.queued_msgs x.ptr, ground arith)

  auto_unsunscribe-Calls :
      (max : ℤ) (r : Expected (Unit {0})) → auto_unsunscribe nats x max s ≡ ok (r, y) s' → Calls
  unfolding auto_unsunscribe nats_error subject string_view
  auto_unsunscribe-Calls max r e =
      (ground arith, StatusCall.auto_unsubscribe x.ptr max, ground arith)

  drain-Calls : (r : Expected (Unit {0})) → drain nats x s ≡ ok (r, y) s' → Calls
  unfolding drain nats_error subject string_view
  drain-Calls r e = (ground arith, StatusCall.drain x.ptr, ground arith)

  drain_timeout-Calls :
      (timeout : ℤ) (r : Expected (Unit {0}))
      → drain_timeout nats x timeout s ≡ ok (r, y) s'
      → Calls
  unfolding drain_timeout nats_error subject string_view
  drain_timeout-Calls timeout r e =
      (ground arith, StatusCall.drain_timeout x.ptr timeout, ground arith)

  wait_for_drain_completion-Calls :
      (timeout : ℤ) (r : Expected (Unit {0}))
      → wait_for_drain_completion nats x timeout s ≡ ok (r, y) s'
      → Calls
  unfolding wait_for_drain_completion nats_error subject string_view
  wait_for_drain_completion-Calls timeout r e =
      (ground arith, StatusCall.wait_for_drain_completion x.ptr timeout, ground arith)

  set_pending_limits-Calls :
      (msgs bytes : ℤ) (r : Expected (Unit {0}))
      → set_pending_limits nats x msgs bytes s ≡ ok (r, y) s'
      → Calls
  unfolding set_pending_limits nats_error subject string_view
  set_pending_limits-Calls msgs bytes r e =
      (ground arith, StatusCall.set_pending_limits x.ptr msgs bytes, ground arith)

  get_max_pending-Limits :
      (r : Expected (MaxPending)) → get_max_pending nats x s ≡ ok (r, y) s' → Limits
  unfolding get_max_pending nats_error subject string_view
  get_max_pending-Limits r e = (ground arith, LimitsCall.get_max_pending x.ptr, ground arith)

  get_pending-Limits : (r : Expected (Pending)) → get_pending nats x s ≡ ok (r, y) s' → Limits
  unfolding get_pending nats_error subject string_view
  get_pending-Limits r e = (ground arith, LimitsCall.get_pending x.ptr, ground arith)

  get_pending_limits-Limits :
      (r : Expected (PendingLimits)) → get_pending_limits nats x s ≡ ok (r, y) s' → Limits
  unfolding get_pending_limits nats_error subject string_view
  get_pending_limits-Limits r e = (ground arith, LimitsCall.get_pending_limits x.ptr, ground arith)

  get_dropped-Counts : (r : Expected (ℤ)) → get_dropped nats x s ≡ ok (r, y) s' → Counts
  unfolding get_dropped nats_error subject string_view
  get_dropped-Counts r e = (ground arith, CounterCall.get_dropped x.ptr, ground arith)

  get_delivered-Counts : (r : Expected (ℤ)) → get_delivered nats x s ≡ ok (r, y) s' → Counts
  unfolding get_delivered nats_error subject string_view
  get_delivered-Counts r e = (ground arith, CounterCall.get_delivered x.ptr, ground arith)

  status-Calls : (r : NatsStatus) → drain_completion_status nats x s ≡ ok r s' → y ≡ x → Calls
  unfolding drain_completion_status
  status-Calls r e same =
      (ap (λ o. o.ptr) same, StatusCall.drain_completion_status x.ptr, ground arith)

module _ {S : Type 0} {nats : Library S} {live : Kind → Ptr → S → Bool}
    (docs : Documents nats live) where
  module _ (x y : NatsSubscriptionSync) (s s' : S) where
    Calls-Same : Calls nats x y s s' → (y.ptr ≡ x.ptr) × Same live s s'
    Calls-Same (e, c, es) = (e, rw es (docs.call_same c s))

    Counts-Same : Counts nats x y s s' → (y.ptr ≡ x.ptr) × Same live s s'
    Counts-Same (e, c, es) = (e, rw es (docs.counter_same c (pos 0) s))

    Limits-Same : Limits nats x y s s' → (y.ptr ≡ x.ptr) × Same live s s'
    Limits-Same (e, c, es) = (e, rw es (docs.limits_same c (pos 0) (pos 0) s))

    -- The object keeps its subscription.
    pub Operation-Same : Operation nats x s y s' → (y.ptr ≡ x.ptr) × Same live s s'
    Operation-Same (sets_no_delay r e) = Calls-Same (no_delivery_delay-Calls nats x y s s' r e)
    Operation-Same (counts_queued r e) = Counts-Same (queued_msgs-Counts nats x y s s' r e)
    Operation-Same (limits_messages max r e) =
        Calls-Same (auto_unsunscribe-Calls nats x y s s' max r e)
    Operation-Same (drains r e) = Calls-Same (drain-Calls nats x y s s' r e)
    Operation-Same (drains_in_time timeout r e) =
        Calls-Same (drain_timeout-Calls nats x y s s' timeout r e)
    Operation-Same (waits_for_drain timeout r e) =
        Calls-Same (wait_for_drain_completion-Calls nats x y s s' timeout r e)
    Operation-Same (sets_limits msgs bytes r e) =
        Calls-Same (set_pending_limits-Calls nats x y s s' msgs bytes r e)
    Operation-Same (reads_max_pending r e) = Limits-Same (get_max_pending-Limits nats x y s s' r e)
    Operation-Same (reads_pending r e) = Limits-Same (get_pending-Limits nats x y s s' r e)
    Operation-Same (reads_limits r e) = Limits-Same (get_pending_limits-Limits nats x y s s' r e)
    Operation-Same (counts_dropped r e) = Counts-Same (get_dropped-Counts nats x y s s' r e)
    Operation-Same (counts_delivered r e) = Counts-Same (get_delivered-Counts nats x y s s' r e)
    Operation-Same (reads_drain_status r e same) = Calls-Same (status-Calls nats x y s s' r e same)

  pub stop-Same :
      (x y : KvWatcher) (r : Expected (Unit {0})) (s s' : S)
      → Watcher.stop nats x s ≡ ok (r, y) s'
      → (y.ptr ≡ x.ptr) × Same live s s'
  unfolding Watcher.stop nats_error
  stop-Same x y r s s' e =
      let (same, es) = stop-calls x y r s s' e in
      (same, rw es (docs.call_same (StatusCall.watcher_stop x.ptr) s))
    where
      stop-calls :
          (x y : KvWatcher) (r : Expected (Unit {0})) (s s' : S)
          → Watcher.stop nats x s ≡ ok (r, y) s'
          → (y.ptr ≡ x.ptr) × (s' ≡ (nats.call (StatusCall.watcher_stop x.ptr) s).1)
      stop-calls x y r s s' e = ground arith

  -- The options keep their C options.
  pub run_setter-Same :
      (setter : Setter) (o o' : NatsOptions) (s s' : S)
      → run_setter nats setter o s ≡ ok o' s'
      → (o'.ptr ≡ o.ptr) × Same live s s'
  run_setter-Same setter o o' s s' e =
      by (request setter) (rw e at (run_setter-answered nats setter o s))
    where
      by :
          (c : Option OptionCall)
          → ok o' s' ≡ answered nats o c s
          → (o'.ptr ≡ o.ptr) × Same live s s'
      by none d = absurd (cc)
      by (some c) d = (
        ap (λ o. o.ptr) (ok-value d),
        rw (ok-state d) (docs.call_same (StatusCall.option o.ptr c) s),
      )
