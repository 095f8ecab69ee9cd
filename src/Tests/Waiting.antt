-- ===== src/Tests/Waiting.antt =====
-- Watchers, keys and subscriptions at concrete data.
use natsclient_cpp.Base.{◌≡◌, refl, zero, suc, none, some, pos, negsuc, [], ◌∷◌, codes, arith}
use natsclient_cpp.Nats.{string_view, Returns, ok, undefined}
use natsclient_cpp.Error.{to_string, nats_error}
use natsclient_cpp.Kv.Watcher
use natsclient_cpp.Kv.Watcher.{KvWatcher}
use natsclient_cpp.Kv.Watcher.Updates.{Answers, next-Answers}
use natsclient_cpp.Kv.KeysList
use natsclient_cpp.Kv.KeysList.{KvKeysList}
use natsclient_cpp.Kv.KeysList.Keys.{ArrayFrom, keys-take}
use natsclient_cpp.MessageView.{NatsMessageView}
use natsclient_cpp.SubscriptionSync
use natsclient_cpp.SubscriptionSync.{NatsSubscriptionSync}
use natsclient_cpp.SubscriptionSync.Counts
use natsclient_cpp.SubscriptionSync.Status.{
  Promises, PromisesNamed, polling-Promises, commands-PromisesNamed, counts-PromisesNamed,
}
use natsclient_cpp.Nats.{StatusCall}
use natsclient_cpp.Tests.{State, start, hand_out, library, key_names}

abbrev watcher : KvWatcher
watcher = record { ptr = 4; s = none }

abbrev called : StatusCall → State
called c = record start { calls = c ∷ [] }

-- An update arrives.
next-Answers_example :
    Returns
      (λ (r, after) t.
        Answers (library 0 none) 0 1 r
        × (after ≡ record { ptr = 4; s = some 0 })
        × (t ≡ (hand_out 0 0 start).2))
      (Watcher.next (library 0 none) watcher (pos 100) start)
next-Answers_example = next-Answers (library 0 none) watcher (pos 100) start

stop_message :
    to_string (nats_error (library 3 none) 3 (codes "Failed to stop KV watcher."))
    ≡ codes "NATS error 3: Failure - Failed to stop KV watcher."
unfolding to_string nats_error
stop_message = refl

abbrev two_keys : KvKeysList
two_keys = record { kl = record { keys = 9; count = pos 2 } }

array : ArrayFrom (library 0 none) 9 0 key_names start
array zero k e = ground arith
array (suc zero) k e = ground arith
array (suc (suc j)) k e = ground arith

keys-take_example : KeysList.keys (library 0 none) two_keys start ≡ ok key_names start
keys-take_example = keys-take (library 0 none) two_keys key_names start array (omega arith)

-- A count past the end of the array.
keys_past_end :
    KeysList.keys (library 0 none) (record { kl = record { keys = 9; count = pos 3 } }) start
    ≡ undefined
unfolding KeysList.keys
keys_past_end = refl

abbrev sub : NatsSubscriptionSync
sub = record { ptr = 5; s = none }

-- A poll that fails, by a time-out say.
polling-Promises_example :
    Promises
      (library 26 none)
      sub
      26
      (λ (m : NatsMessageView). m.ptr ≡ 0)
      start
      (SubscriptionSync.next_msg (library 26 none) sub (pos 1000) start)
    × Promises
        (library 26 none)
        sub
        26
        (λ _. Unit {0})
        (called (StatusCall.no_delivery_delay 5))
        (SubscriptionSync.no_delivery_delay (library 26 none) sub start)
    × Promises
        (library 26 none)
        sub
        26
        (λ n. n ≡ pos 7)
        start
        (SubscriptionSync.queued_msgs (library 26 none) sub start)
polling-Promises_example = polling-Promises (library 26 none) sub (pos 1000) start

-- The commands fail, and the subscription has no subject.
commands-PromisesNamed_example :
    PromisesNamed
      (library 3 none)
      sub
      3
      (λ _. Unit {0})
      (called (StatusCall.auto_unsubscribe 5 (pos 2)))
      (SubscriptionSync.auto_unsunscribe (library 3 none) sub (pos 2) start)
    × PromisesNamed
        (library 3 none)
        sub
        3
        (λ _. Unit {0})
        (called (StatusCall.drain 5))
        (SubscriptionSync.drain (library 3 none) sub start)
    × PromisesNamed
        (library 3 none)
        sub
        3
        (λ _. Unit {0})
        (called (StatusCall.drain_timeout 5 (pos 2)))
        (SubscriptionSync.drain_timeout (library 3 none) sub (pos 2) start)
    × PromisesNamed
        (library 3 none)
        sub
        3
        (λ _. Unit {0})
        (called (StatusCall.wait_for_drain_completion 5 (pos 2)))
        (SubscriptionSync.wait_for_drain_completion (library 3 none) sub (pos 2) start)
    × PromisesNamed
        (library 3 none)
        sub
        3
        (λ _. Unit {0})
        (called (StatusCall.set_pending_limits 5 (pos 2) (negsuc 0)))
        (Counts.set_pending_limits (library 3 none) sub (pos 2) (negsuc 0) start)
commands-PromisesNamed_example =
    commands-PromisesNamed (library 3 none) sub (pos 2) (negsuc 0) start

-- The drain of a subscription without a subject.
drain_undefined : SubscriptionSync.drain (library 3 none) sub start ≡ undefined
unfolding SubscriptionSync.drain SubscriptionSync.subject string_view
drain_undefined = refl

counts-PromisesNamed_example :
    PromisesNamed
      (library 0 none)
      sub
      0
      (λ n. n ≡ pos 7)
      start
      (Counts.get_dropped (library 0 none) sub start)
    × PromisesNamed
        (library 0 none)
        sub
        0
        (λ n. n ≡ pos 7)
        start
        (Counts.get_delivered (library 0 none) sub start)
    × PromisesNamed
        (library 0 none)
        sub
        0
        (λ (p : Counts.MaxPending). (p.msgs ≡ pos 3) × (p.bytes ≡ pos 40))
        start
        (Counts.get_max_pending (library 0 none) sub start)
    × PromisesNamed
        (library 0 none)
        sub
        0
        (λ (p : Counts.Pending). (p.msgs ≡ pos 3) × (p.bytes ≡ pos 40))
        start
        (Counts.get_pending (library 0 none) sub start)
    × PromisesNamed
        (library 0 none)
        sub
        0
        (λ (p : Counts.PendingLimits). (p.msgs ≡ pos 3) × (p.bytes ≡ pos 40))
        start
        (Counts.get_pending_limits (library 0 none) sub start)
counts-PromisesNamed_example = counts-PromisesNamed (library 0 none) sub start
