-- ===== src/SubscriptionSync.antt =====
-- `NatsSubscriptionSync` (include/nats_client/SubscriptionSync.hpp): a subscription that is polled.
pub mod Ownership
pub mod Counts
pub mod Status
pub mod Operation
use natsclient_cpp.Base.{
  ℤ, pos, Bool, Option, none, some, Text, codes, decimal_int, ◌++◌, ◌==◌, ◌!=◌, if◌then◌else◌,
}
use natsclient_cpp.Nats.{
  Ptr, null, NatsStatus, Kind, StatusCall, HandleCall, CounterCall, LimitsCall, TextCall,
  NumberCall, Library, M, pure, ◌>>=◌, ◌>>◌, returning, writing, reading, effect, View, text,
  string_view,
}
use natsclient_cpp.Error.{nats_error, Expected, expected, unexpected, success}
use natsclient_cpp.Handle.{Addr, Memory, put, object}
use natsclient_cpp.MessageView
use natsclient_cpp.MessageView.{NatsMessageView}

-- `s` is indeterminate (`none`) until a call sets it.
pub record NatsSubscriptionSync : Type 0 where
  pub ptr : Ptr
  pub s : Option NatsStatus

unfoldable pub construct : Ptr → NatsSubscriptionSync
construct sub = record { ptr = sub; s = none }

-- The new object, and the one that it was moved from. `s` does not move.
unfoldable pub move_construct : NatsSubscriptionSync → NatsSubscriptionSync × NatsSubscriptionSync
move_construct other = (record { ptr = other.ptr; s = none }, record other { ptr = null })

module _ {S : Type 0} (nats : Library S) where
  -- The object as the body leaves it.
  unfoldable pub destruct : NatsSubscriptionSync → M S NatsSubscriptionSync
  destruct self =
      if self.ptr != null
      then (do effect (nats.destroy Kind.subscription self.ptr); pure (record self { ptr = null }))
      else pure self

  unfoldable pub move_assign :
      Addr → Addr → Memory NatsSubscriptionSync → M S (Memory NatsSubscriptionSync)
  move_assign this other m =
      if this != other
      then (do
        self ← object m this
        if self.ptr != null then effect (nats.destroy Kind.subscription self.ptr) else pure tt
        from ← object m other
        pure (
            put (put m this (some (record self { ptr = from.ptr }))) other
              (some (record from { ptr = null }))))
      else pure m

  -- Each method below that sets `s` returns its result and the object after the call.
  abbrev pub Outcome : Type 0 → Type 0
  Outcome A = M S (Expected A × NatsSubscriptionSync)

  unfoldable pub next_msg : NatsSubscriptionSync → ℤ → Outcome NatsMessageView
  unfolding MessageView.construct
  next_msg self timeout_ms = do
    (s, msg) ← writing (nats.open_handle (HandleCall.next_msg self.ptr timeout_ms) null)
    let self' : NatsSubscriptionSync = record self { s = some s }
    if s != nats.nats_ok
        then pure (
          unexpected (nats_error nats s (codes "Failed to get next message from subscription.")),
          self',
        )
        else pure (expected (MessageView.construct msg), self')

  unfoldable pub get_id : NatsSubscriptionSync → M S ℤ
  get_id self = reading (nats.number (NumberCall.subscription_id self.ptr))

  unfoldable pub no_delivery_delay : NatsSubscriptionSync → Outcome (Unit {0})
  no_delivery_delay self = do
    s ← returning (nats.call (StatusCall.no_delivery_delay self.ptr))
    let self' : NatsSubscriptionSync = record self { s = some s }
    if s != nats.nats_ok
        then pure (unexpected (nats_error nats s (codes "Failed to set no delivery delay.")), self')
        else pure (success, self')

  unfoldable pub queued_msgs : NatsSubscriptionSync → Outcome ℤ
  queued_msgs self = do
    (s, count) ← writing (nats.counter (CounterCall.queued_msgs self.ptr) (pos 0))
    let self' : NatsSubscriptionSync = record self { s = some s }
    if s != nats.nats_ok
        then pure
            (unexpected (nats_error nats s (codes "Failed to get queued messages count.")), self')
        else pure (expected count, self')

  unfoldable pub subject : NatsSubscriptionSync → M S View
  subject self = do
    str ← reading (nats.text (TextCall.subscription_subject self.ptr))
    string_view str

  unfoldable pub is_valid : NatsSubscriptionSync → M S Bool
  is_valid self = reading (nats.is_valid self.ptr)

  unfoldable pub auto_unsunscribe : NatsSubscriptionSync → ℤ → Outcome (Unit {0})
  auto_unsunscribe self max = do
    s ← returning (nats.call (StatusCall.auto_unsubscribe self.ptr max))
    let self' : NatsSubscriptionSync = record self { s = some s }
    if s != nats.nats_ok
        then (do
          v ← subject self'
          let message : Text =
              codes "Failed to set auto unsubscribe to "
              ++ (decimal_int max ++ (codes " for subscription [" ++ (text v ++ codes "].")))
          pure (unexpected (nats_error nats s message), self'))
        else pure (success, self')

  unfoldable pub drain : NatsSubscriptionSync → Outcome (Unit {0})
  drain self = do
    s ← returning (nats.call (StatusCall.drain self.ptr))
    let self' : NatsSubscriptionSync = record self { s = some s }
    if s != nats.nats_ok
        then (do
          v ← subject self'
          let message : Text = codes "Failed to drain subscription [" ++ (text v ++ codes "].")
          pure (unexpected (nats_error nats s message), self'))
        else pure (success, self')

  unfoldable pub drain_timeout : NatsSubscriptionSync → ℤ → Outcome (Unit {0})
  drain_timeout self timeout_ms = do
    s ← returning (nats.call (StatusCall.drain_timeout self.ptr timeout_ms))
    let self' : NatsSubscriptionSync = record self { s = some s }
    if s != nats.nats_ok
        then (do
          v ← subject self'
          let message : Text = codes "Failed to drain subscription [" ++ (text v ++ codes "].")
          pure (unexpected (nats_error nats s message), self'))
        else pure (success, self')

  unfoldable pub wait_for_drain_completion : NatsSubscriptionSync → ℤ → Outcome (Unit {0})
  wait_for_drain_completion self timeout_ms = do
    s ← returning (nats.call (StatusCall.wait_for_drain_completion self.ptr timeout_ms))
    let self' : NatsSubscriptionSync = record self { s = some s }
    if s != nats.nats_ok
        then (do
          v ← subject self'
          let message : Text =
              codes "Failed to wait for drain completion [" ++ (text v ++ codes "].")
          pure (unexpected (nats_error nats s message), self'))
        else pure (success, self')

  -- It returns the status itself and leaves `s` alone.
  unfoldable pub drain_completion_status : NatsSubscriptionSync → M S NatsStatus
  drain_completion_status self = returning (nats.call (StatusCall.drain_completion_status self.ptr))
