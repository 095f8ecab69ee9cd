-- ===== src/SubscriptionSync/Status.antt =====
-- What the methods of `NatsSubscriptionSync` report, and when they have a defined outcome.
use natsclient_cpp.Base.{◌≡◌, ◌≢◌, ◌⊎◌, ℤ, pos, none, some, arith}
use natsclient_cpp.Nats.{
  NatsStatus, StatusCall, HandleCall, CounterCall, LimitsCall, TextCall, Library, Run, ok,
  undefined, null, Returns, string_view,
}
use natsclient_cpp.Error.{Expected, nats_error, Fits}
use natsclient_cpp.SubscriptionSync.{
  NatsSubscriptionSync, next_msg, no_delivery_delay, queued_msgs, auto_unsunscribe, drain,
  drain_timeout, wait_for_drain_completion, subject,
}
use natsclient_cpp.SubscriptionSync.Counts.{
  get_max_pending, get_dropped, get_delivered, get_pending, get_pending_limits, set_pending_limits,
}

module _ {S : Type 0} (nats : Library S) (self : NatsSubscriptionSync) where
  -- The method returns, its result fits, it has remembered the status and nothing else, and the
  -- library is in the state that the one call left.
  abbrev pub Promises :
      {A : Type 0}
      → NatsStatus
      → (A → Type 0)
      → S
      → Run S (Expected A × NatsSubscriptionSync)
      → Type 0
  Promises st V after =
      Returns λ (r, self') t. Fits nats st V r × (self' ≡ record self { s = some st }) × (t ≡ after)

  -- Likewise where an error names the subject. The outcome is defined if the call succeeds or the
  -- library has a subject for the subscription, and undefined if the call fails and it has none.
  abbrev pub PromisesNamed :
      {A : Type 0}
      → NatsStatus
      → (A → Type 0)
      → S
      → Run S (Expected A × NatsSubscriptionSync)
      → Type 0
  PromisesNamed st V after (ok (r, self') t) =
      Fits nats st V r
      × (self' ≡ record self { s = some st })
      × (t ≡ after)
      × ((st ≡ nats.nats_ok) ⊎ (nats.text (TextCall.subscription_subject self.ptr) after ≢ none))
  PromisesNamed st V after undefined =
      (st ≢ nats.nats_ok) × (nats.text (TextCall.subscription_subject self.ptr) after ≡ none)

  -- `next_msg`, `no_delivery_delay` and `queued_msgs` always return. A value means that the library
  -- succeeded, and is the message or the count that it wrote; an error carries the library's status
  -- and text. The wrapper keeps its subscription and remembers the status.
  pub polling-Promises :
      (timeout_ms : ℤ) (s : S)
      → (let out = nats.open_handle (HandleCall.next_msg self.ptr timeout_ms) null s in
          Promises out.0 (λ m. m.ptr ≡ out.1) out.2 (next_msg nats self timeout_ms s))
        × (let out = nats.call (StatusCall.no_delivery_delay self.ptr) s in
            Promises out.0 (λ _. Unit {0}) out.1 (no_delivery_delay nats self s))
        × (let out = nats.counter (CounterCall.queued_msgs self.ptr) (pos 0) s in
            Promises out.0 (λ n. n ≡ out.1) out.2 (queued_msgs nats self s))
  unfolding next_msg no_delivery_delay queued_msgs nats_error
  polling-Promises timeout_ms s = (ground arith, ground arith, ground arith)

  -- `auto_unsunscribe`, `drain`, `drain_timeout`, `wait_for_drain_completion` and
  -- `set_pending_limits` return exactly if their call succeeds or the library has a subject for the
  -- subscription; else they are undefined, since the message of the error asks for it. A success
  -- means that the library succeeded, an error carries its status and text, and the wrapper keeps its
  -- subscription and remembers the status.
  pub commands-PromisesNamed :
      (n m : ℤ) (s : S)
      → (let out = nats.call (StatusCall.auto_unsubscribe self.ptr n) s in
          PromisesNamed out.0 (λ _. Unit {0}) out.1 (auto_unsunscribe nats self n s))
        × (let out = nats.call (StatusCall.drain self.ptr) s in
            PromisesNamed out.0 (λ _. Unit {0}) out.1 (drain nats self s))
        × (let out = nats.call (StatusCall.drain_timeout self.ptr n) s in
            PromisesNamed out.0 (λ _. Unit {0}) out.1 (drain_timeout nats self n s))
        × (let out = nats.call (StatusCall.wait_for_drain_completion self.ptr n) s in
            PromisesNamed out.0 (λ _. Unit {0}) out.1 (wait_for_drain_completion nats self n s))
        × (let out = nats.call (StatusCall.set_pending_limits self.ptr n m) s in
            PromisesNamed out.0 (λ _. Unit {0}) out.1 (set_pending_limits nats self n m s))
  unfolding auto_unsunscribe drain drain_timeout wait_for_drain_completion set_pending_limits
      nats_error subject string_view
  commands-PromisesNamed n m s =
      (ground arith, ground arith, ground arith, ground arith, ground arith)

  -- `get_dropped`, `get_delivered`, `get_max_pending`, `get_pending` and `get_pending_limits`
  -- likewise return exactly if their call succeeds or there is a subject; a value is what the library
  -- wrote over the zeros that it was given, each number in its own field.
  pub counts-PromisesNamed :
      (s : S)
      → (let out = nats.counter (CounterCall.get_dropped self.ptr) (pos 0) s in
          PromisesNamed out.0 (λ n. n ≡ out.1) out.2 (get_dropped nats self s))
        × (let out = nats.counter (CounterCall.get_delivered self.ptr) (pos 0) s in
            PromisesNamed out.0 (λ n. n ≡ out.1) out.2 (get_delivered nats self s))
        × (let out = nats.limits (LimitsCall.get_max_pending self.ptr) (pos 0) (pos 0) s in
            PromisesNamed out.0
              (λ p. (p.msgs ≡ out.1) × (p.bytes ≡ out.2))
              out.3
              (get_max_pending nats self s))
        × (let out = nats.limits (LimitsCall.get_pending self.ptr) (pos 0) (pos 0) s in
            PromisesNamed out.0
              (λ p. (p.msgs ≡ out.1) × (p.bytes ≡ out.2))
              out.3
              (get_pending nats self s))
        × (let out = nats.limits (LimitsCall.get_pending_limits self.ptr) (pos 0) (pos 0) s in
            PromisesNamed out.0
              (λ p. (p.msgs ≡ out.1) × (p.bytes ≡ out.2))
              out.3
              (get_pending_limits nats self s))
  unfolding get_dropped get_delivered get_max_pending get_pending get_pending_limits nats_error
      subject string_view
  counts-PromisesNamed s = (ground arith, ground arith, ground arith, ground arith, ground arith)
