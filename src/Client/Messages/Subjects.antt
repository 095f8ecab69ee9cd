-- ===== src/Client/Messages/Subjects.antt =====
-- What the subscribing and publishing operations ask of the library.
use natsclient_cpp.Base.{◌≡◌, none, some, ◌∷◌, ◌++◌, Text, arith}
use natsclient_cpp.Nats.{
  Ptr, StatusCall, HandleCall, TextCall, null, Library, View, c_string, undefined, string_view,
}
use natsclient_cpp.Nats.Views.{NoNul, view, c_text, c_text-view}
use natsclient_cpp.Error.{nats_error}
use natsclient_cpp.SubscriptionSync
use natsclient_cpp.SubscriptionSync.{NatsSubscriptionSync}
use natsclient_cpp.Client.{NatsClient}
use natsclient_cpp.Client.Outcomes.{Yields, YieldsNamed}
use natsclient_cpp.Client.Messages.{
  subscribe_sync, queue_subscribe_sync, unsubscribe, publish, publish_bytes,
}

-- A new wrapper that holds the subscription.
abbrev pub Subscribed : Ptr → NatsSubscriptionSync → Type 0
Subscribed p sub = sub ≡ SubscriptionSync.construct p

module _ {S : Type 0} (nats : Library S) (self : NatsClient) where
  publish-c_text :
      (subject content : View) (s : S) {t : Text}
      → c_text subject ≡ some (some t)
      → let out = nats.call (StatusCall.publish self.conn (some t) content.bytes content.size) s in
        Yields nats out.0
          (λ _. Unit {0})
          (record self { s = some out.0 })
          out.1
          (publish nats self subject content s)
  unfolding publish c_text c_string nats_error
  publish-c_text subject content s e = ground arith

  publish_bytes-c_text :
      (subject content : View) (s : S) {t : Text}
      → c_text subject ≡ some (some t)
      → let out = nats.call (StatusCall.publish self.conn (some t) content.bytes content.size) s in
        Yields nats out.0
          (λ _. Unit {0})
          (record self { s = some out.0 })
          out.1
          (publish_bytes nats self subject content s)
  unfolding publish_bytes c_text c_string nats_error
  publish_bytes-c_text subject content s e = ground arith

  pub publish-view :
      (t more rest : Text) (content : View) (s : S)
      → NoNul t
      → NoNul more
      → let subject = view t (more ++ 0 ∷ rest) in
        let out =
          nats.call
            (StatusCall.publish self.conn (some (t ++ more)) content.bytes content.size)
            s in
        Yields nats out.0
          (λ _. Unit {0})
          (record self { s = some out.0 })
          out.1
          (publish nats self subject content s)
        × Yields nats out.0
            (λ _. Unit {0})
            (record self { s = some out.0 })
            out.1
            (publish_bytes nats self subject content s)
  publish-view t more rest content s h k = (
    publish-c_text _ content s (c_text-view t more rest h k),
    publish_bytes-c_text _ content s (c_text-view t more rest h k),
  )

  subscribe_sync-c_text :
      (subject : View) (s : S) {t : Text}
      → c_text subject ≡ some (some t)
      → let out = nats.open_handle (HandleCall.subscribe_sync self.conn (some t)) null s in
        Yields nats out.0
          (Subscribed out.1)
          (record self { s = some out.0 })
          out.2
          (subscribe_sync nats self subject s)
  unfolding subscribe_sync c_text c_string nats_error
  subscribe_sync-c_text subject s e = ground arith

  queue_subscribe_sync-c_text :
      (subject group : View) (s : S) {t g : Text}
      → c_text subject ≡ some (some t)
      → c_text group ≡ some (some g)
      → let out =
          nats.open_handle (HandleCall.queue_subscribe_sync self.conn (some t) (some g)) null s in
        Yields nats out.0
          (Subscribed out.1)
          (record self { s = some out.0 })
          out.2
          (queue_subscribe_sync nats self subject group s)
  unfolding queue_subscribe_sync c_text c_string nats_error
  queue_subscribe_sync-c_text subject group s e f = ground arith

  -- With a subject and a group that are views of `t` and `g`, where `more` and `extra` follow up to a
  -- NUL, `subscribe_sync` asks for the subject `t ++ more`, and `queue_subscribe_sync` also for the
  -- group `g ++ extra`. Each always returns: on success the one wrapper of the subscription that the
  -- library made, else an error with its status and text. The client keeps the status and the rest.
  pub subscribe-view :
      (t more rest g extra rest' : Text) (s : S)
      → NoNul t
      → NoNul more
      → NoNul g
      → NoNul extra
      → let subject = view t (more ++ 0 ∷ rest) in
        let group = view g (extra ++ 0 ∷ rest') in
        let one =
          nats.open_handle (HandleCall.subscribe_sync self.conn (some (t ++ more))) null s in
        let many =
          nats.open_handle
            (HandleCall.queue_subscribe_sync self.conn (some (t ++ more)) (some (g ++ extra)))
            null
            s in
        Yields nats one.0
          (Subscribed one.1)
          (record self { s = some one.0 })
          one.2
          (subscribe_sync nats self subject s)
        × Yields nats many.0
            (Subscribed many.1)
            (record self { s = some many.0 })
            many.2
            (queue_subscribe_sync nats self subject group s)
  subscribe-view t more rest g extra rest' s h k h' k' = (
    subscribe_sync-c_text _ s (c_text-view t more rest h k),
    queue_subscribe_sync-c_text _ _ s (c_text-view t more rest h k)
        (c_text-view g extra rest' h' k'),
  )

  -- A subject with no NUL behind it in its memory cannot be read by the library: subscribing to it and
  -- publishing on it are undefined, with a string or with bytes.
  messages-undefined :
      (subject content : View) (s : S)
      → c_text subject ≡ none
      → (publish nats self subject content s ≡ undefined)
        × (publish_bytes nats self subject content s ≡ undefined)
        × (subscribe_sync nats self subject s ≡ undefined)
        × (queue_subscribe_sync nats self subject content s ≡ undefined)
  unfolding publish publish_bytes subscribe_sync queue_subscribe_sync c_text c_string
  messages-undefined subject content s e = ground arith

  -- `unsubscribe` ends the subscription of the wrapper by one call and reports its status, which the
  -- client keeps; the wrapper is left as it is. It is undefined exactly if the call fails and the
  -- library then has no subject for the subscription, which the message of the error names.
  pub unsubscribe-YieldsNamed :
      (sub : NatsSubscriptionSync) (s : S)
      → let out = nats.call (StatusCall.unsubscribe sub.ptr) s in
        YieldsNamed nats
          (nats.text (TextCall.subscription_subject sub.ptr) out.1)
          out.0
          (λ _. Unit {0})
          (record self { s = some out.0 })
          out.1
          (unsubscribe nats self sub s)
  unfolding unsubscribe SubscriptionSync.subject string_view nats_error
  unsubscribe-YieldsNamed sub s = ground arith
