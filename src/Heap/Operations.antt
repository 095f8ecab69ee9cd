-- ===== src/Heap/Operations.antt =====
-- What the operations that return objects (include/nats_client) ask of the library, whenever they return.
use natsclient_cpp.Base.{◌≡◌, refl, Option, none, some, ◌⊎◌, inl, inr, arith}
use natsclient_cpp.Nats.{
  Ptr, null, CString, KvWatchOptions, HandleCall, Library, ok, View, c_string, string_view,
}
use natsclient_cpp.Nats.Views.{c_text}
use natsclient_cpp.Error.{Expected, Fits, nats_error}
use natsclient_cpp.SubscriptionSync
use natsclient_cpp.SubscriptionSync.{NatsSubscriptionSync}
use natsclient_cpp.Client.{NatsClient}
use natsclient_cpp.Client.Messages.{subscribe_sync, queue_subscribe_sync}
use natsclient_cpp.Client.Buckets.{kvs_bind, kvs_watch}
use natsclient_cpp.Client.Entries.{kv_get}
use natsclient_cpp.Kv.Store
use natsclient_cpp.Kv.Store.{KvStore}
use natsclient_cpp.Kv.Entry
use natsclient_cpp.Kv.Entry.{KvEntry}
use natsclient_cpp.Kv.Watcher
use natsclient_cpp.Kv.Watcher.{KvWatcher}

pub text_cases : (v : View) → (c_text v ≡ none) ⊎ ((t : CString) × (c_text v ≡ some t))
text_cases v = by (c_text v) refl
  where
    by :
        (o : Option CString)
        → c_text v ≡ o
        → (c_text v ≡ none) ⊎ ((t : CString) × (c_text v ≡ some t))
    by none e = inl e
    by (some t) e = inr (t, e)

module _ {S : Type 0} (nats : Library S) where
  -- The one call that opens a handle, and what is made of it.
  abbrev pub Opens :
      {A : Type 0}
      → HandleCall
      → (Ptr → A → Type 0)
      → NatsClient
      → S
      → Expected A
      → NatsClient
      → S
      → Type 0
  Opens c Made x s r y s' =
      let out = nats.open_handle c null s in
      Fits nats out.0 (Made out.1) r × (y ≡ record x { s = some out.0 }) × (s' ≡ out.2)

  pub subscribe_sync-Opens :
      (x y : NatsClient) (subject : View) (r : Expected NatsSubscriptionSync) (s s' : S)
      → subscribe_sync nats x subject s ≡ ok (r, y) s'
      → (t : CString) × Opens
          (HandleCall.subscribe_sync x.conn t)
          (λ p o. o ≡ SubscriptionSync.construct p)
          x
          s
          r
          y
          s'
  unfolding subscribe_sync c_text c_string nats_error
  subscribe_sync-Opens x y subject r s s' e = elim (text_cases subject) [
    | inl f ↦ absurd (ground arith)
    | inr (t, f) ↦ (t, ground arith)
  ]

  pub queue_subscribe_sync-Opens :
      (x y : NatsClient) (subject group : View) (r : Expected NatsSubscriptionSync) (s s' : S)
      → queue_subscribe_sync nats x subject group s ≡ ok (r, y) s'
      → (t : CString) × (u : CString) × Opens
          (HandleCall.queue_subscribe_sync x.conn t u)
          (λ p o. o ≡ SubscriptionSync.construct p)
          x
          s
          r
          y
          s'
  unfolding queue_subscribe_sync c_text c_string nats_error
  queue_subscribe_sync-Opens x y subject group r s s' e = elim (text_cases subject) [
    | inl f ↦ absurd (ground arith)
    | inr (t, f) ↦ elim (text_cases group) [
      | inl g ↦ absurd (ground arith)
      | inr (u, g) ↦ (t, u, ground arith)
    ]
  ]

  pub kvs_bind-Opens :
      (x y : NatsClient) (name : View) (r : Expected KvStore) (s s' : S)
      → kvs_bind nats x name s ≡ ok (r, y) s'
      → (t : CString) × Opens
          (HandleCall.key_value x.js t)
          (λ p o. o ≡ Store.construct p)
          x
          s
          r
          y
          s'
  unfolding kvs_bind c_text c_string nats_error
  kvs_bind-Opens x y name r s s' e = elim (text_cases name) [
    | inl f ↦ absurd (ground arith)
    | inr (t, f) ↦ (t, ground arith)
  ]

  pub kv_get-Opens :
      (x y : NatsClient) (kv : KvStore) (key : View) (r : Expected KvEntry) (s s' : S)
      → kv_get nats x kv key s ≡ ok (r, y) s'
      → (t : CString) × Opens (HandleCall.kv_get kv.ptr t) (λ p o. o ≡ Entry.construct p) x s r y s'
  unfolding kv_get c_text c_string nats_error Store.bucket string_view
  kv_get-Opens x y kv key r s s' e = elim (text_cases key) [
    | inl f ↦ absurd (ground arith)
    | inr (t, f) ↦ (t, ground arith)
  ]

  pub kvs_watch-Opens :
      (x y : NatsClient) (kv : KvStore) (key : View) (opts : Option KvWatchOptions)
      (r : Expected KvWatcher) (s s' : S)
      → kvs_watch nats x kv key opts s ≡ ok (r, y) s'
      → (t : CString) × Opens
          (HandleCall.kv_watch kv.ptr t opts)
          (λ p o. o ≡ Watcher.construct p)
          x
          s
          r
          y
          s'
  unfolding kvs_watch c_text c_string nats_error Store.bucket string_view
  kvs_watch-Opens x y kv key opts r s s' e = elim (text_cases key) [
    | inl f ↦ absurd (ground arith)
    | inr (t, f) ↦ (t, ground arith)
  ]
