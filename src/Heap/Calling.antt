-- ===== src/Heap/Calling.antt =====
-- The operations of a client that open no handle leave those that live alone (include/nats_client/Client.hpp).
use natsclient_cpp.Base.{◌≡◌, some, refl, Bool, inl, inr, arith}
use natsclient_cpp.Nats.{
  Ptr, Kind, null, KvConfig, KvWatchOptions, StatusCall, Library, ok, View, c_string, string_view,
}
use natsclient_cpp.Nats.Views.{c_text}
use natsclient_cpp.Error.{Expected, nats_error}
use natsclient_cpp.SubscriptionSync
use natsclient_cpp.SubscriptionSync.{NatsSubscriptionSync}
use natsclient_cpp.Kv.Store
use natsclient_cpp.Kv.Store.{KvStore}
use natsclient_cpp.Client.{NatsClient}
use natsclient_cpp.Client.Operation.{
  Operation, publishes, publishes_bytes, unsubscribes, deletes_bucket, creates_entry,
  creates_string, puts, puts_string, deletes_entry, starts_config, starts_watch_options,
}
use natsclient_cpp.Client.Messages.{publish, publish_bytes, unsubscribe}
use natsclient_cpp.Client.Buckets.{kvs_config_init, kvs_watch_options, kvs_delete}
use natsclient_cpp.Client.Entries.{kv_create, kv_create_string, kv_put, kv_put_string, kv_delete}
use natsclient_cpp.Heap.{SameHandles}
use natsclient_cpp.Heap.Documents.{Documents, Same}
use natsclient_cpp.Heap.Operations.{text_cases}

module _ {S : Type 0} (nats : Library S) where
  -- The one call that an operation makes.
  abbrev Calls : NatsClient → S → NatsClient → S → Type 0
  Calls x s y s' =
      (c : StatusCall) × (y ≡ record x { s = some (nats.call c s).0 }) × (s' ≡ (nats.call c s).1)

  publish-Calls :
      (x y : NatsClient) (subject content : View) (r : Expected (Unit {0})) (s s' : S)
      → publish nats x subject content s ≡ ok (r, y) s'
      → Calls x s y s'
  unfolding publish c_text c_string nats_error
  publish-Calls x y subject content r s s' e = elim (text_cases subject) [
    | inl f ↦ absurd (ground arith)
    | inr (t, f) ↦
        (StatusCall.publish x.conn t content.bytes content.size, ground arith, ground arith)
  ]

  publish_bytes-Calls :
      (x y : NatsClient) (subject content : View) (r : Expected (Unit {0})) (s s' : S)
      → publish_bytes nats x subject content s ≡ ok (r, y) s'
      → Calls x s y s'
  unfolding publish_bytes c_text c_string nats_error
  publish_bytes-Calls x y subject content r s s' e = elim (text_cases subject) [
    | inl f ↦ absurd (ground arith)
    | inr (t, f) ↦
        (StatusCall.publish x.conn t content.bytes content.size, ground arith, ground arith)
  ]

  unsubscribe-Calls :
      (x y : NatsClient) (sub : NatsSubscriptionSync) (r : Expected (Unit {0})) (s s' : S)
      → unsubscribe nats x sub s ≡ ok (r, y) s'
      → Calls x s y s'
  unfolding unsubscribe c_text c_string nats_error SubscriptionSync.subject string_view
  unsubscribe-Calls x y sub r s s' e = (StatusCall.unsubscribe sub.ptr, ground arith, ground arith)

  kvs_delete-Calls :
      (x y : NatsClient) (bucket : View) (r : Expected (Unit {0})) (s s' : S)
      → kvs_delete nats x bucket s ≡ ok (r, y) s'
      → Calls x s y s'
  unfolding kvs_delete c_text c_string nats_error
  kvs_delete-Calls x y bucket r s s' e = elim (text_cases bucket) [
    | inl f ↦ absurd (ground arith)
    | inr (t, f) ↦ (StatusCall.delete_key_value x.js t, ground arith, ground arith)
  ]

  kv_create-Calls :
      (x y : NatsClient) (kv : KvStore) (key content : View) (r : Expected (Unit {0})) (s s' : S)
      → kv_create nats x kv key content s ≡ ok (r, y) s'
      → Calls x s y s'
  unfolding kv_create c_text c_string nats_error Store.bucket string_view
  kv_create-Calls x y kv key content r s s' e = elim (text_cases key) [
    | inl f ↦ absurd (ground arith)
    | inr (t, f) ↦
        (StatusCall.kv_create null kv.ptr t content.bytes content.size, ground arith, ground arith)
  ]

  kv_create_string-Calls :
      (x y : NatsClient) (kv : KvStore) (key content : View) (r : Expected (Unit {0})) (s s' : S)
      → kv_create_string nats x kv key content s ≡ ok (r, y) s'
      → Calls x s y s'
  unfolding kv_create_string c_text c_string nats_error Store.bucket string_view
  kv_create_string-Calls x y kv key content r s s' e = elim (text_cases key) [
    | inl f ↦ absurd (ground arith)
    | inr (t, f) ↦ elim (text_cases content) [
      | inl g ↦ absurd (ground arith)
      | inr (u, g) ↦ (StatusCall.kv_create_string null kv.ptr t u, ground arith, ground arith)
    ]
  ]

  kv_put-Calls :
      (x y : NatsClient) (kv : KvStore) (key content : View) (r : Expected (Unit {0})) (s s' : S)
      → kv_put nats x kv key content s ≡ ok (r, y) s'
      → Calls x s y s'
  unfolding kv_put c_text c_string nats_error Store.bucket string_view
  kv_put-Calls x y kv key content r s s' e = elim (text_cases key) [
    | inl f ↦ absurd (ground arith)
    | inr (t, f) ↦
        (StatusCall.kv_put null kv.ptr t content.bytes content.size, ground arith, ground arith)
  ]

  kv_put_string-Calls :
      (x y : NatsClient) (kv : KvStore) (key value : View) (r : Expected (Unit {0})) (s s' : S)
      → kv_put_string nats x kv key value s ≡ ok (r, y) s'
      → Calls x s y s'
  unfolding kv_put_string c_text c_string nats_error Store.bucket string_view
  kv_put_string-Calls x y kv key value r s s' e = elim (text_cases key) [
    | inl f ↦ absurd (ground arith)
    | inr (t, f) ↦ elim (text_cases value) [
      | inl g ↦ absurd (ground arith)
      | inr (u, g) ↦ (StatusCall.kv_put_string null kv.ptr t u, ground arith, ground arith)
    ]
  ]

  kv_delete-Calls :
      (x y : NatsClient) (kv : KvStore) (key : View) (r : Expected (Unit {0})) (s s' : S)
      → kv_delete nats x kv key s ≡ ok (r, y) s'
      → Calls x s y s'
  unfolding kv_delete c_text c_string nats_error Store.bucket string_view
  kv_delete-Calls x y kv key r s s' e = elim (text_cases key) [
    | inl f ↦ absurd (ground arith)
    | inr (t, f) ↦ (StatusCall.kv_delete kv.ptr t, ground arith, ground arith)
  ]

module _ {S : Type 0} {nats : Library S} {live : Kind → Ptr → S → Bool}
    (docs : Documents nats live) where
  Calls-Same :
      (x y : NatsClient) (s s' : S) → Calls nats x s y s' → SameHandles x y × Same live s s'
  Calls-Same x y s s' (c, ey, es) = (rw ey (refl, refl, refl), rw es (docs.call_same c s))

  starts_config-Same :
      (x y : NatsClient) (r : Expected KvConfig) (s s' : S)
      → kvs_config_init nats x s ≡ ok (r, y) s'
      → SameHandles x y × (s' ≡ (nats.kv_config_init s).2)
  unfolding kvs_config_init nats_error
  starts_config-Same x y r s s' e = ground arith

  starts_watch_options-Same :
      (x y : NatsClient) (r : Expected KvWatchOptions) (s s' : S)
      → kvs_watch_options nats x s ≡ ok (r, y) s'
      → SameHandles x y × (s' ≡ (nats.kv_watch_options_init s).2)
  unfolding kvs_watch_options nats_error
  starts_watch_options-Same x y r s s' e = ground arith

  -- The client keeps what it holds.
  pub Operation-Same :
      (x y : NatsClient) (s s' : S) → Operation nats x s y s' → SameHandles x y × Same live s s'
  Operation-Same x y s s' (publishes subject content r e) =
      Calls-Same x y s s' (publish-Calls nats x y subject content r s s' e)
  Operation-Same x y s s' (publishes_bytes subject content r e) =
      Calls-Same x y s s' (publish_bytes-Calls nats x y subject content r s s' e)
  Operation-Same x y s s' (unsubscribes sub r e) =
      Calls-Same x y s s' (unsubscribe-Calls nats x y sub r s s' e)
  Operation-Same x y s s' (deletes_bucket bucket r e) =
      Calls-Same x y s s' (kvs_delete-Calls nats x y bucket r s s' e)
  Operation-Same x y s s' (creates_entry kv key content r e) =
      Calls-Same x y s s' (kv_create-Calls nats x y kv key content r s s' e)
  Operation-Same x y s s' (creates_string kv key content r e) =
      Calls-Same x y s s' (kv_create_string-Calls nats x y kv key content r s s' e)
  Operation-Same x y s s' (puts kv key content r e) =
      Calls-Same x y s s' (kv_put-Calls nats x y kv key content r s s' e)
  Operation-Same x y s s' (puts_string kv key value r e) =
      Calls-Same x y s s' (kv_put_string-Calls nats x y kv key value r s s' e)
  Operation-Same x y s s' (deletes_entry kv key r e) =
      Calls-Same x y s s' (kv_delete-Calls nats x y kv key r s s' e)
  Operation-Same x y s s' (starts_config r e) =
      let (same, es) = starts_config-Same x y r s s' e in (same, rw es (docs.kv_init_same s))
  Operation-Same x y s s' (starts_watch_options r e) =
      let (same, es) = starts_watch_options-Same x y r s s' e in
      (same, rw es (docs.watch_init_same s))
