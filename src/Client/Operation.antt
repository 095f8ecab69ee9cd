-- ===== src/Client/Operation.antt =====
-- The operations of a client that open no handle (include/nats_client/Client.hpp), as steps.
use natsclient_cpp.Base.{◌≡◌}
use natsclient_cpp.Nats.{KvConfig, KvWatchOptions, Library, ok, View}
use natsclient_cpp.Error.{Expected}
use natsclient_cpp.SubscriptionSync.{NatsSubscriptionSync}
use natsclient_cpp.Kv.Store.{KvStore}
use natsclient_cpp.Client.{NatsClient}
use natsclient_cpp.Client.Messages.{publish, publish_bytes, unsubscribe}
use natsclient_cpp.Client.Buckets.{kvs_config_init, kvs_watch_options, kvs_delete}
use natsclient_cpp.Client.Entries.{kv_create, kv_create_string, kv_put, kv_put_string, kv_delete}

-- A run that returns, with the client and the library's state before and after.
pub data Operation {S : Type 0} (nats : Library S) (x : NatsClient) (s : S) (y : NatsClient)
    (s' : S) : Type 0 where
  publishes :
      (subject content : View) (r : Expected (Unit {0}))
      → publish nats x subject content s ≡ ok (r, y) s'
      → Operation nats x s y s'
  publishes_bytes :
      (subject content : View) (r : Expected (Unit {0}))
      → publish_bytes nats x subject content s ≡ ok (r, y) s'
      → Operation nats x s y s'
  unsubscribes :
      (sub : NatsSubscriptionSync) (r : Expected (Unit {0}))
      → unsubscribe nats x sub s ≡ ok (r, y) s'
      → Operation nats x s y s'
  deletes_bucket :
      (bucket : View) (r : Expected (Unit {0}))
      → kvs_delete nats x bucket s ≡ ok (r, y) s'
      → Operation nats x s y s'
  creates_entry :
      (kv : KvStore) (key content : View) (r : Expected (Unit {0}))
      → kv_create nats x kv key content s ≡ ok (r, y) s'
      → Operation nats x s y s'
  creates_string :
      (kv : KvStore) (key content : View) (r : Expected (Unit {0}))
      → kv_create_string nats x kv key content s ≡ ok (r, y) s'
      → Operation nats x s y s'
  puts :
      (kv : KvStore) (key content : View) (r : Expected (Unit {0}))
      → kv_put nats x kv key content s ≡ ok (r, y) s'
      → Operation nats x s y s'
  puts_string :
      (kv : KvStore) (key value : View) (r : Expected (Unit {0}))
      → kv_put_string nats x kv key value s ≡ ok (r, y) s'
      → Operation nats x s y s'
  deletes_entry :
      (kv : KvStore) (key : View) (r : Expected (Unit {0}))
      → kv_delete nats x kv key s ≡ ok (r, y) s'
      → Operation nats x s y s'
  starts_config :
      (r : Expected KvConfig) → kvs_config_init nats x s ≡ ok (r, y) s' → Operation nats x s y s'
  starts_watch_options :
      (r : Expected KvWatchOptions)
      → kvs_watch_options nats x s ≡ ok (r, y) s'
      → Operation nats x s y s'
