-- ===== src/Client/Entries.antt =====
-- Entries of the KeyValue store (include/nats_client/Client.hpp): the `kv_…` operations.
pub mod Calls
use natsclient_cpp.Base.{Text, codes, decimal, ◌++◌}
use natsclient_cpp.Nats.{
  null, StatusCall, HandleCall, Library, M, pure, ◌>>=◌, View, text, c_string,
}
use natsclient_cpp.Error.{expected, success}
use natsclient_cpp.Kv.Store
use natsclient_cpp.Kv.Store.{KvStore}
use natsclient_cpp.Kv.Entry
use natsclient_cpp.Kv.Entry.{KvEntry}
use natsclient_cpp.Client.{NatsClient, Outcome, attempt, attempt_open}

module _ {S : Type 0} (nats : Library S) where
  -- `…[{}]…[{}].` at a key and the bucket.
  abbrev key_in_bucket : KvStore → Text → Text → Text → M S Text
  key_in_bucket kv_store before key between = do
    bucket ← Store.bucket nats kv_store
    pure (before ++ (key ++ (between ++ (text bucket ++ codes "]."))))

  unfoldable pub kv_get : NatsClient → KvStore → View → Outcome nats KvEntry
  unfolding c_string text Store.bucket Entry.construct
  kv_get self kv_store key = do
    k ← c_string key
    attempt_open nats self (HandleCall.kv_get kv_store.ptr k) null
        (key_in_bucket kv_store (codes "Failed to read KV entry [") (text key)
          (codes "] from bucket ["))
        λ self e. pure (expected (Entry.construct e), self)

  -- `rev` is NULL.
  unfoldable pub kv_create : NatsClient → KvStore → View → View → Outcome nats (Unit {0})
  unfolding c_string text decimal Store.bucket
  kv_create self kv_store key content = do
    k ← c_string key
    attempt nats self (StatusCall.kv_create null kv_store.ptr k content.bytes content.size)
        (key_in_bucket kv_store (codes "Failed to create KV entry for key [") (text key)
          (codes "] with " ++ (decimal content.size ++ codes " bytes in bucket [")))
        λ self. pure (success, self)

  unfoldable pub kv_create_string : NatsClient → KvStore → View → View → Outcome nats (Unit {0})
  unfolding c_string text Store.bucket
  kv_create_string self kv_store key content = do
    k ← c_string key
    v ← c_string content
    attempt nats self (StatusCall.kv_create_string null kv_store.ptr k v)
        (key_in_bucket kv_store (codes "Failed to create KV string entry for key [") (text key)
          (codes "] in bucket ["))
        λ self. pure (success, self)

  unfoldable pub kv_put_string : NatsClient → KvStore → View → View → Outcome nats (Unit {0})
  unfolding c_string text decimal Store.bucket
  kv_put_string self kv_store key value = do
    k ← c_string key
    v ← c_string value
    attempt nats self (StatusCall.kv_put_string null kv_store.ptr k v)
        (key_in_bucket kv_store (codes "Failed to put KV string with key [") (text key)
          (codes "] and " ++ (decimal value.size ++ codes " bytes in bucket [")))
        λ self. pure (success, self)

  unfoldable pub kv_put : NatsClient → KvStore → View → View → Outcome nats (Unit {0})
  unfolding c_string text decimal Store.bucket
  kv_put self kv_store key content = do
    k ← c_string key
    attempt nats self (StatusCall.kv_put null kv_store.ptr k content.bytes content.size)
        (key_in_bucket kv_store (codes "Failed to put KV data with key [") (text key)
          (codes "] and " ++ (decimal content.size ++ codes " bytes in bucket [")))
        λ self. pure (success, self)

  unfoldable pub kv_delete : NatsClient → KvStore → View → Outcome nats (Unit {0})
  unfolding c_string text Store.bucket
  kv_delete self kv_store key = do
    k ← c_string key
    attempt nats self (StatusCall.kv_delete kv_store.ptr k)
        (key_in_bucket kv_store (codes "Failed to delete KV key [") (text key)
          (codes "] in bucket ["))
        λ self. pure (success, self)
