-- ===== src/Client/Buckets.antt =====
-- Buckets of the KeyValue store (include/nats_client/Client.hpp): the `kvs_…` operations.
pub mod Calls
use natsclient_cpp.Base.{Option, some, codes, ◌++◌, ◌!=◌, if◌then◌else◌}
use natsclient_cpp.Nats.{
  null, StatusCall, HandleCall, KvConfig, KvWatchOptions, Library, pure, ◌>>=◌, writing, View, text,
  is_empty, c_string,
}
use natsclient_cpp.Error.{nats_error, Expected, expected, unexpected, success}
use natsclient_cpp.Kv.Store
use natsclient_cpp.Kv.Store.{KvStore}
use natsclient_cpp.Kv.Watcher
use natsclient_cpp.Kv.Watcher.{KvWatcher}
use natsclient_cpp.Kv.KeysList
use natsclient_cpp.Kv.KeysList.{KvKeysList}
use natsclient_cpp.Client.{NatsClient, Outcome, fail, attempt, attempt_open}

module _ {S : Type 0} (nats : Library S) where
  unfoldable pub kvs_config_init : NatsClient → Outcome nats KvConfig
  kvs_config_init self = do
    (s, cfg) ← writing nats.kv_config_init
    let self' : NatsClient = record self { s = some s }
    if s != nats.nats_ok
        then fail nats self' s (pure (codes "Failed to initialize KV config."))
        else pure (expected cfg, self')

  create_in : KvConfig → View → NatsClient → Outcome nats KvStore
  unfolding Store.construct
  create_in cfg bucket_name self = do
    bucket ← c_string bucket_name
    let config : KvConfig = record cfg { bucket = bucket }
    attempt_open nats self (HandleCall.create_key_value self.js config) null
        (pure (codes "Failed to create KV bucket."))
        λ self kv. pure (expected (Store.construct kv), self)

  -- The error of `kvs_config_init` is passed on.
  create_with : Expected KvConfig × NatsClient → View → Outcome nats KvStore
  unfolding create_in
  create_with (unexpected e, self) bucket_name = pure (unexpected e, self)
  create_with (expected cfg, self) bucket_name = create_in cfg bucket_name self

  -- The description is taken and not used.
  unfoldable pub kvs_create : NatsClient → View → Option View → Outcome nats KvStore
  unfolding kvs_config_init create_with is_empty
  kvs_create self bucket_name description =
      if is_empty bucket_name
      then pure (
        unexpected (nats_error nats nats.nats_invalid_arg (codes "Bucket name is required.")),
        self,
      )
      else (do res_cfg ← kvs_config_init self; create_with res_cfg bucket_name)

  unfoldable pub kvs_bind : NatsClient → View → Outcome nats KvStore
  unfolding c_string text Store.construct
  kvs_bind self bucket = do
    name ← c_string bucket
    attempt_open nats self (HandleCall.key_value self.js name) null
        (pure (codes "Failed to bind to KV bucket [" ++ (text bucket ++ codes "].")))
        λ self kv. pure (expected (Store.construct kv), self)

  unfoldable pub kvs_delete : NatsClient → View → Outcome nats (Unit {0})
  unfolding c_string text
  kvs_delete self bucket = do
    name ← c_string bucket
    attempt nats self (StatusCall.delete_key_value self.js name)
        (pure (codes "Failed to delete KV bucket [" ++ (text bucket ++ codes "].")))
        λ self. pure (success, self)

  -- The local list is destroyed on the way out: as the library left it after a failure, and moved
  -- from after a success.
  unfoldable pub kvs_keys : NatsClient → KvStore → Option KvWatchOptions → Outcome nats KvKeysList
  unfolding text Store.bucket KeysList.construct KeysList.move_construct KeysList.destruct
  kvs_keys self kv_store opts = do
    (s, kl) ← writing (nats.keys kv_store.ptr opts KeysList.construct.kl)
    let self' : NatsClient = record self { s = some s }
    let list : KvKeysList = record { kl = kl }
    if s != nats.nats_ok
        then (do
          bucket ← Store.bucket nats kv_store
          result ←
              fail nats self' s
                (pure (codes "Failed to get keys for KV bucket [" ++ (text bucket ++ codes "].")))
          _ ← KeysList.destruct nats list
          pure result)
        else (do
          let (moved, rest) = KeysList.move_construct list
          _ ← KeysList.destruct nats rest
          pure (expected moved, self'))

  unfoldable pub kvs_watch_options : NatsClient → Outcome nats KvWatchOptions
  kvs_watch_options self = do
    (s, o) ← writing nats.kv_watch_options_init
    let self' : NatsClient = record self { s = some s }
    if s != nats.nats_ok
        then fail nats self' s (pure (codes "Failed to initialize KV watch options."))
        else pure (expected o, self')

  unfoldable pub kvs_watch :
      NatsClient → KvStore → View → Option KvWatchOptions → Outcome nats KvWatcher
  unfolding c_string text Store.bucket Watcher.construct
  kvs_watch self kv_store key opts = do
    k ← c_string key
    attempt_open nats self (HandleCall.kv_watch kv_store.ptr k opts) null
        (do
          bucket ← Store.bucket nats kv_store
          pure (
              codes "Failed to create KV watcher for key ["
              ++ (text key ++ (codes "] in bucket [" ++ (text bucket ++ codes "].")))))
        λ self w. pure (expected (Watcher.construct w), self)
