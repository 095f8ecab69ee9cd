-- ===== src/Heap.antt =====
-- A program over the whole of the wrapper: its clients, subscriptions, messages, buckets, entries,
-- watchers and lists of keys at addresses (the classes of include/nats_client).
pub mod Steps
pub mod Documents
pub mod Frames
pub mod Custody
pub mod Special
pub mod Opening
pub mod Operations
pub mod Results
pub mod Updates
pub mod Connecting
pub mod Clients
pub mod Closing
pub mod Returning
pub mod Taking
pub mod Calling
pub mod Polling
pub mod Ownership
use natsclient_cpp.Base.{◌≡◌, ℤ, Bool, Option, none, some}
use natsclient_cpp.Nats.{Ptr, null, Kind, KvWatchOptions, Library, ok, View}
use natsclient_cpp.Error.{Expected, expected, unexpected}
use natsclient_cpp.Handle.{Addr, Memory, put}
use natsclient_cpp.Handle.Ownership.{holders, Member}
use natsclient_cpp.SubscriptionSync.{NatsSubscriptionSync, next_msg}
use natsclient_cpp.SubscriptionSync.Operation.{Operation as SubscriptionOperation}
use natsclient_cpp.SubscriptionSync.Ownership.{handle as subscription_handle}
use natsclient_cpp.MessageView.{NatsMessageView}
use natsclient_cpp.MessageView.Ownership.{handle as message_handle}
use natsclient_cpp.Kv.Store.{KvStore}
use natsclient_cpp.Kv.Store.Ownership.{handle as bucket_handle}
use natsclient_cpp.Kv.Entry.{KvEntry}
use natsclient_cpp.Kv.Entry.Ownership.{handle as entry_handle}
use natsclient_cpp.Kv.Watcher.{KvWatcher}
use natsclient_cpp.Kv.Watcher
use natsclient_cpp.Kv.Watcher.Ownership.{handle as watcher_handle}
use natsclient_cpp.Kv.KeysList.{KvKeysList}
use natsclient_cpp.Kv.KeysList.Ownership.{handle as keys_list_handle}
use natsclient_cpp.Options.{NatsOptions}
use natsclient_cpp.Options.Setters.{Setter, run_setter}
use natsclient_cpp.Client.{NatsClient, create, move_construct, move_assign, destruct}
use natsclient_cpp.Client.Operation.{Operation}
use natsclient_cpp.Client.Connection.{connect, jet_stream}
use natsclient_cpp.Client.Messages.{subscribe_sync, queue_subscribe_sync}
use natsclient_cpp.Client.Buckets.{kvs_create, kvs_bind, kvs_keys, kvs_watch}
use natsclient_cpp.Client.Entries.{kv_get}

pub record Heap : Type 0 where
  pub clients : Memory NatsClient
  pub subscriptions : Memory NatsSubscriptionSync
  pub messages : Memory NatsMessageView
  pub buckets : Memory KvStore
  pub entries : Memory KvEntry
  pub watchers : Memory KvWatcher
  pub key_lists : Memory KvKeysList

-- The result of an operation is kept at an address if it is a value.
abbrev pub keep : {A : Type 0} → Addr → Expected A → Memory A → Memory A
keep b (expected x) m = put m b (some x)
keep b (unexpected e) m = m

-- `KvWatcher::next` returns an optional.
abbrev pub keep_optional : {A : Type 0} → Addr → Expected (Option A) → Memory A → Memory A
keep_optional b (expected none) m = m
keep_optional b (expected (some x)) m = put m b (some x)
keep_optional b (unexpected e) m = m

abbrev pub part : (NatsClient → Ptr) → Option NatsClient → Ptr
part f none = null
part f (some c) = f c

-- What a client keeps of the three that it owns.
abbrev pub SameHandles : NatsClient → NatsClient → Type 0
SameHandles x y = (y.conn ≡ x.conn) × (y.opts.ptr ≡ x.opts.ptr) × (y.js ≡ x.js)

module _ {S : Type 0} (nats : Library S) where
  -- The handle of a kind that the object at an address owns.
  abbrev pub held : Heap → Kind → Addr → Ptr
  held h Kind.options a = part (λ c. c.opts.ptr) (h.clients a)
  held h Kind.connection a = part (λ c. c.conn) (h.clients a)
  held h Kind.js_ctx a = part (λ c. c.js) (h.clients a)
  held h Kind.subscription a = holders (subscription_handle nats) h.subscriptions a
  held h Kind.msg a = holders (message_handle nats) h.messages a
  held h Kind.kv_store a = holders (bucket_handle nats) h.buckets a
  held h Kind.kv_entry a = holders (entry_handle nats) h.entries a
  held h Kind.kv_watcher a = holders (watcher_handle nats) h.watchers a
  held h Kind.kv_keys_list a = holders (keys_list_handle nats) h.key_lists a
