-- ===== src/Heap/Steps.antt =====
-- The steps of a program over the wrapper: the operations of include/nats_client and the special
-- members of its classes, in any order.
use natsclient_cpp.Base.{◌≡◌, ℤ, Option, none, some}
use natsclient_cpp.Nats.{null, KvWatchOptions, Library, ok, View}
use natsclient_cpp.Error.{Expected}
use natsclient_cpp.Handle.{Addr, Memory, put}
use natsclient_cpp.Handle.Ownership.{Member}
use natsclient_cpp.SubscriptionSync.{NatsSubscriptionSync, next_msg}
use natsclient_cpp.SubscriptionSync.Operation.{Operation as SubscriptionOperation}
use natsclient_cpp.SubscriptionSync.Ownership.{handle as subscription_handle}
use natsclient_cpp.MessageView.{NatsMessageView}
use natsclient_cpp.MessageView.Ownership.{handle as message_handle}
use natsclient_cpp.Kv.Store.{KvStore}
use natsclient_cpp.Kv.Store.Ownership.{handle as bucket_handle}
use natsclient_cpp.Kv.Entry.{KvEntry}
use natsclient_cpp.Kv.Entry.Ownership.{handle as entry_handle}
use natsclient_cpp.Kv.Watcher.{KvWatcher}
use natsclient_cpp.Kv.Watcher
use natsclient_cpp.Kv.Watcher.Ownership.{handle as watcher_handle}
use natsclient_cpp.Kv.KeysList.{KvKeysList}
use natsclient_cpp.Kv.KeysList.Ownership.{handle as keys_list_handle}
use natsclient_cpp.Options.{NatsOptions}
use natsclient_cpp.Options.Setters.{Setter, run_setter}
use natsclient_cpp.Client.{NatsClient, create, move_construct, move_assign, destruct}
use natsclient_cpp.Client.Operation.{Operation}
use natsclient_cpp.Client.Connection.{connect, jet_stream}
use natsclient_cpp.Client.Messages.{subscribe_sync, queue_subscribe_sync}
use natsclient_cpp.Client.Buckets.{kvs_create, kvs_bind, kvs_keys, kvs_watch}
use natsclient_cpp.Client.Entries.{kv_get}
use natsclient_cpp.Heap.{Heap, keep, keep_optional}

module _ {S : Type 0} (nats : Library S) where
  -- `a` is the address of the object whose operation runs, and `b` one for the object that it returns.
  pub data Step (h : Heap) (s : S) (h' : Heap) (s' : S) : Type 0 where
    creates :
        (a : Addr) (r : Expected NatsClient)
        → h.clients a ≡ none
        → create nats s ≡ ok r s'
        → h' ≡ record h { clients = keep a r h.clients }
        → Step h s h' s'
    -- A client connects only while it is not connected.
    connects :
        (a : Addr) (x y : NatsClient) (r : Expected (Unit {0}))
        → h.clients a ≡ some x
        → x.conn ≡ null
        → connect nats x s ≡ ok (r, y) s'
        → h' ≡ record h { clients = put h.clients a (some y) }
        → Step h s h' s'
    -- Likewise for its JetStream context.
    gets_jet_stream :
        (a : Addr) (x y : NatsClient) (r : Expected (Unit {0}))
        → h.clients a ≡ some x
        → x.js ≡ null
        → jet_stream nats x s ≡ ok (r, y) s'
        → h' ≡ record h { clients = put h.clients a (some y) }
        → Step h s h' s'
    move_constructs_client :
        (a b : Addr) (x : NatsClient)
        → h.clients a ≡ none
        → h.clients b ≡ some x
        → h' ≡ record h {
          clients = put (put h.clients a (some (move_construct x).0)) b (some (move_construct x).1);
        }
        → s' ≡ s
        → Step h s h' s'
    move_assigns_client :
        (a b : Addr) (x y : NatsClient) (m : Memory NatsClient)
        → h.clients a ≡ some x
        → h.clients b ≡ some y
        → move_assign nats a b h.clients s ≡ ok m s'
        → h' ≡ record h { clients = m }
        → Step h s h' s'
    destructs_client :
        (a : Addr) (x y : NatsClient)
        → h.clients a ≡ some x
        → destruct nats x s ≡ ok y s'
        → h' ≡ record h { clients = put h.clients a none }
        → Step h s h' s'
    subscribes :
        (a b : Addr) (x y : NatsClient) (subject : View) (r : Expected NatsSubscriptionSync)
        → h.clients a ≡ some x
        → h.subscriptions b ≡ none
        → subscribe_sync nats x subject s ≡ ok (r, y) s'
        → h' ≡ record h {
          clients = put h.clients a (some y);
          subscriptions = keep b r h.subscriptions;
        }
        → Step h s h' s'
    queue_subscribes :
        (a b : Addr) (x y : NatsClient) (subject group : View) (r : Expected NatsSubscriptionSync)
        → h.clients a ≡ some x
        → h.subscriptions b ≡ none
        → queue_subscribe_sync nats x subject group s ≡ ok (r, y) s'
        → h' ≡ record h {
          clients = put h.clients a (some y);
          subscriptions = keep b r h.subscriptions;
        }
        → Step h s h' s'
    creates_bucket :
        (a b : Addr) (x y : NatsClient) (name : View) (about : Option View) (r : Expected KvStore)
        → h.clients a ≡ some x
        → h.buckets b ≡ none
        → kvs_create nats x name about s ≡ ok (r, y) s'
        → h' ≡ record h { clients = put h.clients a (some y); buckets = keep b r h.buckets }
        → Step h s h' s'
    binds_bucket :
        (a b : Addr) (x y : NatsClient) (name : View) (r : Expected KvStore)
        → h.clients a ≡ some x
        → h.buckets b ≡ none
        → kvs_bind nats x name s ≡ ok (r, y) s'
        → h' ≡ record h { clients = put h.clients a (some y); buckets = keep b r h.buckets }
        → Step h s h' s'
    gets_entry :
        (a b c : Addr) (x y : NatsClient) (kv : KvStore) (key : View) (r : Expected KvEntry)
        → h.clients a ≡ some x
        → h.buckets c ≡ some kv
        → h.entries b ≡ none
        → kv_get nats x kv key s ≡ ok (r, y) s'
        → h' ≡ record h { clients = put h.clients a (some y); entries = keep b r h.entries }
        → Step h s h' s'
    watches :
        (a b c : Addr) (x y : NatsClient) (kv : KvStore) (key : View) (opts : Option KvWatchOptions)
        (r : Expected KvWatcher)
        → h.clients a ≡ some x
        → h.buckets c ≡ some kv
        → h.watchers b ≡ none
        → kvs_watch nats x kv key opts s ≡ ok (r, y) s'
        → h' ≡ record h { clients = put h.clients a (some y); watchers = keep b r h.watchers }
        → Step h s h' s'
    lists_keys :
        (a b c : Addr) (x y : NatsClient) (kv : KvStore) (opts : Option KvWatchOptions)
        (r : Expected KvKeysList)
        → h.clients a ≡ some x
        → h.buckets c ≡ some kv
        → h.key_lists b ≡ none
        → kvs_keys nats x kv opts s ≡ ok (r, y) s'
        → h' ≡ record h { clients = put h.clients a (some y); key_lists = keep b r h.key_lists }
        → Step h s h' s'
    takes_message :
        (a b : Addr) (x y : NatsSubscriptionSync) (timeout : ℤ) (r : Expected NatsMessageView)
        → h.subscriptions a ≡ some x
        → h.messages b ≡ none
        → next_msg nats x timeout s ≡ ok (r, y) s'
        → h' ≡ record h {
          subscriptions = put h.subscriptions a (some y);
          messages = keep b r h.messages;
        }
        → Step h s h' s'
    takes_update :
        (a b : Addr) (x y : KvWatcher) (timeout : ℤ) (r : Expected (Option KvEntry))
        → h.watchers a ≡ some x
        → h.entries b ≡ none
        → Watcher.next nats x timeout s ≡ ok (r, y) s'
        → h'
          ≡ record h { watchers = put h.watchers a (some y); entries = keep_optional b r h.entries }
        → Step h s h' s'
    -- the special members of the other classes
    on_subscription :
        (m : Memory NatsSubscriptionSync)
        → Member (subscription_handle nats) h.subscriptions s m s'
        → h' ≡ record h { subscriptions = m }
        → Step h s h' s'
    on_message :
        (m : Memory NatsMessageView)
        → Member (message_handle nats) h.messages s m s'
        → h' ≡ record h { messages = m }
        → Step h s h' s'
    on_bucket :
        (m : Memory KvStore)
        → Member (bucket_handle nats) h.buckets s m s'
        → h' ≡ record h { buckets = m }
        → Step h s h' s'
    on_entry :
        (m : Memory KvEntry)
        → Member (entry_handle nats) h.entries s m s'
        → h' ≡ record h { entries = m }
        → Step h s h' s'
    on_watcher :
        (m : Memory KvWatcher)
        → Member (watcher_handle nats) h.watchers s m s'
        → h' ≡ record h { watchers = m }
        → Step h s h' s'
    on_key_list :
        (m : Memory KvKeysList)
        → Member (keys_list_handle nats) h.key_lists s m s'
        → h' ≡ record h { key_lists = m }
        → Step h s h' s'
    operates :
        (a : Addr) (x y : NatsClient)
        → h.clients a ≡ some x
        → Operation nats x s y s'
        → h' ≡ record h { clients = put h.clients a (some y) }
        → Step h s h' s'
    sets_option :
        (a : Addr) (x : NatsClient) (setter : Setter) (o : NatsOptions)
        → h.clients a ≡ some x
        → run_setter nats setter x.opts s ≡ ok o s'
        → h' ≡ record h { clients = put h.clients a (some (record x { opts = o })) }
        → Step h s h' s'
    polls :
        (a : Addr) (x y : NatsSubscriptionSync)
        → h.subscriptions a ≡ some x
        → SubscriptionOperation nats x s y s'
        → h' ≡ record h { subscriptions = put h.subscriptions a (some y) }
        → Step h s h' s'
    stops :
        (a : Addr) (x y : KvWatcher) (r : Expected (Unit {0}))
        → h.watchers a ≡ some x
        → Watcher.stop nats x s ≡ ok (r, y) s'
        → h' ≡ record h { watchers = put h.watchers a (some y) }
        → Step h s h' s'

  pub data Reach (h : Heap) (s : S) : Heap → S → Type 0 where
    here : Reach h s h s
    next : {h' h'' : Heap} {s' s'' : S} → Reach h s h' s' → Step h' s' h'' s'' → Reach h s h'' s''
