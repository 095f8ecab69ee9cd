-- ===== src/Heap/Returning.antt =====
-- The operations that return objects (include/nats_client), in a program.
use natsclient_cpp.Base.{◌≡◌, refl, ◌∙◌, Bool, Option, none, some}
use natsclient_cpp.Nats.{Ptr, Kind, KvWatchOptions, HandleCall, Library, ok, View}
use natsclient_cpp.Error.{Expected}
use natsclient_cpp.Handle.{Addr, put}
use natsclient_cpp.SubscriptionSync
use natsclient_cpp.SubscriptionSync.{NatsSubscriptionSync}
use natsclient_cpp.SubscriptionSync.Ownership as SubscriptionOwnership
use natsclient_cpp.Kv.Store
use natsclient_cpp.Kv.Store.{KvStore}
use natsclient_cpp.Kv.Store.Ownership as StoreOwnership
use natsclient_cpp.Kv.Entry
use natsclient_cpp.Kv.Entry.{KvEntry}
use natsclient_cpp.Kv.Entry.Ownership as EntryOwnership
use natsclient_cpp.Kv.Watcher
use natsclient_cpp.Kv.Watcher.{KvWatcher}
use natsclient_cpp.Kv.Watcher.Ownership as WatcherOwnership
use natsclient_cpp.Kv.KeysList.{KvKeysList}
use natsclient_cpp.Kv.KeysList.Ownership as KeysOwnership
use natsclient_cpp.Client.{NatsClient}
use natsclient_cpp.Client.Messages.{subscribe_sync, queue_subscribe_sync}
use natsclient_cpp.Client.Buckets.{kvs_create, kvs_bind, kvs_keys, kvs_watch}
use natsclient_cpp.Client.Entries.{kv_get}
use natsclient_cpp.Heap.{Heap, keep}
use natsclient_cpp.Heap.Documents.{Documents}
use natsclient_cpp.Heap.Frames.{
  held-subscriptions, held-buckets, held-entries, held-watchers, held-key_lists, held-clients,
}
use natsclient_cpp.Heap.Special.{Keeps}
use natsclient_cpp.Heap.Opening.{Gives-Keeps}
use natsclient_cpp.Heap.Operations.{
  subscribe_sync-Opens, queue_subscribe_sync-Opens, kvs_bind-Opens, kv_get-Opens, kvs_watch-Opens,
}
use natsclient_cpp.Heap.Results.{Opens-Gives, kvs_create-Gives, kvs_keys-Gives}

module _ {S : Type 0} {nats : Library S} {live : Kind → Ptr → S → Bool}
    (docs : Documents nats live) where
  pub subscribes-Keeps :
      (h : Heap) (a b : Addr) (x y : NatsClient) (subject : View)
      (r : Expected NatsSubscriptionSync) (s s' : S)
      → h.clients a ≡ some x
      → h.subscriptions b ≡ none
      → subscribe_sync nats x subject s ≡ ok (r, y) s'
      → (k : Kind)
      → Keeps nats live k h s
          (record h {
            clients = put h.clients a (some y);
            subscriptions = keep b r h.subscriptions;
          })
          s'
  subscribes-Keeps h a b x y subject r s s' here free e =
      let (given, same) =
        (let (t, opens) = subscribe_sync-Opens nats x y subject r s s' e in
          Opens-Gives docs (λ p o. o ≡ SubscriptionSync.construct p)
            (HandleCall.subscribe_sync x.conn t) x y s s' r (λ e. cc) opens) in
      Gives-Keeps nats live (SubscriptionOwnership.handle nats)
        (SubscriptionOwnership.handle-IsOwner nats) Kind.subscription h
        (record h { clients = put h.clients a (some y); subscriptions = keep b r h.subscriptions })
        h.subscriptions b r s s' refl refl refl
        (λ k c n.
          held-subscriptions nats (record h { clients = put h.clients a (some y) })
            (keep b r h.subscriptions) k c n
          ∙ held-clients nats h a x y k c here same)
        free given

  pub queue_subscribes-Keeps :
      (h : Heap) (a b : Addr) (x y : NatsClient) (subject group : View)
      (r : Expected NatsSubscriptionSync) (s s' : S)
      → h.clients a ≡ some x
      → h.subscriptions b ≡ none
      → queue_subscribe_sync nats x subject group s ≡ ok (r, y) s'
      → (k : Kind)
      → Keeps nats live k h s
          (record h {
            clients = put h.clients a (some y);
            subscriptions = keep b r h.subscriptions;
          })
          s'
  queue_subscribes-Keeps h a b x y subject group r s s' here free e =
      let (given, same) =
        (let (t, u, opens) = queue_subscribe_sync-Opens nats x y subject group r s s' e in
          Opens-Gives docs (λ p o. o ≡ SubscriptionSync.construct p)
            (HandleCall.queue_subscribe_sync x.conn t u) x y s s' r (λ e. cc) opens) in
      Gives-Keeps nats live (SubscriptionOwnership.handle nats)
        (SubscriptionOwnership.handle-IsOwner nats) Kind.subscription h
        (record h { clients = put h.clients a (some y); subscriptions = keep b r h.subscriptions })
        h.subscriptions b r s s' refl refl refl
        (λ k c n.
          held-subscriptions nats (record h { clients = put h.clients a (some y) })
            (keep b r h.subscriptions) k c n
          ∙ held-clients nats h a x y k c here same)
        free given

  pub binds_bucket-Keeps :
      (h : Heap) (a b : Addr) (x y : NatsClient) (name : View) (r : Expected KvStore) (s s' : S)
      → h.clients a ≡ some x
      → h.buckets b ≡ none
      → kvs_bind nats x name s ≡ ok (r, y) s'
      → (k : Kind)
      → Keeps nats live k h s
          (record h { clients = put h.clients a (some y); buckets = keep b r h.buckets })
          s'
  binds_bucket-Keeps h a b x y name r s s' here free e =
      let (given, same) =
        (let (t, opens) = kvs_bind-Opens nats x y name r s s' e in
          Opens-Gives docs (λ p o. o ≡ Store.construct p) (HandleCall.key_value x.js t) x y s s' r
            (λ e. cc) opens) in
      Gives-Keeps nats live (StoreOwnership.handle nats) (StoreOwnership.handle-IsOwner nats)
        Kind.kv_store h
        (record h { clients = put h.clients a (some y); buckets = keep b r h.buckets }) h.buckets b
        r s s' refl refl refl
        (λ k c n.
          held-buckets nats (record h { clients = put h.clients a (some y) }) (keep b r h.buckets) k
            c n
          ∙ held-clients nats h a x y k c here same)
        free given

  pub creates_bucket-Keeps :
      (h : Heap) (a b : Addr) (x y : NatsClient) (name : View) (about : Option View)
      (r : Expected KvStore) (s s' : S)
      → h.clients a ≡ some x
      → h.buckets b ≡ none
      → kvs_create nats x name about s ≡ ok (r, y) s'
      → (k : Kind)
      → Keeps nats live k h s
          (record h { clients = put h.clients a (some y); buckets = keep b r h.buckets })
          s'
  creates_bucket-Keeps h a b x y name about r s s' here free e =
      let (given, same) = kvs_create-Gives docs x y name about s s' r e in
      Gives-Keeps nats live (StoreOwnership.handle nats) (StoreOwnership.handle-IsOwner nats)
        Kind.kv_store h
        (record h { clients = put h.clients a (some y); buckets = keep b r h.buckets }) h.buckets b
        r s s' refl refl refl
        (λ k c n.
          held-buckets nats (record h { clients = put h.clients a (some y) }) (keep b r h.buckets) k
            c n
          ∙ held-clients nats h a x y k c here same)
        free given

  pub gets_entry-Keeps :
      (h : Heap) (a b : Addr) (x y : NatsClient) (kv : KvStore) (key : View) (r : Expected KvEntry)
      (s s' : S)
      → h.clients a ≡ some x
      → h.entries b ≡ none
      → kv_get nats x kv key s ≡ ok (r, y) s'
      → (k : Kind)
      → Keeps nats live k h s
          (record h { clients = put h.clients a (some y); entries = keep b r h.entries })
          s'
  gets_entry-Keeps h a b x y kv key r s s' here free e =
      let (given, same) =
        (let (t, opens) = kv_get-Opens nats x y kv key r s s' e in
          Opens-Gives docs (λ p o. o ≡ Entry.construct p) (HandleCall.kv_get kv.ptr t) x y s s' r
            (λ e. cc) opens) in
      Gives-Keeps nats live (EntryOwnership.handle nats) (EntryOwnership.handle-IsOwner nats)
        Kind.kv_entry h
        (record h { clients = put h.clients a (some y); entries = keep b r h.entries }) h.entries b
        r s s' refl refl refl
        (λ k c n.
          held-entries nats (record h { clients = put h.clients a (some y) }) (keep b r h.entries) k
            c n
          ∙ held-clients nats h a x y k c here same)
        free given

  pub watches-Keeps :
      (h : Heap) (a b : Addr) (x y : NatsClient) (kv : KvStore) (key : View)
      (opts : Option KvWatchOptions) (r : Expected KvWatcher) (s s' : S)
      → h.clients a ≡ some x
      → h.watchers b ≡ none
      → kvs_watch nats x kv key opts s ≡ ok (r, y) s'
      → (k : Kind)
      → Keeps nats live k h s
          (record h { clients = put h.clients a (some y); watchers = keep b r h.watchers })
          s'
  watches-Keeps h a b x y kv key opts r s s' here free e =
      let (given, same) =
        (let (t, opens) = kvs_watch-Opens nats x y kv key opts r s s' e in
          Opens-Gives docs (λ p o. o ≡ Watcher.construct p) (HandleCall.kv_watch kv.ptr t opts) x y
            s s' r (λ e. cc) opens) in
      Gives-Keeps nats live (WatcherOwnership.handle nats) (WatcherOwnership.handle-IsOwner nats)
        Kind.kv_watcher h
        (record h { clients = put h.clients a (some y); watchers = keep b r h.watchers }) h.watchers
        b r s s' refl refl refl
        (λ k c n.
          held-watchers nats (record h { clients = put h.clients a (some y) }) (keep b r h.watchers)
            k c n
          ∙ held-clients nats h a x y k c here same)
        free given

  pub lists_keys-Keeps :
      (h : Heap) (a b : Addr) (x y : NatsClient) (kv : KvStore) (opts : Option KvWatchOptions)
      (r : Expected KvKeysList) (s s' : S)
      → h.clients a ≡ some x
      → h.key_lists b ≡ none
      → kvs_keys nats x kv opts s ≡ ok (r, y) s'
      → (k : Kind)
      → Keeps nats live k h s
          (record h { clients = put h.clients a (some y); key_lists = keep b r h.key_lists })
          s'
  lists_keys-Keeps h a b x y kv opts r s s' here free e =
      let (given, same) = kvs_keys-Gives docs x y kv opts s s' r e in
      Gives-Keeps nats live (KeysOwnership.handle nats) (KeysOwnership.handle-IsOwner nats)
        Kind.kv_keys_list h
        (record h { clients = put h.clients a (some y); key_lists = keep b r h.key_lists })
        h.key_lists b r s s' refl refl refl
        (λ k c n.
          held-key_lists nats (record h { clients = put h.clients a (some y) })
            (keep b r h.key_lists) k c n
          ∙ held-clients nats h a x y k c here same)
        free given
