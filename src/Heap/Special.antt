-- ===== src/Heap/Special.antt =====
-- The special members of the classes other than the client (include/nats_client), in a program.
use mathlib.Core.Path.{subst}
use natsclient_cpp.Base.{◌≡◌, ◌≢◌, refl, sym, ◌∙◌, ap, Bool, inl, inr, arith}
use natsclient_cpp.Nats.{Ptr, Kind, Library}
use natsclient_cpp.Handle.{Addr, Memory, Handle, IsOwner, release}
use natsclient_cpp.Handle.Ownership.{holders, Member, Member-Transfers, Member-releases}
use natsclient_cpp.SubscriptionSync.{NatsSubscriptionSync}
use natsclient_cpp.SubscriptionSync.Ownership as SubscriptionOwnership
use natsclient_cpp.MessageView.{NatsMessageView}
use natsclient_cpp.MessageView.Ownership as MessageOwnership
use natsclient_cpp.Kv.Store.{KvStore}
use natsclient_cpp.Kv.Store.Ownership as StoreOwnership
use natsclient_cpp.Kv.Entry.{KvEntry}
use natsclient_cpp.Kv.Entry.Ownership as EntryOwnership
use natsclient_cpp.Kv.Watcher.{KvWatcher}
use natsclient_cpp.Kv.Watcher.Ownership as WatcherOwnership
use natsclient_cpp.Kv.KeysList.{KvKeysList}
use natsclient_cpp.Kv.KeysList.Ownership as KeysOwnership
use natsclient_cpp.Heap.{Heap, held}
use natsclient_cpp.Heap.Documents.{Documents}
use natsclient_cpp.Heap.Custody.{Transfers, one, nothing_new}
use natsclient_cpp.Heap.Frames.{
  kind_cases, held-subscriptions, held-messages, held-buckets, held-entries, held-watchers,
  held-key_lists,
}

module _ {S : Type 0} (nats : Library S) (live : Kind → Ptr → S → Bool) where
  -- What a step does to the handles of one kind.
  abbrev pub Keeps : Kind → Heap → S → Heap → S → Type 0
  Keeps k h s h' s' = Transfers (nats.destroy k) (live k) (held nats h k) s (held nats h' k) s'

module _ {S : Type 0} {nats : Library S} {live : Kind → Ptr → S → Bool}
    (docs : Documents nats live) where
  release-kinds :
      {A : Type 0} (c : Handle S A) (k k' : Kind) (p q : Ptr) (s : S)
      → c.destroy ≡ nats.destroy k
      → k' ≢ k
      → live k' q (release c p s) ≡ live k' q s
  release-kinds c k k' p q s e n = ground (arith, ap (λ f. f p s) e, docs.spares_kinds k k' p q s n)

  module _ {A : Type 0} (c : Handle S A) (o : IsOwner c) (k : Kind) where
    Member-kinds :
        {m m' : Memory A} {s s' : S} (k' : Kind) (q : Ptr)
        → c.destroy ≡ nats.destroy k
        → k' ≢ k
        → Member c m s m' s'
        → live k' q s' ≡ live k' q s
    Member-kinds {s = s} k' q e n member =
        let (p, ep) = Member-releases c (live k) o member in
        ap (live k' q) ep ∙ release-kinds c k k' p q s e n

    Member-Keeps :
        (h h' : Heap) (m m' : Memory A) (s s' : S)
        → c.destroy ≡ nats.destroy k
        → holders c m ≡ held nats h k
        → holders c m' ≡ held nats h' k
        → ((k' : Kind) (a : Addr) → k' ≢ k → held nats h' k' a ≡ held nats h k' a)
        → Member c m s m' s'
        → (k' : Kind) → Keeps nats live k' h s h' s'
    Member-Keeps h h' m m' s s' ed eh eh' others member k' = elim (kind_cases k' k) [
      | inl e ↦
          let t : Transfers c.destroy (live k) (holders c m) s (holders c m') s' =
            one (Member-Transfers c (live k) o member) in
          subst (λ k. Keeps nats live k h s h' s') (sym e) (rw (ed, eh, eh') at t)
      | inr n ↦ nothing_new (λ q. Member-kinds k' q ed n member) (λ a. others k' a n)
    ]

  pub on_subscription-Keeps :
      (h : Heap) (m : Memory NatsSubscriptionSync) (s s' : S)
      → Member (SubscriptionOwnership.handle nats) h.subscriptions s m s'
      → (k : Kind) → Keeps nats live k h s (record h { subscriptions = m }) s'
  on_subscription-Keeps h m s s' member =
      Member-Keeps (SubscriptionOwnership.handle nats) (SubscriptionOwnership.handle-IsOwner nats)
        Kind.subscription h (record h { subscriptions = m }) h.subscriptions m s s' refl refl refl
        (λ k a. held-subscriptions nats h m k a) member

  pub on_message-Keeps :
      (h : Heap) (m : Memory NatsMessageView) (s s' : S)
      → Member (MessageOwnership.handle nats) h.messages s m s'
      → (k : Kind) → Keeps nats live k h s (record h { messages = m }) s'
  on_message-Keeps h m s s' member =
      Member-Keeps (MessageOwnership.handle nats) (MessageOwnership.handle-IsOwner nats) Kind.msg h
        (record h { messages = m }) h.messages m s s' refl refl refl
        (λ k a. held-messages nats h m k a) member

  pub on_bucket-Keeps :
      (h : Heap) (m : Memory KvStore) (s s' : S)
      → Member (StoreOwnership.handle nats) h.buckets s m s'
      → (k : Kind) → Keeps nats live k h s (record h { buckets = m }) s'
  on_bucket-Keeps h m s s' member =
      Member-Keeps (StoreOwnership.handle nats) (StoreOwnership.handle-IsOwner nats) Kind.kv_store h
        (record h { buckets = m }) h.buckets m s s' refl refl refl
        (λ k a. held-buckets nats h m k a) member

  pub on_entry-Keeps :
      (h : Heap) (m : Memory KvEntry) (s s' : S)
      → Member (EntryOwnership.handle nats) h.entries s m s'
      → (k : Kind) → Keeps nats live k h s (record h { entries = m }) s'
  on_entry-Keeps h m s s' member =
      Member-Keeps (EntryOwnership.handle nats) (EntryOwnership.handle-IsOwner nats) Kind.kv_entry h
        (record h { entries = m }) h.entries m s s' refl refl refl
        (λ k a. held-entries nats h m k a) member

  pub on_watcher-Keeps :
      (h : Heap) (m : Memory KvWatcher) (s s' : S)
      → Member (WatcherOwnership.handle nats) h.watchers s m s'
      → (k : Kind) → Keeps nats live k h s (record h { watchers = m }) s'
  on_watcher-Keeps h m s s' member =
      Member-Keeps (WatcherOwnership.handle nats) (WatcherOwnership.handle-IsOwner nats)
        Kind.kv_watcher h (record h { watchers = m }) h.watchers m s s' refl refl refl
        (λ k a. held-watchers nats h m k a) member

  pub on_key_list-Keeps :
      (h : Heap) (m : Memory KvKeysList) (s s' : S)
      → Member (KeysOwnership.handle nats) h.key_lists s m s'
      → (k : Kind) → Keeps nats live k h s (record h { key_lists = m }) s'
  on_key_list-Keeps h m s s' member =
      Member-Keeps (KeysOwnership.handle nats) (KeysOwnership.handle-IsOwner nats) Kind.kv_keys_list
        h (record h { key_lists = m }) h.key_lists m s s' refl refl refl
        (λ k a. held-key_lists nats h m k a) member
