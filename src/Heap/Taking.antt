-- ===== src/Heap/Taking.antt =====
-- Messages and updates that a program takes (include/nats_client/SubscriptionSync.hpp and Kv.hpp).
use mathlib.Core.Path.{subst}
use natsclient_cpp.Base.{◌≡◌, refl, sym, ◌∙◌, ℤ, Bool, Option, none, some, inl, inr, arith}
use natsclient_cpp.Nats.{Ptr, Kind, Library, ok}
use natsclient_cpp.Error.{Expected}
use natsclient_cpp.Handle.{Addr, put}
use natsclient_cpp.SubscriptionSync.{NatsSubscriptionSync, next_msg}
use natsclient_cpp.MessageView.{NatsMessageView}
use natsclient_cpp.MessageView.Ownership as MessageOwnership
use natsclient_cpp.Kv.Entry.{KvEntry}
use natsclient_cpp.Kv.Entry.Ownership as EntryOwnership
use natsclient_cpp.Kv.Watcher
use natsclient_cpp.Kv.Watcher.{KvWatcher}
use natsclient_cpp.Heap.{Heap, held, keep, keep_optional}
use natsclient_cpp.Heap.Documents.{Documents}
use natsclient_cpp.Heap.Frames.{
  kind_cases, held-subscriptions, held-watchers, held-messages, held-entries,
}
use natsclient_cpp.Heap.Special.{Keeps}
use natsclient_cpp.Heap.Opening.{Gives-Keeps}
use natsclient_cpp.Heap.Updates.{next_msg-Gives, next-Gives}

module _ {S : Type 0} (nats : Library S) (h : Heap) (a : Addr) where
  -- An object that keeps its pointer is replaced.
  pub held-same_subscription :
      (x y : NatsSubscriptionSync) (k : Kind) (c : Addr)
      → h.subscriptions a ≡ some x
      → y.ptr ≡ x.ptr
      → held nats (record h { subscriptions = put h.subscriptions a (some y) }) k c
        ≡ held nats h k c
  held-same_subscription x y k c here same = elim (kind_cases k Kind.subscription) [
    | inl e ↦
        subst
          (λ k.
            held nats (record h { subscriptions = put h.subscriptions a (some y) }) k c
            ≡ held nats h k c)
          (sym e) (ground arith)
    | inr n ↦ held-subscriptions nats h (put h.subscriptions a (some y)) k c n
  ]

  pub held-same_watcher :
      (x y : KvWatcher) (k : Kind) (c : Addr)
      → h.watchers a ≡ some x
      → y.ptr ≡ x.ptr
      → held nats (record h { watchers = put h.watchers a (some y) }) k c ≡ held nats h k c
  held-same_watcher x y k c here same = elim (kind_cases k Kind.kv_watcher) [
    | inl e ↦
        subst
          (λ k. held nats (record h { watchers = put h.watchers a (some y) }) k c ≡ held nats h k c)
          (sym e) (ground arith)
    | inr n ↦ held-watchers nats h (put h.watchers a (some y)) k c n
  ]

module _ {S : Type 0} {nats : Library S} {live : Kind → Ptr → S → Bool}
    (docs : Documents nats live) where
  pub takes_message-Keeps :
      (h : Heap) (a b : Addr) (x y : NatsSubscriptionSync) (timeout : ℤ)
      (r : Expected NatsMessageView) (s s' : S)
      → h.subscriptions a ≡ some x
      → h.messages b ≡ none
      → next_msg nats x timeout s ≡ ok (r, y) s'
      → (k : Kind)
      → Keeps nats live k h s
          (record h {
            subscriptions = put h.subscriptions a (some y);
            messages = keep b r h.messages;
          })
          s'
  takes_message-Keeps h a b x y timeout r s s' here free e =
      let (given, same) = next_msg-Gives docs x y timeout s s' r e in
      let h1 : Heap = record h { subscriptions = put h.subscriptions a (some y) } in
      Gives-Keeps nats live (MessageOwnership.handle nats) (MessageOwnership.handle-IsOwner nats)
        Kind.msg h (record h1 { messages = keep b r h.messages }) h.messages b r s s' refl refl refl
        (λ k c n.
          held-messages nats h1 (keep b r h.messages) k c n
          ∙ held-same_subscription nats h a x y k c here same)
        free given

  pub takes_update-Keeps :
      (h : Heap) (a b : Addr) (x y : KvWatcher) (timeout : ℤ) (r : Expected (Option KvEntry))
      (s s' : S)
      → h.watchers a ≡ some x
      → h.entries b ≡ none
      → Watcher.next nats x timeout s ≡ ok (r, y) s'
      → (k : Kind)
      → Keeps nats live k h s
          (record h { watchers = put h.watchers a (some y); entries = keep_optional b r h.entries })
          s'
  takes_update-Keeps h a b x y timeout r s s' here free e k =
      let (r', kept, given, same) = next-Gives docs x y timeout s s' r e in
      let h1 : Heap = record h { watchers = put h.watchers a (some y) } in
      rw (kept b h.entries) (
        Gives-Keeps nats live (EntryOwnership.handle nats) (EntryOwnership.handle-IsOwner nats)
          Kind.kv_entry h (record h1 { entries = keep b r' h.entries }) h.entries b r' s s' refl
          refl refl
          (λ k c n.
            held-entries nats h1 (keep b r' h.entries) k c n
            ∙ held-same_watcher nats h a x y k c here same)
          free given k)
