-- ===== src/Heap/Updates.antt =====
-- What `next_msg` and `KvWatcher::next` (include/nats_client/SubscriptionSync.hpp and Kv.hpp) do to the
-- handles that are live.
use natsclient_cpp.Base.{◌≡◌, refl, ap, Bool, Option, none, some, [], inl, inr, arith, ℤ}
use natsclient_cpp.Nats.{NatsStatus, Ptr, null, Kind, HandleCall, Library, ok}
use natsclient_cpp.Error.{Expected, expected, unexpected, Fits, nats_error}
use natsclient_cpp.SubscriptionSync.{NatsSubscriptionSync, next_msg}
use natsclient_cpp.MessageView
use natsclient_cpp.MessageView.{NatsMessageView}
use natsclient_cpp.Kv.Entry
use natsclient_cpp.Kv.Entry.{KvEntry}
use natsclient_cpp.Kv.Watcher
use natsclient_cpp.Kv.Watcher.{KvWatcher}
use natsclient_cpp.Kv.Watcher.Updates.{Answers, next-Answers}
use natsclient_cpp.Handle.{Addr, Memory}
use natsclient_cpp.Heap.{keep, keep_optional}
use natsclient_cpp.Heap.Documents.{Documents, Same}
use natsclient_cpp.Heap.Opening.{Gives, open-Gives}

module _ {S : Type 0} {nats : Library S} {live : Kind → Ptr → S → Bool}
    (docs : Documents nats live) where
  next_msg-calls :
      (x y : NatsSubscriptionSync) (timeout : ℤ) (s s' : S) (r : Expected NatsMessageView)
      → next_msg nats x timeout s ≡ ok (r, y) s'
      → let out = nats.open_handle (HandleCall.next_msg x.ptr timeout) null s in
        Fits nats out.0 (λ m. m ≡ MessageView.construct out.1) r × (y.ptr ≡ x.ptr) × (s' ≡ out.2)
  unfolding next_msg nats_error
  next_msg-calls x y timeout s s' r e = ground arith

  pub next_msg-Gives :
      (x y : NatsSubscriptionSync) (timeout : ℤ) (s s' : S) (r : Expected NatsMessageView)
      → next_msg nats x timeout s ≡ ok (r, y) s'
      → Gives live Kind.msg (λ p m. m ≡ MessageView.construct p) s r s' × (y.ptr ≡ x.ptr)
  next_msg-Gives x y timeout s s' r e =
      let (fits, same, es) = next_msg-calls x y timeout s s' r e in
      (
        rw es (
            open-Gives docs (λ p m. m ≡ MessageView.construct p) (HandleCall.next_msg x.ptr timeout)
              s s r (λ e. cc) (λ k q. refl) fits),
        same,
      )

  -- An update is read off the entry that the library wrote, if it wrote one.
  pub next-Gives :
      (x y : KvWatcher) (timeout : ℤ) (s s' : S) (r : Expected (Option KvEntry))
      → Watcher.next nats x timeout s ≡ ok (r, y) s'
      → (r' : Expected KvEntry) × ((b : Addr) (m : Memory KvEntry)
          → keep_optional b r m ≡ keep b r' m)
        × Gives live Kind.kv_entry (λ p e. e ≡ Entry.construct p) s r' s'
        × (y.ptr ≡ x.ptr)
  unfolding Entry.construct
  next-Gives x y timeout s s' r e =
      let (answers, same, es) : Answers nats out.0 out.1 r
          × (y ≡ record x { s = some out.0 })
          × (s' ≡ out.2) =
        rw e at (next-Answers nats x timeout s) in
      let (r', kept, given) = by r answers in (r', kept, rw es given, ap (λ w. w.ptr) same)
    where
      out : NatsStatus × Ptr × S
      out = nats.open_handle (HandleCall.watcher_next x.ptr timeout) null s

      none_new : out.0 ≡ nats.nats_ok → out.1 ≡ null → Same live s out.2
      none_new e z = elim (docs.opens (HandleCall.watcher_next x.ptr timeout) null s e) [
        | inl (_, same) ↦ same
        | inr (n, _) ↦ absurd (n z)
      ]

      by :
          (r : Expected (Option KvEntry))
          → Answers nats out.0 out.1 r
          → (r' : Expected KvEntry) × ((b : Addr) (m : Memory KvEntry)
              → keep_optional b r m ≡ keep b r' m)
            × Gives live Kind.kv_entry (λ p e. e ≡ Entry.construct p) s r' out.2
      by (expected none) (e, z) = (
        unexpected (record { status = 0; status_text = []; message = [] }),
        (λ b m. refl),
        none_new e z,
      )
      by (expected (some entry)) (e, n, made) =
          (expected entry, (λ b m. refl), (out.1, ground (arith, made), docs.opens _ null s e))
      by (unexpected f) (n, _, _) =
          (unexpected f, (λ b m. refl), (docs.refuses _ null s (λ e. cc) n).1)
