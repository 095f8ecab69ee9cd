-- ===== src/Kv/Watcher/Updates.antt =====
-- What `KvWatcher::next` and `stop` report.
use natsclient_cpp.Base.{◌≡◌, ◌≢◌, ℤ, Option, none, some, arith}
use natsclient_cpp.Nats.{Ptr, null, NatsStatus, HandleCall, StatusCall, Library, Returns}
use natsclient_cpp.Error.{Expected, expected, unexpected, nats_error, Reports}
use natsclient_cpp.Kv.Entry
use natsclient_cpp.Kv.Entry.{KvEntry}
use natsclient_cpp.Kv.Watcher.{KvWatcher, next, stop}

module _ {S : Type 0} (nats : Library S) where
  -- What a caller of `next` may conclude from the library's answer, a status and an entry.
  abbrev pub Answers : NatsStatus → Ptr → Expected (Option KvEntry) → Type 0
  Answers s e (unexpected error) =
      (s ≢ nats.nats_ok) × (error.status ≡ s) × (error.status_text ≡ nats.get_text s)
  Answers s e (expected none) = (s ≡ nats.nats_ok) × (e ≡ null)
  Answers s e (expected (some entry)) = (s ≡ nats.nats_ok) × (e ≢ null) × (entry.ptr ≡ e)

  -- `next` always returns. Whatever it returns can be read back: an error is the library's status
  -- with its text, `nullopt` a success without an entry, and an entry a success with that entry,
  -- never a null one. The watcher keeps its C watcher and remembers the status.
  pub next-Answers :
      (self : KvWatcher) (timeout_ms : ℤ) (s : S)
      → let out = nats.open_handle (HandleCall.watcher_next self.ptr timeout_ms) null s in
        Returns
          (λ (r, after) t.
            Answers out.0 out.1 r × (after ≡ record self { s = some out.0 }) × (t ≡ out.2))
          (next nats self timeout_ms s)
  unfolding next nats_error Entry.construct
  next-Answers self timeout_ms s = ground arith

  -- `stop` always returns. It succeeds exactly if the library says so; else the error carries the
  -- library's status and its text. The watcher keeps its C watcher and remembers the status.
  stop-Reports :
      (self : KvWatcher) (s : S)
      → let out = nats.call (StatusCall.watcher_stop self.ptr) s in
        Returns
          (λ (r, after) t.
            Reports nats out.0 r × (after ≡ record self { s = some out.0 }) × (t ≡ out.1))
          (stop nats self s)
  unfolding stop nats_error
  stop-Reports self s = ground arith
