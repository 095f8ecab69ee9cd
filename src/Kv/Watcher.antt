-- ===== src/Kv/Watcher.antt =====
-- `KvWatcher` (include/nats_client/Kv.hpp): a stream of updates.
pub mod Ownership
pub mod Updates
use natsclient_cpp.Base.{ℤ, Option, none, some, codes, ◌==◌, ◌!=◌, if◌then◌else◌}
use natsclient_cpp.Nats.{
  Ptr, null, NatsStatus, Kind, StatusCall, HandleCall, Library, M, pure, ◌>>=◌, ◌>>◌, returning,
  writing, effect,
}
use natsclient_cpp.Error.{nats_error, Expected, expected, unexpected, success}
use natsclient_cpp.Handle.{Addr, Memory, put, object}
use natsclient_cpp.Kv.Entry
use natsclient_cpp.Kv.Entry.{KvEntry}

-- `s` is indeterminate (`none`) until a call sets it.
pub record KvWatcher : Type 0 where
  pub ptr : Ptr
  pub s : Option NatsStatus

unfoldable pub construct : Ptr → KvWatcher
construct kv_watcher = record { ptr = kv_watcher; s = none }

-- The new object, and the one that it was moved from. `s` does not move.
unfoldable pub move_construct : KvWatcher → KvWatcher × KvWatcher
move_construct other = (record { ptr = other.ptr; s = none }, record other { ptr = null })

module _ {S : Type 0} (nats : Library S) where
  -- The object as the body leaves it.
  unfoldable pub destruct : KvWatcher → M S KvWatcher
  destruct self =
      if self.ptr != null
      then (do effect (nats.destroy Kind.kv_watcher self.ptr); pure (record self { ptr = null }))
      else pure self

  unfoldable pub move_assign : Addr → Addr → Memory KvWatcher → M S (Memory KvWatcher)
  move_assign this other m =
      if this != other
      then (do
        old ← object m this
        self ←
            if old.ptr != null
            then (do
              effect (nats.destroy Kind.kv_watcher old.ptr)
              pure (record old { ptr = null }))
            else pure old
        from ← object m other
        pure (
            put (put m this (some (record self { ptr = from.ptr }))) other
              (some (record from { ptr = null }))))
      else pure m

  -- The result, and the watcher after the call.
  unfoldable pub next : KvWatcher → ℤ → M S (Expected (Option KvEntry) × KvWatcher)
  unfolding Entry.construct
  next self timeout_ms = do
    (s, e) ← writing (nats.open_handle (HandleCall.watcher_next self.ptr timeout_ms) null)
    let self' : KvWatcher = record self { s = some s }
    if s != nats.nats_ok
        then pure
            (unexpected (nats_error nats s (codes "Failed to get next KV watcher update.")), self')
        else if e == null
        then pure (expected none, self')
        else pure (expected (some (Entry.construct e)), self')

  unfoldable pub stop : KvWatcher → M S (Expected (Unit {0}) × KvWatcher)
  stop self = do
    s ← returning (nats.call (StatusCall.watcher_stop self.ptr))
    let self' : KvWatcher = record self { s = some s }
    if s != nats.nats_ok
        then pure (unexpected (nats_error nats s (codes "Failed to stop KV watcher.")), self')
        else pure (success, self')
