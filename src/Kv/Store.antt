-- ===== src/Kv/Store.antt =====
-- `KvStore` (include/nats_client/Kv.hpp): a bucket that is open.
pub mod Ownership
use natsclient_cpp.Base.{none, some, ◌==◌, ◌!=◌, if◌then◌else◌}
use natsclient_cpp.Nats.{
  Ptr, null, Kind, TextCall, Library, M, pure, ◌>>=◌, ◌>>◌, reading, effect, View, string_view,
}
use natsclient_cpp.Handle.{Addr, Memory, put, object}

pub record KvStore : Type 0 where
  pub ptr : Ptr

unfoldable pub construct : Ptr → KvStore
construct kv_store = record { ptr = kv_store }

-- The new object, and the one that it was moved from.
unfoldable pub move_construct : KvStore → KvStore × KvStore
move_construct other = (record { ptr = other.ptr }, record other { ptr = null })

module _ {S : Type 0} (nats : Library S) where
  -- The object as the body leaves it.
  unfoldable pub destruct : KvStore → M S KvStore
  destruct self =
      if self.ptr != null
      then (do effect (nats.destroy Kind.kv_store self.ptr); pure (record self { ptr = null }))
      else pure self

  unfoldable pub move_assign : Addr → Addr → Memory KvStore → M S (Memory KvStore)
  move_assign this other m =
      if this != other
      then (do
        old ← object m this
        self ←
            if old.ptr != null
            then (do effect (nats.destroy Kind.kv_store old.ptr); pure (record old { ptr = null }))
            else pure old
        from ← object m other
        pure (
            put (put m this (some (record self { ptr = from.ptr }))) other
              (some (record from { ptr = null }))))
      else pure m

  unfoldable pub bucket : KvStore → M S View
  bucket self = do name ← reading (nats.text (TextCall.store_bucket self.ptr)); string_view name
