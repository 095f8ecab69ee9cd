-- ===== src/Kv/Entry.antt =====
-- `KvEntry` (include/nats_client/Kv.hpp): one revision of a key.
pub mod Ownership
use natsclient_cpp.Base.{ℕ, ℤ, none, some, ◌==◌, ◌!=◌, if◌then◌else◌}
use natsclient_cpp.Nats.{
  Ptr, null, Kind, TextCall, NumberCall, DataCall, Library, M, pure, ◌>>=◌, ◌>>◌, reading, effect,
  View, string_view,
}
use natsclient_cpp.Handle.{Addr, Memory, put, object}

pub record KvEntry : Type 0 where
  pub ptr : Ptr

unfoldable pub construct : Ptr → KvEntry
construct kv_entry = record { ptr = kv_entry }

-- The new object, and the one that it was moved from.
unfoldable pub move_construct : KvEntry → KvEntry × KvEntry
move_construct other = (record { ptr = other.ptr }, record other { ptr = null })

module _ {S : Type 0} (nats : Library S) where
  -- The object as the body leaves it.
  unfoldable pub destruct : KvEntry → M S KvEntry
  destruct self =
      if self.ptr != null
      then (do effect (nats.destroy Kind.kv_entry self.ptr); pure (record self { ptr = null }))
      else pure self

  unfoldable pub move_assign : Addr → Addr → Memory KvEntry → M S (Memory KvEntry)
  move_assign this other m =
      if this != other
      then (do
        old ← object m this
        self ←
            if old.ptr != null
            then (do effect (nats.destroy Kind.kv_entry old.ptr); pure (record old { ptr = null }))
            else pure old
        from ← object m other
        pure (
            put (put m this (some (record self { ptr = from.ptr }))) other
              (some (record from { ptr = null }))))
      else pure m

  -- The three texts become views by `string_view(const char*)`.
  unfoldable pub bucket : KvEntry → M S View
  bucket self = do t ← reading (nats.text (TextCall.entry_bucket self.ptr)); string_view t

  unfoldable pub key : KvEntry → M S View
  key self = do t ← reading (nats.text (TextCall.entry_key self.ptr)); string_view t

  unfoldable pub value_string : KvEntry → M S View
  value_string self = do
    t ← reading (nats.text (TextCall.entry_value_string self.ptr))
    string_view t

  unfoldable pub value_len : KvEntry → M S ℕ
  value_len self = reading (nats.data_size (DataCall.entry_value self.ptr))

  unfoldable pub value_bytes : KvEntry → M S View
  value_bytes self = do
    d ← reading (nats.data_at (DataCall.entry_value self.ptr))
    size ← value_len self
    pure (record { bytes = d; size = size })

  unfoldable pub revision : KvEntry → M S ℤ
  revision self = reading (nats.number (NumberCall.entry_revision self.ptr))

  unfoldable pub created : KvEntry → M S ℤ
  created self = reading (nats.number (NumberCall.entry_created self.ptr))

  unfoldable pub delta : KvEntry → M S ℤ
  delta self = reading (nats.number (NumberCall.entry_delta self.ptr))

  -- The enumerator of `kvOperation`.
  unfoldable pub operation : KvEntry → M S ℤ
  operation self = reading (nats.number (NumberCall.entry_operation self.ptr))
