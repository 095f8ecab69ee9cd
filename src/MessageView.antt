-- ===== src/MessageView.antt =====
-- `NatsMessageView` (include/nats_client/MessageView.hpp): a received message.
pub mod Ownership
use natsclient_cpp.Base.{ℕ, none, some, ◌==◌, ◌!=◌, if◌then◌else◌}
use natsclient_cpp.Nats.{
  Ptr, null, Kind, TextCall, DataCall, Library, M, pure, ◌>>=◌, ◌>>◌, reading, effect, View,
  string_view,
}
use natsclient_cpp.Handle.{Addr, Memory, put, object}

pub record NatsMessageView : Type 0 where
  pub ptr : Ptr

unfoldable pub construct : Ptr → NatsMessageView
construct msg = record { ptr = msg }

-- The new object, and the one that it was moved from.
unfoldable pub move_construct : NatsMessageView → NatsMessageView × NatsMessageView
move_construct other = (record { ptr = other.ptr }, record other { ptr = null })

module _ {S : Type 0} (nats : Library S) where
  -- The object as the body leaves it.
  unfoldable pub destruct : NatsMessageView → M S NatsMessageView
  destruct self =
      if self.ptr != null
      then (do effect (nats.destroy Kind.msg self.ptr); pure (record self { ptr = null }))
      else pure self

  unfoldable pub move_assign : Addr → Addr → Memory NatsMessageView → M S (Memory NatsMessageView)
  move_assign this other m =
      if this != other
      then (do
        self ← object m this
        from ← object m other
        if self.ptr != null then effect (nats.destroy Kind.msg self.ptr) else pure tt
        pure (
            put (put m this (some (record self { ptr = from.ptr }))) other
              (some (record from { ptr = null }))))
      else pure m

  unfoldable pub subject : NatsMessageView → M S View
  subject self = do t ← reading (nats.text (TextCall.msg_subject self.ptr)); string_view t

  -- `span<const byte>`
  unfoldable pub data_span : NatsMessageView → M S View
  data_span self = do
    d ← reading (nats.data_at (DataCall.msg_data self.ptr))
    n ← reading (nats.data_size (DataCall.msg_data self.ptr))
    pure (record { bytes = d; size = n })

  -- The same bytes as a `string_view`, which takes its size from the message.
  unfoldable pub string : NatsMessageView → M S View
  string self = do
    d ← reading (nats.data_at (DataCall.msg_data self.ptr))
    n ← reading (nats.data_size (DataCall.msg_data self.ptr))
    pure (record { bytes = d; size = n })

  unfoldable pub data_length : NatsMessageView → M S ℕ
  data_length self = reading (nats.data_size (DataCall.msg_data self.ptr))
