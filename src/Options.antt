-- ===== src/Options.antt =====
-- `NatsOptions` (include/nats_client/Options.hpp): the options of a connection, and a status.
pub mod Ownership
pub mod Texts
pub mod Flags
pub mod Numbers
pub mod Setters
pub mod Chain
pub mod Deadline
use natsclient_cpp.Base.{
  ℕ, Option, none, some, List, [], ◌∷◌, ◌++◌, Text, length, ◌==◌, ◌!=◌, if◌then◌else◌,
}
use natsclient_cpp.Nats.{
  Ptr, null, NatsStatus, CString, Kind, StatusCall, OptionCall, Library, M, pure, ◌>>=◌, ◌>>◌,
  returning, effect,
}
use natsclient_cpp.Handle.{Addr, Memory, put, object}

-- `s` is indeterminate (`none`) until a setter sets it.
pub record NatsOptions : Type 0 where
  pub ptr : Ptr
  pub s : Option NatsStatus

unfoldable pub construct : Ptr → NatsOptions
construct opts = record { ptr = opts; s = none }

-- The new object, and the one that it was moved from. `s` is copied.
unfoldable pub move_construct : NatsOptions → NatsOptions × NatsOptions
move_construct other = (record { ptr = other.ptr; s = other.s }, record other { ptr = null })

-- `for (const auto& server : servers) servers_c.push_back(server.c_str());`
push_servers : List Text → List CString → List CString
push_servers [] servers_c = servers_c
push_servers (server ∷ servers) servers_c = push_servers servers (servers_c ++ some server ∷ [])

module _ {S : Type 0} (nats : Library S) where
  -- The object as the body leaves it.
  unfoldable pub destruct : NatsOptions → M S NatsOptions
  destruct self =
      if self.ptr != null
      then (do effect (nats.destroy Kind.options self.ptr); pure (record self { ptr = null }))
      else pure self

  -- To the object at `this`, from one that lies elsewhere: both as the body leaves them.
  unfoldable pub assign_from : NatsOptions → NatsOptions → M S (NatsOptions × NatsOptions)
  assign_from old from = do
    self ←
        if old.ptr != null
        then (do effect (nats.destroy Kind.options old.ptr); pure (record old { ptr = null }))
        else pure old
    pure (record self { ptr = from.ptr; s = from.s }, record from { ptr = null })

  unfoldable pub move_assign : Addr → Addr → Memory NatsOptions → M S (Memory NatsOptions)
  unfolding assign_from
  move_assign this other m =
      if this != other
      then (do
        old ← object m this
        from ← object m other
        (self, rest) ← assign_from old from
        pure (put (put m this (some self)) other (some rest)))
      else pure m

  -- `s = natsOptions_…(ptr, …); return *this;`, as in every setter.
  unfoldable pub apply : OptionCall → NatsOptions → M S NatsOptions
  apply call self = do
    s ← returning (nats.call (StatusCall.option self.ptr call))
    pure (record self { s = some s })

  -- Each C text is that of a `std::string`, which ends in a NUL.
  unfoldable pub set_servers : NatsOptions → List Text → M S NatsOptions
  unfolding push_servers apply
  set_servers self servers =
      let servers_c = push_servers servers [] in
      apply (OptionCall.set_servers servers_c (length servers_c)) self
