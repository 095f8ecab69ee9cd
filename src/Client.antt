-- ===== src/Client.antt =====
-- `NatsClient` (include/nats_client/Client.hpp): its state and special members. The operations are in
-- the children.
pub mod Connection
pub mod Buckets
pub mod Entries
pub mod Messages
pub mod Callbacks
pub mod Lifetime
pub mod Outcomes
pub mod Operation
use natsclient_cpp.Base.{Option, none, some, Text, codes, ◌==◌, ◌!=◌, if◌then◌else◌}
use natsclient_cpp.Nats.{
  Ptr, null, NatsStatus, Kind, StatusCall, HandleCall, JsOptions, Library, M, pure, ◌>>=◌, ◌>>◌,
  returning, writing, effect,
}
use natsclient_cpp.Error.{NatsError, nats_error, Expected, expected, unexpected}
use natsclient_cpp.Handle.{Addr, Memory, put, object}
use natsclient_cpp.Options
use natsclient_cpp.Options.{NatsOptions}

-- `s` and `js_opts` are indeterminate (`none`) until an operation sets them.
pub record NatsClient : Type 0 where
  pub conn : Ptr
  pub opts : NatsOptions
  pub js : Ptr
  pub s : Option NatsStatus
  pub js_opts : Option JsOptions

-- The client, and the options that it was made from.
unfoldable pub construct : NatsOptions → NatsClient × NatsOptions
unfolding Options.move_construct
construct opts =
    let (mine, rest) = Options.move_construct opts in
    (record { conn = null; opts = mine; js = null; s = none; js_opts = none }, rest)

-- The new client, and the one that it was moved from.
unfoldable pub move_construct : NatsClient → NatsClient × NatsClient
unfolding Options.move_construct
move_construct other =
    let (mine, rest) = Options.move_construct other.opts in
    (
      record { conn = other.conn; opts = mine; js = null; s = none; js_opts = none },
      record other { conn = null; opts = rest },
    )

module _ {S : Type 0} (nats : Library S) where
  close_connection : NatsClient → M S NatsClient
  close_connection self =
      if self.conn != null
      then (do effect (nats.destroy Kind.connection self.conn); pure (record self { conn = null }))
      else pure self

  close_jet_stream : NatsClient → M S NatsClient
  close_jet_stream self =
      if self.js != null
      then (do effect (nats.destroy Kind.js_ctx self.js); pure (record self { js = null }))
      else pure self

  unfoldable pub cleanup : NatsClient → M S NatsClient
  unfolding close_connection close_jet_stream Options.destruct
  cleanup self = do
    closed ← close_connection self
    opts ← Options.destruct nats closed.opts
    close_jet_stream (record closed { opts = opts })

  -- The body, and then the destructor of the member `opts`, which thus runs twice.
  unfoldable pub destruct : NatsClient → M S NatsClient
  unfolding cleanup Options.destruct
  destruct self = do
    cleaned ← cleanup self
    opts ← Options.destruct nats cleaned.opts
    pure (record cleaned { opts = opts })

  -- `other.opts = nullptr` assigns from a temporary, whose destructor then runs.
  unfoldable pub move_assign : Addr → Addr → Memory NatsClient → M S (Memory NatsClient)
  unfolding cleanup Options.assign_from Options.construct Options.destruct
  move_assign this other m =
      if this != other
      then (do
        old ← object m this
        self ← cleanup old
        from ← object m other
        (mine, rest) ← Options.assign_from nats self.opts from.opts
        (emptied, temporary) ← Options.assign_from nats rest (Options.construct null)
        _ ← Options.destruct nats temporary
        pure (
            put (put m this (some (record self { conn = from.conn; opts = mine }))) other
              (some (record from { conn = null; opts = emptied }))))
      else pure m

  -- The client moves from the temporary that is constructed into the result; then the temporaries
  -- are destroyed.
  unfoldable pub create : M S (Expected NatsClient)
  unfolding construct move_construct destruct Options.construct Options.destruct
  create = do
    (s, opts) ← writing (nats.open_handle HandleCall.options_create null)
    if s != nats.nats_ok
        then pure (unexpected (nats_error nats s (codes "Error creating NATS options struct.")))
        else (do
          let (temporary, rest) = construct (Options.construct opts)
          let (client, emptied) = move_construct temporary
          _ ← destruct emptied
          _ ← Options.destruct nats rest
          pure (expected client))

  -- An operation returns its result and the client after it.
  abbrev pub Outcome : Type 0 → Type 0
  Outcome A = M S (Expected A × NatsClient)

  -- `return unexpected(NatsError(s, …))` where the client's `s` has just been set to `s`. The message
  -- is put together only now.
  abbrev pub fail : {A : Type 0} → NatsClient → NatsStatus → M S Text → Outcome A
  fail self s message = do text ← message; pure (unexpected (nats_error nats s text), self)

  -- `if ((s = …) != NATS_OK) return unexpected(NatsError(s, …));` and what follows, for a call that
  -- writes nothing back, and for one that writes a pointer over `old`.
  abbrev pub attempt :
      {A : Type 0} → NatsClient → StatusCall → M S Text → (NatsClient → Outcome A) → Outcome A
  attempt self call message next = do
    s ← returning (nats.call call)
    let self' : NatsClient = record self { s = some s }
    if s != nats.nats_ok then fail self' s message else next self'

  abbrev pub attempt_open :
      {A : Type 0}
      → NatsClient
      → HandleCall
      → Ptr
      → M S Text
      → (NatsClient → Ptr → Outcome A)
      → Outcome A
  attempt_open self call old message next = do
    (s, ptr) ← writing (nats.open_handle call old)
    let self' : NatsClient = record self { s = some s }
    if s != nats.nats_ok then fail self' s message else next self' ptr
