-- ===== src/Client/Lifetime.antt =====
-- What becomes of the connection, the options and the JetStream context of a client
-- (include/nats_client/Client.hpp): its creation, moves and destruction.
use natsclient_cpp.Base.{◌≡◌, ◌≢◌, some, arith, ◌==◌, if◌then◌else◌}
use natsclient_cpp.Nats.{Ptr, null, Kind, HandleCall, Library, ok, undefined, Returns}
use natsclient_cpp.Error.{expected, nats_error, Fits}
use natsclient_cpp.Handle.{Addr, Memory, put}
use natsclient_cpp.Options
use natsclient_cpp.Client.{NatsClient, cleanup, destruct, move_assign, create}
use natsclient_cpp.Client.Connection.{connect}

-- A client that has given back all that it held.
abbrev pub emptied : NatsClient → NatsClient
emptied self = record self { conn = null; opts = record self.opts { ptr = null }; js = null }

-- A client that holds the options and nothing else.
abbrev pub HoldsOptions : Ptr → NatsClient → Type 0
HoldsOptions p client =
    (client.conn ≡ null) × (client.opts ≡ Options.construct p) × (client.js ≡ null)

module _ {S : Type 0} (nats : Library S) where
  abbrev pub give_back : Kind → Ptr → S → S
  give_back k p s = if p == null then s else nats.destroy k p s

  -- The three that a client holds, in the order in which they are given back.
  abbrev pub give_back_all : NatsClient → S → S
  give_back_all self s =
      give_back Kind.js_ctx self.js
        (give_back Kind.options self.opts.ptr (give_back Kind.connection self.conn s))

  cleanup-give_back_all :
      (self : NatsClient) (s : S) → cleanup nats self s ≡ ok (emptied self) (give_back_all self s)
  unfolding cleanup
  cleanup-give_back_all self s = ground arith

  pub destruct-give_back_all :
      (self : NatsClient) (s : S) → destruct nats self s ≡ ok (emptied self) (give_back_all self s)
  unfolding destruct
  destruct-give_back_all self s = ground arith

  -- Assigning a client to itself changes nothing.
  pub move_assign_self :
      (a : Addr) (m : Memory NatsClient) (s : S) → move_assign nats a a m s ≡ ok m s
  unfolding move_assign
  move_assign_self a m s = ground arith

  pub move_assign-passes_on :
      (a b : Addr) (x y : NatsClient) (m : Memory NatsClient) (s : S)
      → a ≢ b
      → m a ≡ some x
      → m b ≡ some y
      → move_assign nats a b m s
        ≡ ok
            (put
              (put m a (some (record x { conn = y.conn; opts = y.opts; js = null })))
              b
              (some (record y { conn = null; opts = Options.construct null })))
            (give_back_all x s)
  unfolding move_assign Options.construct
  move_assign-passes_on a b x y m s ne ea eb = ground arith

  pub create-Fits :
      (s : S)
      → let out = nats.open_handle HandleCall.options_create null s in
        Returns (λ r t. Fits nats out.0 (HoldsOptions out.1) r × (t ≡ out.2)) (create nats s)
  unfolding create nats_error
  create-Fits s = ground arith

  -- A client that was just created and has had no option set has options whose status is
  -- indeterminate, so connecting it is undefined.
  connect-create :
      (s t : S) (client : NatsClient)
      → create nats s ≡ ok (expected client) t
      → connect nats client t ≡ undefined
  unfolding create connect
  connect-create s t client e = ground arith
