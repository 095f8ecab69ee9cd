-- ===== src/Client/Connection/Setup.antt =====
-- What `connect` and `jet_stream` do, against a list of the calls in order.
use natsclient_cpp.Base.{
  ◌≡◌, ◌≢◌, pos, Bool, true, Option, none, some, List, [], ◌∷◌, arith, ◌!=◌, if◌then◌else◌,
}
use natsclient_cpp.Nats.{
  Ptr, null, NatsStatus, StatusCall, OptionCall, Callback, HandleCall, JsOptions, Library, Run, ok,
  undefined,
}
use natsclient_cpp.Error.{Expected, nats_error, success}
use natsclient_cpp.Client.{NatsClient}
use natsclient_cpp.Client.Outcomes.{Yields}
use natsclient_cpp.Client.Connection.{connect, jet_stream}

module _ {S : Type 0} (nats : Library S) where
  -- The callbacks, in the order in which they are registered.
  abbrev pub callbacks : List Callback
  callbacks =
      Callback.disconnected_callback ∷ Callback.reconnected_callback ∷ Callback.closed_callback
      ∷ Callback.error_handler_callback ∷ []

  -- They are registered one by one up to the first failure: the status, and the library's state.
  unfoldable pub registered : Ptr → List Callback → S → NatsStatus × S
  registered p [] s = (nats.nats_ok, s)
  registered p (c ∷ l) s =
      let out = nats.call (StatusCall.option p (OptionCall.set_callback c null)) s in
      let rest = registered p l out.1 in if out.0 != nats.nats_ok then out else rest

  -- The run reports the status `st`, and leaves a client and a state.
  abbrev pub Leaves :
      {A : Type 0} → NatsStatus → NatsClient → S → Run S (Expected A × NatsClient) → Type 0
  Leaves st client after run = Yields nats st (λ _. Unit {0}) client after run

  -- What is left after `registered`: a failure ends it, else the connection is opened.
  abbrev pub Opens : NatsClient → NatsStatus × S → Run S (Expected (Unit {0}) × NatsClient) → Type 0
  Opens self pre run =
      let out = nats.open_handle (HandleCall.connect self.opts.ptr) self.conn pre.1 in
      if pre.0 != nats.nats_ok
      then Leaves pre.0 (record self { s = some pre.0 }) pre.1 run
      else Leaves out.0 (record self { s = some out.0; conn = out.1 }) out.2 run

  abbrev pub Connects :
      NatsClient → S → Option NatsStatus → Run S (Expected (Unit {0}) × NatsClient) → Type 0
  Connects self s none run = run ≡ undefined
  Connects self s (some st) run =
      if st != nats.nats_ok
      then Leaves st self s run
      else Opens self (registered self.opts.ptr callbacks s) run

  -- `connect` has a defined outcome exactly if the options' status is set. If that is not `NATS_OK`
  -- it is the error, and nothing is called or changed. Else the four callbacks are registered in
  -- order up to the first failure, whose status is the error, with no connection opened; and if all
  -- succeed the connection is opened, and the result reports that call's status. The client's `s` is
  -- the status of the last call made, `conn` is what the library wrote, and all else is unchanged.
  pub connect-Connects :
      (self : NatsClient) (s : S) → Connects self s self.opts.s (connect nats self s)
  unfolding connect registered nats_error
  connect-Connects self s = ground arith

  -- `jet_stream` always returns. If the options cannot be initialised it reports that status and asks
  -- for no context. Else it asks for one on the connection, with at most 256 pending asynchronous
  -- publications and the other options as initialised, and reports the status of that call. The
  -- connection and its options stay.
  pub jet_stream-Leaves :
      (self : NatsClient) (s : S)
      → let init = nats.js_options_init self.js_opts s in
        let js_opts : JsOptions = record init.1 { publish_async_max_pending = pos 256 } in
        let out = nats.open_handle (HandleCall.jet_stream self.conn js_opts) self.js init.2 in
        if init.0 != nats.nats_ok
        then Leaves init.0
            (record self { s = some init.0; js_opts = some init.1 })
            init.2
            (jet_stream nats self s)
        else Leaves out.0
            (record self { s = some out.0; js_opts = some js_opts; js = out.1 })
            out.2
            (jet_stream nats self s)
  unfolding jet_stream nats_error
  jet_stream-Leaves self s = ground arith

  -- What the library documents of life and death: opening a handle makes one that was not live, and
  -- neither that nor another call ends the life of a live one.
  pub record Keeps (live : Ptr → S → Bool) : Type 0 where
    pub call_keeps :
        (c : StatusCall) (q : Ptr) (s : S) → live q s ≡ true → live q (nats.call c s).1 ≡ true
    pub open_keeps :
        (h : HandleCall) (p q : Ptr) (s : S)
        → live q s ≡ true
        → live q (nats.open_handle h p s).2 ≡ true
    pub opens_new :
        (h : HandleCall) (p q : Ptr) (s : S)
        → (nats.open_handle h p s).0 ≡ nats.nats_ok
        → live q s ≡ true
        → (nats.open_handle h p s).1 ≢ q

  registered-Keeps :
      (live : Ptr → S → Bool)
      → Keeps live
      → (p : Ptr) (l : List Callback) (q : Ptr) (s : S) → live q s ≡ true
      → live q (registered p l s).1 ≡ true
  unfolding registered
  registered-Keeps live keeps p [] q s h = h
  registered-Keeps live keeps p (c ∷ l) q s h =
      let out = nats.call (StatusCall.option p (OptionCall.set_callback c null)) s in
      let kept = keeps.call_keeps (StatusCall.option p (OptionCall.set_callback c null)) q s h in
      ground (arith, registered-Keeps live keeps p l q out.1 kept)

  -- If a client that has a live connection connects again and succeeds, the old connection is still
  -- live and the client no longer holds it: it is not given back, and its pointer is lost.
  pub connect_again :
      (live : Ptr → S → Bool)
      → Keeps live
      → (self client : NatsClient) (s t : S) → live self.conn s ≡ true
      → connect nats self s ≡ ok (success, client) t
      → (live self.conn t ≡ true) × (client.conn ≢ self.conn)
  connect_again live keeps self client s t h e =
      again self.opts.s (rw e at (connect-Connects self s))
    where
      pre : NatsStatus × S
      pre = registered self.opts.ptr callbacks s

      again :
          (o : Option NatsStatus)
          → Connects self s o (ok (success, client) t)
          → (live self.conn t ≡ true) × (client.conn ≢ self.conn)
      again none d = absurd (cc)
      again (some st) d = ground (
        arith,
        registered-Keeps live keeps self.opts.ptr callbacks self.conn s h,
        keeps.open_keeps (HandleCall.connect self.opts.ptr) self.conn self.conn pre.1,
        keeps.opens_new (HandleCall.connect self.opts.ptr) self.conn self.conn pre.1,
      )
