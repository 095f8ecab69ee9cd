-- ===== src/Programs/Session/Connecting.antt =====
-- Connecting, and asking for a JetStream context: the client accounts for what it opens.
use mathlib.Core.Path.{subst}
use natsclient_cpp.Base.{
  ◌≡◌, refl, sym, pos, Bool, true, false, some, List, [], ◌∷◌, arith, if◌then◌else◌,
}
use natsclient_cpp.Nats.{
  Ptr, null, NatsStatus, StatusCall, OptionCall, Callback, HandleCall, JsOptions, Library, Run, ok,
  undefined, Returns,
}
use natsclient_cpp.Client.{NatsClient}
use natsclient_cpp.Client.Connection
use natsclient_cpp.Client.Connection.Setup.{
  registered, callbacks, Leaves, Opens, Connects, connect-Connects, jet_stream-Leaves,
}
use natsclient_cpp.Error.{Expected}
use natsclient_cpp.Programs.Session.Accounts.{Books, Owes, Quiet-Owes, open-Owes}

module _ {S : Type 0} (nats : Library S) (P : NatsClient → S → Type 0) where
  -- What holds of what an operation leaves holds where it returns.
  Leaves-Returns :
      {A : Type 0} (st : NatsStatus) (c : NatsClient) (s : S)
      (run : Run S (Expected A × NatsClient))
      → P c s
      → Leaves nats st c s run
      → Returns (λ r. P r.1) run
  Leaves-Returns st c s (ok (r, c') t) p (fits, ec, et) =
      subst (λ c. P c t) (sym ec) (subst (P c) (sym et) p)
  Leaves-Returns st c s undefined p h = absurd h

  either_Leaves :
      {A : Type 0} (b : Bool) (st st' : NatsStatus) (c c' : NatsClient) (s s' : S)
      (run : Run S (Expected A × NatsClient))
      → P c s
      → P c' s'
      → (if b then Leaves nats st c s run else Leaves nats st' c' s' run)
      → Returns (λ r. P r.1) run
  either_Leaves true st st' c c' s s' run p q h = Leaves-Returns st c s run p h
  either_Leaves false st st' c c' s s' run p q h = Leaves-Returns st' c' s' run q h

  either_Opens :
      (c : NatsClient) (s : S) (run : Run S (Expected (Unit {0}) × NatsClient)) (b : Bool)
      (st : NatsStatus) (pre : NatsStatus × S)
      → P c s
      → P (record c { s = some pre.0 }) pre.1
      → let out = nats.open_handle (HandleCall.connect c.opts.ptr) c.conn pre.1 in
        P (record c { s = some out.0; conn = out.1 }) out.2
        → (if b then Leaves nats st c s run else Opens nats c pre run)
        → Returns (λ r. P r.1) run
  either_Opens c s run true st pre p q r h = Leaves-Returns st _ _ _ p h
  either_Opens c s run false st pre p q r h = either_Leaves _ _ _ _ _ _ _ _ q r h

module _ {S : Type 0} {nats : Library S} {live : Ptr → S → Bool} (books : Books nats live) where
  registered-same :
      (p : Ptr) (l : List Callback) (s : S) (q : Ptr) → live q (registered nats p l s).1 ≡ live q s
  unfolding registered
  registered-same p [] s q = refl
  registered-same p (c ∷ l) s q =
      let call = StatusCall.option p (OptionCall.set_callback c null) in
      ground (arith, books.calls_same call q s, registered-same p l (nats.call call s).1 q)

  module _ (base : S) where
    pub jet_stream-Owes :
        (c : NatsClient) (s : S)
        → Owes nats live base c s
        → c.js ≡ null
        → Returns (λ r. Owes nats live base r.1) (Connection.jet_stream nats c s)
    jet_stream-Owes c s o e =
        either_Leaves nats (Owes nats live base) _ _ _ _ _ _ _ _ ready opened
          (jet_stream-Leaves nats c s)
      where
        init : NatsStatus × JsOptions × S
        init = nats.js_options_init c.js_opts s

        js_opts : JsOptions
        js_opts = record init.1 { publish_async_max_pending = pos 256 }

        ready : Owes nats live base (record c { s = some init.0; js_opts = some init.1 }) init.2
        ready = Quiet-Owes books base o ((λ q. books.init_same c.js_opts q s), refl, refl, refl)

        out : NatsStatus × Ptr × S
        out = nats.open_handle (HandleCall.jet_stream c.conn js_opts) c.js init.2

        opened :
            Owes nats live base
              (record c { s = some out.0; js_opts = some js_opts; js = out.1 })
              out.2
        opened =
            open-Owes books base ready (HandleCall.jet_stream c.conn js_opts) c.js e
              λ q. ground (arith)

    pub connect-Owes :
        (c : NatsClient) (s : S) (st : NatsStatus)
        → Owes nats live base c s
        → c.conn ≡ null
        → c.opts.s ≡ some st
        → Returns (λ r t. Owes nats live base r.1 t × (r.1.js ≡ c.js)) (Connection.connect nats c s)
    connect-Owes c s st o e es =
        either_Opens nats (λ c' t. Owes nats live base c' t × (c'.js ≡ c.js)) c s _ _ st pre
          (o, refl) (prepared, refl) (opened, refl)
          (subst (λ o. Connects nats c s o (Connection.connect nats c s)) es
            (connect-Connects nats c s))
      where
        pre : NatsStatus × S
        pre = registered nats c.opts.ptr (callbacks nats) s

        prepared : Owes nats live base (record c { s = some pre.0 }) pre.1
        prepared =
            Quiet-Owes books base o
              (registered-same c.opts.ptr (callbacks nats) s, refl, refl, refl)

        out : NatsStatus × Ptr × S
        out = nats.open_handle (HandleCall.connect c.opts.ptr) c.conn pre.1

        opened : Owes nats live base (record c { s = some out.0; conn = out.1 }) out.2
        opened =
            open-Owes books base prepared (HandleCall.connect c.opts.ptr) c.conn e
              λ q. ground (arith)
