-- ===== src/Heap/Connecting.antt =====
-- What `create`, `connect` and `jet_stream` (include/nats_client/Client.hpp) do to the handles that are
-- live.
use natsclient_cpp.Base.{
  ◌≢◌, ◌≡◌, refl, ◌∙◌, Bool, pos, Option, none, some, List, [], ◌∷◌, inl, inr, arith, ne_cases,
  ◌!=◌, if◌then◌else◌,
}
use natsclient_cpp.Nats.{
  NatsStatus, Ptr, null, Kind, Callback, StatusCall, OptionCall, HandleCall, JsOptions, Library, ok,
}
use natsclient_cpp.Error.{Expected, Fits}
use natsclient_cpp.Client.{NatsClient, create}
use natsclient_cpp.Client.Lifetime.{HoldsOptions, create-Fits}
use natsclient_cpp.Client.Connection.{connect, jet_stream}
use natsclient_cpp.Client.Connection.Setup.{
  registered, callbacks, Connects, Opens, Leaves, connect-Connects, jet_stream-Leaves,
}
use natsclient_cpp.Heap.Documents.{Documents, Same, Brings, opened}
use natsclient_cpp.Heap.Opening.{Gives, open-Gives, Brings-later}

module _ {S : Type 0} {nats : Library S} {live : Kind → Ptr → S → Bool}
    (docs : Documents nats live) where
  pub create-Gives :
      (s s' : S) (r : Expected NatsClient)
      → create nats s ≡ ok r s'
      → Gives live Kind.options HoldsOptions s r s'
  create-Gives s s' r e =
      let out = nats.open_handle HandleCall.options_create null s in
      let (fits, es) : Fits nats out.0 (HoldsOptions out.1) r × (s' ≡ out.2) =
        rw e at (create-Fits nats s) in
      rw es
        (open-Gives docs HoldsOptions HandleCall.options_create s s r (λ e. cc) (λ k q. refl) fits)

  registered-Same : (p : Ptr) (l : List Callback) (s : S) → Same live s (registered nats p l s).1
  unfolding registered
  registered-Same p [] s k q = refl
  registered-Same p (c ∷ l) s k q =
      let call = StatusCall.option p (OptionCall.set_callback c null) in
      let one = docs.call_same call s k q in
      let rest = registered-Same p l (nats.call call s).1 k q in ground arith

  -- A member that was NULL, after a call that may open a handle of its kind.
  opens-Brings :
      (c : HandleCall) (p : Ptr) (s t : S)
      → Same live s t
      → let out = nats.open_handle c p t in
        (out.0 ≢ nats.nats_ok → Brings live (opened c) out.1 t out.2)
        → Brings live (opened c) out.1 s out.2
  opens-Brings c p s t same fails = elim (ne_cases out.0 nats.nats_ok) [
    | inl (_, n) ↦ Brings-later live (opened c) out.1 s t out.2 same (fails n)
    | inr (_, e) ↦ Brings-later live (opened c) out.1 s t out.2 same (docs.opens c p t e)
  ]
    where
      out : NatsStatus × Ptr × S
      out = nats.open_handle c p t

  Opens-Brings :
      (x y : NatsClient) (pre : NatsStatus × S) (s s' : S) (r : Expected (Unit {0}))
      → x.conn ≡ null
      → Same live s pre.1
      → Opens nats x pre (ok (r, y) s')
      → (y.opts.ptr ≡ x.opts.ptr) × (y.js ≡ x.js) × Brings live Kind.connection y.conn s s'
  Opens-Brings x y pre s s' r z same d = elim (ne_cases pre.0 nats.nats_ok) [
    | inl (t, n) ↦
        let (_, ey, es) : Leaves nats pre.0 (record x { s = some pre.0 }) pre.1 (ok (r, y) s') =
          rw t at d in
        rw (ey, es) (refl, refl, inl (z, same))
    | inr (f, e) ↦
        let (_, ey, es) : Leaves nats out.0 (record x { s = some out.0; conn = out.1 }) out.2
            (ok (r, y) s') =
          rw f at d in
        rw (ey, es)
          (
            refl,
            refl,
            opens-Brings (HandleCall.connect x.opts.ptr) x.conn s pre.1 same (λ n.
                elim (docs.connect_refuses x.opts.ptr x.conn pre.1 n) [
                  | inl (kept, none_new) ↦ inl (kept ∙ z, none_new)
                  | inr begun ↦ inr begun
                ]),
          )
  ]
    where
      out : NatsStatus × Ptr × S
      out = nats.open_handle (HandleCall.connect x.opts.ptr) x.conn pre.1

  -- A client that is not connected has a new connection afterwards, or none and nothing was opened.
  pub connect-Brings :
      (x y : NatsClient) (s s' : S) (r : Expected (Unit {0}))
      → x.conn ≡ null
      → connect nats x s ≡ ok (r, y) s'
      → (y.opts.ptr ≡ x.opts.ptr) × (y.js ≡ x.js) × Brings live Kind.connection y.conn s s'
  connect-Brings x y s s' r z e = by x.opts.s (rw e at (connect-Connects nats x s))
    where
      by :
          (o : Option NatsStatus)
          → Connects nats x s o (ok (r, y) s')
          → (y.opts.ptr ≡ x.opts.ptr) × (y.js ≡ x.js) × Brings live Kind.connection y.conn s s'
      by none d = absurd (cc)
      by (some st) d = elim (ne_cases st nats.nats_ok) [
        | inl (t, n) ↦
            let (_, ey, es) : Leaves nats st x s (ok (r, y) s') = rw t at d in
            rw (ey, es) (refl, refl, inl (z, λ k q. refl))
        | inr (f, e) ↦
            Opens-Brings x y (registered nats x.opts.ptr (callbacks nats) s) s s' r z
              (registered-Same x.opts.ptr (callbacks nats) s) (rw f at d)
      ]

  pub jet_stream-Brings :
      (x y : NatsClient) (s s' : S) (r : Expected (Unit {0}))
      → x.js ≡ null
      → jet_stream nats x s ≡ ok (r, y) s'
      → (y.opts.ptr ≡ x.opts.ptr) × (y.conn ≡ x.conn) × Brings live Kind.js_ctx y.js s s'
  jet_stream-Brings x y s s' r z e = elim (ne_cases init.0 nats.nats_ok) [
    | inl (t, n) ↦
        let (_, ey, es) : Leaves nats init.0 (record x { s = some init.0; js_opts = some init.1 })
            init.2 (ok (r, y) s') =
          rw t at known in
        rw (ey, es) (refl, refl, inl (z, docs.js_init_same x.js_opts s))
    | inr (f, _) ↦
        let (_, ey, es) : Leaves nats out.0
            (record x { s = some out.0; js_opts = some js_opts; js = out.1 }) out.2 (ok (r, y) s') =
          rw f at known in
        rw (ey, es)
          (
            refl,
            refl,
            opens-Brings (HandleCall.jet_stream x.conn js_opts) x.js s init.2
                (docs.js_init_same x.js_opts s)
                (λ n.
                  let (kept, none_new) =
                    docs.refuses (HandleCall.jet_stream x.conn js_opts) x.js init.2 (λ e. cc) n in
                  inl (kept ∙ z, none_new)),
          )
  ]
    where
      init : NatsStatus × JsOptions × S
      init = nats.js_options_init x.js_opts s

      js_opts : JsOptions
      js_opts = record init.1 { publish_async_max_pending = pos 256 }

      out : NatsStatus × Ptr × S
      out = nats.open_handle (HandleCall.jet_stream x.conn js_opts) x.js init.2

      known :
          if init.0 != nats.nats_ok
          then Leaves nats init.0
              (record x { s = some init.0; js_opts = some init.1 })
              init.2
              (ok (r, y) s')
          else Leaves nats out.0
              (record x { s = some out.0; js_opts = some js_opts; js = out.1 })
              out.2
              (ok (r, y) s')
      known = rw e at (jet_stream-Leaves nats x s)
