-- ===== src/Programs/Session/Accounts.antt =====
-- The handles that a program holds in the scope of its client, and that none is left when it ends.
use natsclient_cpp.Base.{
  Text, ◌≡◌, ◌≢◌, ◌⊎◌, inl, refl, ◌∙◌, ap, Bool, true, false, ◌&&◌, ◌||◌, Option, some, [], ◌++◌,
  codes, arith, ◌==◌, ◌!=◌, if◌then◌else◌,
}
use natsclient_cpp.Nats.{
  Ptr, null, NatsStatus, Kind, StatusCall, OptionCall, HandleCall, JsOptions, Library, Run, ok,
  undefined, Returns, View,
}
use natsclient_cpp.Nats.Views.{NoNul, literal, c_string-literal}
use natsclient_cpp.Handle.Abstract.{Frees}
use natsclient_cpp.Options
use natsclient_cpp.Options.Texts
use natsclient_cpp.Options.Flags
use natsclient_cpp.Client.{NatsClient}
use natsclient_cpp.Client.Outcomes.{Yields}
use natsclient_cpp.Client.Lifetime.{give_back, give_back_all}
use natsclient_cpp.Client.Messages
use natsclient_cpp.Client.Messages.Subjects.{publish-view}
use natsclient_cpp.Error.{Expected}
use natsclient_cpp.Programs.Session.{set_options}

abbrev pub is_connect : HandleCall → Bool
is_connect (HandleCall.connect p) = true
is_connect h = false

module _ {S : Type 0} (nats : Library S) where
  -- What the library documents of the handles that are live: only opening one makes one live, which
  -- was not; a call that fails opens none and leaves the variable alone, but for `connect`, which with
  -- the option to retry hands out a connection that is not established yet; only giving one back ends it.
  pub record Books (live : Ptr → S → Bool) : Type 0 where
    pub calls_same : (c : StatusCall) (q : Ptr) (s : S) → live q (nats.call c s).1 ≡ live q s
    pub init_same :
        (o : Option JsOptions) (q : Ptr) (s : S) → live q (nats.js_options_init o s).2 ≡ live q s
    pub opens_one :
        (h : HandleCall) (p q : Ptr) (s : S)
        → let out = nats.open_handle h p s in
          out.0 ≡ nats.nats_ok
          → live q out.2
            ≡ (if out.1 == null then live q s else if q == out.1 then true else live q s)
    pub opens_new :
        (h : HandleCall) (p : Ptr) (s : S)
        → let out = nats.open_handle h p s in
          out.0 ≡ nats.nats_ok → out.1 ≢ null → live out.1 s ≡ false
    pub refuses_same :
        (h : HandleCall) (p q : Ptr) (s : S)
        → let out = nats.open_handle h p s in
          is_connect h ≡ false → out.0 ≢ nats.nats_ok → (out.1 ≡ p) × (live q out.2 ≡ live q s)
    pub connect_refuses :
        (o p q : Ptr) (s : S)
        → let out = nats.open_handle (HandleCall.connect o) p s in
          out.0 ≢ nats.nats_ok
          → ((out.1 ≡ p) × (live q out.2 ≡ live q s))
            ⊎ ((out.1 ≢ null)
                × (live out.1 s ≡ false)
                × (live q out.2 ≡ (if q == out.1 then true else live q s)))
    pub frees : (k : Kind) → Frees (nats.destroy k) live

  url_NoNul : NoNul (codes "nats://localhost:4222")
  url_NoNul = omega arith

  abbrev pub url_calls : NatsClient → S → NatsStatus × S
  url_calls c s =
      nats.call (StatusCall.option c.opts.ptr (OptionCall.set_send_asap true))
        (nats.call
          (StatusCall.option c.opts.ptr (OptionCall.set_url (some (codes "nats://localhost:4222"))))
          s).1

  pub set_options-runs :
      (c : NatsClient) (s : S)
      → set_options nats c s
        ≡ ok (record c { opts = record c.opts { s = some (url_calls c s).0 } }) (url_calls c s).1
  unfolding set_options Texts.set_url Flags.set_send_asap Options.apply
  set_options-runs c s = rw (c_string-literal (codes "nats://localhost:4222") s url_NoNul) refl

  -- Whether a client holds a handle.
  abbrev pub holds : NatsClient → Ptr → Bool
  holds c q = (q != null) && ((q == c.conn) || ((q == c.opts.ptr) || (q == c.js)))

  -- Of the handles that are live, those that were not at first are just the ones that the client holds.
  pub record Owes (live : Ptr → S → Bool) (base : S) (c : NatsClient) (s : S) : Type 0 where
    pub accounted : (q : Ptr) → live q s ≡ (live q base || holds c q)
    pub own : (q : Ptr) → holds c q ≡ true → live q base ≡ false

module _ {S : Type 0} {nats : Library S} {live : Ptr → S → Bool} (books : Books nats live) where
  -- Whichever call fails.
  pub refused :
      (h : HandleCall) (p q : Ptr) (s : S)
      → let out = nats.open_handle h p s in
        out.0 ≢ nats.nats_ok
        → ((out.1 ≡ p) × (live q out.2 ≡ live q s))
          ⊎ ((out.1 ≢ null)
              × (live out.1 s ≡ false)
              × (live q out.2 ≡ (if q == out.1 then true else live q s)))
  refused (HandleCall.connect o) p q s n = books.connect_refuses o p q s n
  refused h p q s n = inl (books.refuses_same h p q s refl n)

  pub live-give_back :
      (k : Kind) (p q : Ptr) (s : S)
      → live q (give_back nats k p s) ≡ (if (p != null) && (q == p) then false else live q s)
  live-give_back k p q s = ground (arith, (books.frees k).frees p s, (books.frees k).spares p q s)

  pub live-give_back_all :
      (c : NatsClient) (q : Ptr) (s : S)
      → live q (give_back_all nats c s) ≡ (if holds nats c q then false else live q s)
  live-give_back_all c q s = ground (
    arith,
    live-give_back Kind.js_ctx c.js q
        (give_back nats Kind.options c.opts.ptr (give_back nats Kind.connection c.conn s)),
    live-give_back Kind.options c.opts.ptr q (give_back nats Kind.connection c.conn s),
    live-give_back Kind.connection c.conn q s,
  )

  -- What a step that neither opens nor closes a handle of the client leaves.
  abbrev pub Quiet : NatsClient → S → NatsClient → S → Type 0
  Quiet c s c' t =
      ((q : Ptr) → live q t ≡ live q s)
      × (c'.conn ≡ c.conn)
      × (c'.opts.ptr ≡ c.opts.ptr)
      × (c'.js ≡ c.js)

  pub set_options-Quiet : (c : NatsClient) (s : S) → Returns (Quiet c s) (set_options nats c s)
  set_options-Quiet c s =
      rw (set_options-runs nats c s) ((λ q. ground (arith, same2 q)), refl, refl, refl)
    where
      same2 : (q : Ptr) → live q (url_calls nats c s).1 ≡ live q s
      same2 q = books.calls_same _ q _ ∙ books.calls_same _ q s

  -- An operation that makes one call and opens nothing.
  Yields-Quiet :
      {A : Type 0} (c : NatsClient) (s : S) (call : StatusCall)
      (run : Run S (Expected A × NatsClient))
      → let out = nats.call call s in
        Yields nats out.0 (λ _. Unit {0}) (record c { s = some out.0 }) out.1 run
        → Returns (λ r. Quiet c s r.1) run
  Yields-Quiet c s call (ok (r, c') t) (fits, ec, et) = (
    λ q. ap (live q) et ∙ books.calls_same call q s,
    ap (λ c. c.conn) ec,
    ap (λ c. c.opts.ptr) ec,
    ap (λ c. c.js) ec,
  )
  Yields-Quiet c s call undefined h = absurd h

  pub publish-Quiet :
      (c : NatsClient) (subject : Text) (content : View) (s : S)
      → NoNul subject
      → Returns (λ r. Quiet c s r.1) (Messages.publish nats c (literal subject) content s)
        × Returns (λ r. Quiet c s r.1) (Messages.publish_bytes nats c (literal subject) content s)
  publish-Quiet c subject content s h =
      let call = StatusCall.publish c.conn (some (subject ++ [])) content.bytes content.size in
      let both = publish-view nats c subject [] [] content s h tt in
      (Yields-Quiet c s call _ both.0, Yields-Quiet c s call _ both.1)

  module _ (base : S) where
    pub Quiet-Owes :
        {c c' : NatsClient} {s t : S}
        → Owes nats live base c s
        → Quiet c s c' t
        → Owes nats live base c' t
    Quiet-Owes o (same, ec, eo, ej) = record {
      accounted = λ q. ground (arith, same q, o.accounted q);
      own = λ q h. ground (arith, o.own q);
    }

    -- A handle that is opened over NULL goes to the client, if it is opened.
    pub open-Owes :
        {c c' : NatsClient} {s : S}
        → Owes nats live base c s
        → (h : HandleCall) (p : Ptr) → p ≡ null
        → let out = nats.open_handle h p s in
          ((q : Ptr) → holds nats c' q ≡ (holds nats c q || ((q != null) && (q == out.1))))
          → Owes nats live base c' out.2
    open-Owes {c} {c'} {s} o h p e at = record {
      accounted =
          λ q. ground (arith, at q, o.accounted q, books.opens_one h p q s, refused h p q s);
      own = λ q held.
          ground
            (arith, at q, held, o.own q, o.accounted q, books.opens_new h p s, refused h p q s);
    }
