-- ===== src/Programs/Beside.antt =====
-- A C library that another thread uses as well: before each call that may change the library's state
-- the other thread does whatever it likes, but that it keeps off the handles of this thread. The threads
-- of bench/bench_lat_pub_sub.cpp share the library in this way.
pub mod Balance
use natsclient_cpp.Base.{
  ◌≡◌, ◌∙◌, ℤ, Bool, true, false, not, ◌&&◌, Option, inl, inr, ne_cases, arith, ◌==◌, ◌!=◌,
  if◌then◌else◌,
}
use natsclient_cpp.Nats.{
  Ptr, null, NatsStatus, Kind, StatusCall, HandleCall, CounterCall, LimitsCall, JsOptions, KvConfig,
  KvWatchOptions, CKeysList, Library,
}
use natsclient_cpp.Programs.Session.Accounts.{Books, refused}

-- The library's state, and the handles that this thread has been handed out and has not given back,
-- which live.
pub record Beside {S : Type 0} (live : Ptr → S → Bool) : Type 0 where
  pub state : S
  pub mine : Ptr → Bool
  pub alive : (q : Ptr) → mine q ≡ true → live q state ≡ true

-- What a step of the other thread is to respect.
abbrev pub KeepsOff : {S : Type 0} → (Ptr → S → Bool) → ((Ptr → Bool) → S → S) → Type 0
KeepsOff {S} live other =
    (mine : Ptr → Bool) (s : S)
    → ((q : Ptr) → mine q ≡ true → live q s ≡ true)
    → (q : Ptr) → mine q ≡ true
    → live q (other mine s) ≡ true

module _ {S : Type 0} (nats : Library S) (live : Ptr → S → Bool) where
  -- The calls that `Books` does not mention end no life.
  pub record Spares : Type 0 where
    pub counter :
        (c : CounterCall) (n : ℤ) (q : Ptr) (s : S)
        → live q s ≡ true
        → live q (nats.counter c n s).2 ≡ true
    pub limits :
        (c : LimitsCall) (n m : ℤ) (q : Ptr) (s : S)
        → live q s ≡ true
        → live q (nats.limits c n m s).3 ≡ true
    pub config : (q : Ptr) (s : S) → live q s ≡ true → live q (nats.kv_config_init s).2 ≡ true
    pub watch_options :
        (q : Ptr) (s : S) → live q s ≡ true → live q (nats.kv_watch_options_init s).2 ≡ true
    pub keys :
        (p : Ptr) (o : Option KvWatchOptions) (l : CKeysList) (q : Ptr) (s : S)
        → live q s ≡ true
        → live q (nats.keys p o l s).2 ≡ true

module _ {S : Type 0} {nats : Library S} {live : Ptr → S → Bool} (books : Books nats live)
    (spares : Spares nats live) (other : (Ptr → Bool) → S → S)
    (keeps_off : KeepsOff live other) where
  -- The other thread acts.
  abbrev pub meanwhile : Beside live → Beside live
  meanwhile t = record {
    state = other t.mine t.state;
    mine = t.mine;
    alive = keeps_off t.mine t.state t.alive;
  }

  -- A call that hands out nothing.
  abbrev pub after :
      (t : Beside live) (s : S)
      → ((q : Ptr) → live q t.state ≡ true → live q s ≡ true)
      → Beside live
  after t s keeps = record { state = s; mine = t.mine; alive = λ q m. keeps q (t.alive q m) }

  -- Whether a call handed out a new handle.
  abbrev pub gained : S → Ptr → S → Bool
  gained s p s' = (p != null) && (live p s' && not (live p s))

  pub opens_alive :
      (h : HandleCall) (p q : Ptr) (s : S)
      → live q s ≡ true
      → live q (nats.open_handle h p s).2 ≡ true
  opens_alive h p q s l = elim (ne_cases (nats.open_handle h p s).0 nats.nats_ok) [
    | inl (_, n) ↦ ground (arith, refused books h p q s n)
    | inr (_, e) ↦ ground (arith, books.opens_one h p q s e)
  ]

  pub handed_alive :
      (h : HandleCall) (p q : Ptr) (t : Beside live)
      → let out = nats.open_handle h p t.state in
        (if (q == out.1) && gained t.state out.1 out.2 then true else t.mine q) ≡ true
        → live q out.2 ≡ true
  handed_alive h p q t m = ground (arith, m, t.alive q, opens_alive h p q t.state)

  pub given_alive :
      (k : Kind) (p q : Ptr) (t : Beside live)
      → (if q == p then false else t.mine q) ≡ true
      → live q (nats.destroy k p t.state) ≡ true
  given_alive k p q t m = ground (arith, m, t.alive q, (books.frees k).spares p q t.state)

  abbrev pub handed : HandleCall → Ptr → Beside live → NatsStatus × Ptr × Beside live
  handed h p t =
      let out = nats.open_handle h p t.state in
      (
        out.0,
        out.1,
        record {
          state = out.2;
          mine = λ q. if (q == out.1) && gained t.state out.1 out.2 then true else t.mine q;
          alive = λ q m. handed_alive h p q t m;
        },
      )

  abbrev pub given_back : Kind → Ptr → Beside live → Beside live
  given_back k p t = record {
    state = nats.destroy k p t.state;
    mine = λ q. if q == p then false else t.mine q;
    alive = λ q m. given_alive k p q t m;
  }

  pub holds_none : (q : Ptr) (s : S) → false ≡ true → live q s ≡ true
  holds_none q s m = absurd (ground arith)

  -- The library as this thread meets it.
  abbrev pub beside : Library (Beside live)
  beside = record {
    nats_ok = nats.nats_ok;
    nats_invalid_arg = nats.nats_invalid_arg;
    get_text = nats.get_text;
    call = λ c t.
        let u = meanwhile t in
        let out = nats.call c u.state in
        (out.0, after u out.1 (λ q l. books.calls_same c q u.state ∙ l));
    open_handle = λ h p t. handed h p (meanwhile t);
    destroy = λ k p t. given_back k p (meanwhile t);
    counter = λ c n t.
        let u = meanwhile t in
        let out = nats.counter c n u.state in
        (out.0, out.1, after u out.2 (λ q l. spares.counter c n q u.state l));
    limits = λ c n m t.
        let u = meanwhile t in
        let out = nats.limits c n m u.state in
        (out.0, out.1, out.2, after u out.3 (λ q l. spares.limits c n m q u.state l));
    text = λ c t. nats.text c t.state;
    number = λ c t. nats.number c t.state;
    data_at = λ c t. nats.data_at c t.state;
    data_size = λ c t. nats.data_size c t.state;
    is_valid = λ p t. nats.is_valid p t.state;
    js_options_init = λ o t.
        let u = meanwhile t in
        let out = nats.js_options_init o u.state in
        (out.0, out.1, after u out.2 (λ q l. books.init_same o q u.state ∙ l));
    kv_config_init = λ t.
        let u = meanwhile t in
        let out = nats.kv_config_init u.state in
        (out.0, out.1, after u out.2 (λ q l. spares.config q u.state l));
    kv_watch_options_init = λ t.
        let u = meanwhile t in
        let out = nats.kv_watch_options_init u.state in
        (out.0, out.1, after u out.2 (λ q l. spares.watch_options q u.state l));
    keys = λ p o l t.
        let u = meanwhile t in
        let out = nats.keys p o l u.state in
        (out.0, out.1, after u out.2 (λ q live_now. spares.keys p o l q u.state live_now));
    key_at = λ p i t. nats.key_at p i t.state;
    close = λ t. record {
      state = nats.close t.state;
      mine = λ q. false;
      alive = λ q m. holds_none q (nats.close t.state) m;
    };
  }
