-- ===== src/Heap/Documents.antt =====
-- What the library documents of the handles that are live, by kind.
use natsclient_cpp.Base.{ℤ, ◌≡◌, ◌≢◌, Bool, true, false, ◌⊎◌, Option}
use natsclient_cpp.Nats.{
  Ptr, null, Kind, StatusCall, CounterCall, LimitsCall, HandleCall, JsOptions, KvWatchOptions,
  CKeysList, Library,
}
use natsclient_cpp.Handle.Abstract.{Frees}

-- The kind of handle that a call opens.
abbrev pub opened : HandleCall → Kind
opened HandleCall.options_create = Kind.options
opened (HandleCall.connect p) = Kind.connection
opened (HandleCall.jet_stream p o) = Kind.js_ctx
opened (HandleCall.subscribe_sync p t) = Kind.subscription
opened (HandleCall.queue_subscribe_sync p t g) = Kind.subscription
opened (HandleCall.next_msg p t) = Kind.msg
opened (HandleCall.create_key_value p c) = Kind.kv_store
opened (HandleCall.key_value p t) = Kind.kv_store
opened (HandleCall.kv_get p t) = Kind.kv_entry
opened (HandleCall.kv_watch p t o) = Kind.kv_watcher
opened (HandleCall.watcher_next p t) = Kind.kv_entry

module _ {S : Type 0} (live : Kind → Ptr → S → Bool) where
  abbrev pub Same : S → S → Type 0
  Same s s' = (k : Kind) (q : Ptr) → live k q s' ≡ live k q s

  -- One handle begins its life.
  pub record Begins (k : Kind) (p : Ptr) (s s' : S) : Type 0 where
    pub fresh : live k p s ≡ false
    pub begun : live k p s' ≡ true
    pub others : (q : Ptr) → q ≢ p → live k q s' ≡ live k q s
    pub kinds : (k' : Kind) (q : Ptr) → k' ≢ k → live k' q s' ≡ live k' q s

  -- What is written is NULL or a new handle.
  abbrev pub Brings : Kind → Ptr → S → S → Type 0
  Brings k p s s' = ((p ≡ null) × Same s s') ⊎ ((p ≢ null) × Begins k p s s')

module _ {S : Type 0} (nats : Library S) (live : Kind → Ptr → S → Bool) where
  -- A call that succeeds brings the handle that it opens; one that fails writes nothing (but for `connect`), and no other
  -- call begins or ends a life; giving a handle back ends its life alone.
  pub record Documents : Type 0 where
    pub call_same : (c : StatusCall) (s : S) → Same live s (nats.call c s).1
    pub counter_same : (c : CounterCall) (n : ℤ) (s : S) → Same live s (nats.counter c n s).2
    pub limits_same : (c : LimitsCall) (n m : ℤ) (s : S) → Same live s (nats.limits c n m s).3
    pub js_init_same : (o : Option JsOptions) (s : S) → Same live s (nats.js_options_init o s).2
    pub kv_init_same : (s : S) → Same live s (nats.kv_config_init s).2
    pub watch_init_same : (s : S) → Same live s (nats.kv_watch_options_init s).2
    pub opens :
        (c : HandleCall) (p : Ptr) (s : S)
        → let out = nats.open_handle c p s in
          out.0 ≡ nats.nats_ok → Brings live (opened c) out.1 s out.2
    pub refuses :
        (c : HandleCall) (p : Ptr) (s : S)
        → let out = nats.open_handle c p s in
          opened c ≢ Kind.connection → out.0 ≢ nats.nats_ok → (out.1 ≡ p) × Same live s out.2
    -- With the option to retry, a connection is handed out that is not established yet.
    pub connect_refuses :
        (o p : Ptr) (s : S)
        → let out = nats.open_handle (HandleCall.connect o) p s in
          out.0 ≢ nats.nats_ok
          → ((out.1 ≡ p) × Same live s out.2)
            ⊎ ((out.1 ≢ null) × Begins live Kind.connection out.1 s out.2)
    pub keys_opens :
        (p : Ptr) (o : Option KvWatchOptions) (l : CKeysList) (s : S)
        → let out = nats.keys p o l s in
          out.0 ≡ nats.nats_ok → Brings live Kind.kv_keys_list out.1.keys s out.2
    pub keys_refuses :
        (p : Ptr) (o : Option KvWatchOptions) (l : CKeysList) (s : S)
        → let out = nats.keys p o l s in out.0 ≢ nats.nats_ok → (out.1 ≡ l) × Same live s out.2
    pub frees : (k : Kind) → Frees (nats.destroy k) (live k)
    pub spares_kinds :
        (k k' : Kind) (p q : Ptr) (s : S) → k' ≢ k → live k' q (nats.destroy k p s) ≡ live k' q s
