-- ===== src/Heap/Results.antt =====
-- What the operations that return objects (include/nats_client) do to the handles that are live.
use natsclient_cpp.Base.{
  ◌≡◌, ◌≢◌, refl, sym, ◌∙◌, ap, Bool, false, Option, none, some, ◌⊎◌, inl, inr, arith, Bool-cases,
  ne_cases, ◌==◌, ◌!=◌, if◌then◌else◌, pos,
}
use natsclient_cpp.Nats.{
  NatsStatus, CKeysList, TextCall, c_string, Ptr, null, Kind, CString, KvConfig, KvWatchOptions,
  HandleCall, Library, Run, ok, ok-value, ok-state, View, is_empty,
}
use natsclient_cpp.Nats.Views.{c_text}
use natsclient_cpp.Error.{NatsError, Expected, expected, unexpected, Fits, nats_error}
use natsclient_cpp.Client.{NatsClient}
use natsclient_cpp.Client.Outcomes.{Yields}
use natsclient_cpp.Client.Buckets.{kvs_create, kvs_keys}
use natsclient_cpp.Client.Buckets.Calls.{
  Creates, kvs_create-c_text, kvs_create-empty, kvs_keys-YieldsNamed,
}
use natsclient_cpp.Kv.Store
use natsclient_cpp.Kv.Store.{KvStore}
use natsclient_cpp.Kv.KeysList.{KvKeysList}
use natsclient_cpp.Heap.{SameHandles}
use natsclient_cpp.Heap.Documents.{Documents, Same, opened}
use natsclient_cpp.Heap.Opening.{Gives, open-Gives}
use natsclient_cpp.Heap.Operations.{Opens, text_cases}

module _ {S : Type 0} {nats : Library S} {live : Kind → Ptr → S → Bool}
    (docs : Documents nats live) where
  pub Opens-Gives :
      {A : Type 0} (Made : Ptr → A → Type 0) (c : HandleCall) (x y : NatsClient) (s s' : S)
      (r : Expected A)
      → opened c ≢ Kind.connection
      → Opens nats c Made x s r y s'
      → Gives live (opened c) Made s r s' × SameHandles x y
  Opens-Gives Made c x y s s' r n (fits, ey, es) =
      (rw es (open-Gives docs Made c s s r n (λ k q. refl) fits), rw ey (refl, refl, refl))

  -- An operation that reports a failure gives nothing.
  failed-Gives :
      {A : Type 0} (k : Kind) (Made : Ptr → A → Type 0) (st : NatsStatus) (V : A → Type 0)
      (s s' : S) (r : Expected A)
      → Fits nats st V r
      → st ≢ nats.nats_ok
      → Same live s s'
      → Gives live k Made s r s'
  failed-Gives k Made st V s s' (expected a) (e, _) n same = absurd (n e)
  failed-Gives k Made st V s s' (unexpected f) fits n same = same

  refused-Gives :
      (x y : NatsClient) (s s' : S) (r : Expected KvStore) {f : NatsError}
      (run : Run S (Expected KvStore × NatsClient))
      → run ≡ ok (unexpected f, x) s
      → run ≡ ok (r, y) s'
      → Gives live Kind.kv_store (λ p kv. kv ≡ Store.construct p) s r s' × SameHandles x y
  refused-Gives x y s s' r run e d =
      let done = sym d ∙ e in
      let er = ap (λ v. v.0) (ok-value done) in
      let ey = ap (λ v. v.1) (ok-value done) in
      (rw er (λ k q. ap (live k q) (ok-state done)), rw ey (refl, refl, refl))

  Creates-Gives :
      (x y : NatsClient) (b : CString) (s s' : S) (r : Expected KvStore)
      → Creates nats x b s (ok (r, y) s')
      → Gives live Kind.kv_store (λ p kv. kv ≡ Store.construct p) s r s' × SameHandles x y
  Creates-Gives x y b s s' r d = elim (ne_cases init.0 nats.nats_ok) [
    | inl (t, n) ↦
        let (fits, ey, es) : Yields nats init.0 (λ _. Unit {0}) (record x { s = some init.0 })
            init.2 (ok (r, y) s') =
          rw t at d in
        (
          failed-Gives Kind.kv_store (λ p kv. kv ≡ Store.construct p) init.0 (λ _. Unit {0}) s s' r
              fits n (rw es (docs.kv_init_same s)),
          rw ey (refl, refl, refl),
        )
    | inr (f, e) ↦
        let (fits, ey, es) : Yields nats out.0 (λ kv. kv ≡ Store.construct out.1)
            (record x { s = some out.0 }) out.2 (ok (r, y) s') =
          rw f at d in
        (
          rw es (
              open-Gives docs (λ p kv. kv ≡ Store.construct p)
                (HandleCall.create_key_value x.js config) s init.2 r (λ e. cc) (docs.kv_init_same s)
                fits),
          rw ey (refl, refl, refl),
        )
  ]
    where
      init : NatsStatus × KvConfig × S
      init = nats.kv_config_init s

      config : KvConfig
      config = record init.1 { bucket = b }

      out : NatsStatus × Ptr × S
      out = nats.open_handle (HandleCall.create_key_value x.js config) null init.2

  -- A name that C cannot read is read only after the configuration has succeeded.
  kvs_create-unread :
      (x y : NatsClient) (name : View) (about : Option View) (s s' : S) (r : Expected KvStore)
      → is_empty name ≡ false
      → c_text name ≡ none
      → kvs_create nats x name about s ≡ ok (r, y) s'
      → let init = nats.kv_config_init s in
        Fits nats init.0 (λ _. Unit {0}) r
        × (init.0 ≢ nats.nats_ok)
        × (y ≡ record x { s = some init.0 })
        × (s' ≡ init.2)
  unfolding kvs_create c_text c_string nats_error
  kvs_create-unread x y name about s s' r full f e = ground arith

  pub kvs_create-Gives :
      (x y : NatsClient) (name : View) (about : Option View) (s s' : S) (r : Expected KvStore)
      → kvs_create nats x name about s ≡ ok (r, y) s'
      → Gives live Kind.kv_store (λ p kv. kv ≡ Store.construct p) s r s' × SameHandles x y
  kvs_create-Gives x y name about s s' r e = elim (Bool-cases (is_empty name)) [
    | inl empty ↦ refused-Gives x y s s' r _ (kvs_create-empty nats x name about s empty) e
    | inr full ↦ elim (text_cases name) [
      | inl f ↦
          let (fits, n, ey, es) = kvs_create-unread x y name about s s' r full f e in
          (
            failed-Gives Kind.kv_store (λ p kv. kv ≡ Store.construct p) _ (λ _. Unit {0}) s s' r
                fits n (rw es (docs.kv_init_same s)),
            rw ey (refl, refl, refl),
          )
      | inr (b, f) ↦
          Creates-Gives x y b s s' r (rw e at (kvs_create-c_text nats x name about b s full f))
    ]
  ]

  -- The list is kept only with an array that the library has just handed out.
  pub kvs_keys-Gives :
      (x y : NatsClient) (kv : KvStore) (opts : Option KvWatchOptions) (s s' : S)
      (r : Expected KvKeysList)
      → kvs_keys nats x kv opts s ≡ ok (r, y) s'
      → Gives live Kind.kv_keys_list (λ p l. l.kl.keys ≡ p) s r s' × SameHandles x y
  kvs_keys-Gives x y kv opts s s' r e = elim (ne_cases out.0 nats.nats_ok) [
    | inl (t, n) ↦
        let (empty, same) = docs.keys_refuses kv.ptr opts no_keys s n in
        (
          failed-Gives Kind.kv_keys_list (λ p l. l.kl.keys ≡ p) out.0 (λ l. l.kl ≡ out.1) s s' r
              known.0 n (rw (known.2, t, empty) same),
          rw known.1 (refl, refl, refl),
        )
    | inr (f, ok_status) ↦
        (rw (known.2, f) (given r ok_status known.0), rw known.1 (refl, refl, refl))
  ]
    where
      no_keys : CKeysList
      no_keys = record { keys = null; count = pos 0 }

      out : NatsStatus × CKeysList × S
      out = nats.keys kv.ptr opts no_keys s

      freed : S
      freed = if out.1.keys == null then out.2 else nats.destroy Kind.kv_keys_list out.1.keys out.2

      known :
          Fits nats out.0 (λ l. l.kl ≡ out.1) r
          × (y ≡ record x { s = some out.0 })
          × (s' ≡ (if out.0 != nats.nats_ok then freed else out.2))
          × ((out.0 ≡ nats.nats_ok) ⊎ (nats.text (TextCall.store_bucket kv.ptr) out.2 ≢ none))
      known = rw e at (kvs_keys-YieldsNamed nats x kv opts s)

      given :
          (r : Expected KvKeysList)
          → out.0 ≡ nats.nats_ok
          → Fits nats out.0 (λ l. l.kl ≡ out.1) r
          → Gives live Kind.kv_keys_list (λ p l. l.kl.keys ≡ p) s r out.2
      given (expected l) e (_, made) =
          (out.1.keys, ap (λ l. l.keys) made, docs.keys_opens kv.ptr opts no_keys s e)
      given (unexpected f) e fits = absurd (fits.0 e)
