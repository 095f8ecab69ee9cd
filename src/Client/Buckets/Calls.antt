-- ===== src/Client/Buckets/Calls.antt =====
-- What the operations on buckets ask of the library.
use natsclient_cpp.Base.{
  ◌≡◌, refl, ◌∙◌, [], pos, codes, some, Option, ◌∷◌, ◌++◌, Text, true, false, arith, ◌==◌, ◌!=◌,
  if◌then◌else◌, length, ne→==,
}
use natsclient_cpp.Nats.{
  CString, StatusCall, HandleCall, TextCall, Kind, KvConfig, KvWatchOptions, null, ok, Library, Run,
  View, is_empty, c_string, string_view,
}
use natsclient_cpp.Nats.Views.{NoNul, view, c_text, c_text-view}
use natsclient_cpp.Error.{nats_error, Expected, unexpected}
use natsclient_cpp.Kv.Store
use natsclient_cpp.Kv.Store.{KvStore}
use natsclient_cpp.Kv.Watcher
use natsclient_cpp.Client.{NatsClient}
use natsclient_cpp.Client.Outcomes.{Yields, YieldsNamed}
use natsclient_cpp.Client.Buckets.{kvs_create, kvs_bind, kvs_delete, kvs_keys, kvs_watch}

module _ {S : Type 0} (nats : Library S) (self : NatsClient) where
  abbrev pub Creates : CString → S → Run S (Expected KvStore × NatsClient) → Type 0
  Creates b s run =
      let init = nats.kv_config_init s in
      let config : KvConfig = record init.1 { bucket = b } in
      let out = nats.open_handle (HandleCall.create_key_value self.js config) null init.2 in
      if init.0 != nats.nats_ok
      then Yields nats init.0 (λ _. Unit {0}) (record self { s = some init.0 }) init.2 run
      else Yields nats out.0 (λ kv. kv ≡ Store.construct out.1) (record self { s = some out.0 })
          out.2 run

  pub kvs_create-c_text :
      (bucket_name : View) (description : Option View) (b : CString) (s : S)
      → is_empty bucket_name ≡ false
      → c_text bucket_name ≡ some b
      → Creates b s (kvs_create nats self bucket_name description s)
  unfolding kvs_create c_text c_string nats_error
  kvs_create-c_text bucket_name description b s full e = ground arith

  pub kvs_create-empty :
      (bucket_name : View) (description : Option View) (s : S)
      → is_empty bucket_name ≡ true
      → kvs_create nats self bucket_name description s ≡ (
          let e = nats_error nats nats.nats_invalid_arg (codes "Bucket name is required.") in
          ok (unexpected e, self) s)
  unfolding kvs_create
  kvs_create-empty bucket_name description s e = rw e

  is_empty-view : (t rest : Text) → is_empty (view t rest) ≡ (length t == 0)
  unfolding is_empty
  is_empty-view t rest = refl

  -- Let the bucket name be a view of `t` in memory where `more` and then a NUL follow. `kvs_create`
  -- refuses an empty `t` with `NATS_INVALID_ARG`, without a call or any other change. Else it takes an
  -- initial configuration, and reports that status if this fails; if not it puts the name `t ++ more`
  -- into it, leaves all else as it is (whatever the description), asks for the bucket, and returns it
  -- or reports that status. `s` is the status of the last call.
  pub kvs_create-Creates :
      (t more rest : Text) (description : Option View) (s : S)
      → NoNul t
      → NoNul more
      → let run = kvs_create nats self (view t (more ++ 0 ∷ rest)) description s in
        if length t == 0
        then (let e = nats_error nats nats.nats_invalid_arg (codes "Bucket name is required.") in
            run ≡ ok (unexpected e, self) s)
        else Creates (some (t ++ more)) s run
  kvs_create-Creates [] more rest description s h k =
      kvs_create-empty _ description s (is_empty-view [] (more ++ 0 ∷ rest))
  kvs_create-Creates (c ∷ t) more rest description s h k =
      let full : (length (c ∷ t) == 0) ≡ false = ne→== (omega arith) in
      rw full (
        kvs_create-c_text (view (c ∷ t) (more ++ 0 ∷ rest)) description _ s
          (is_empty-view (c ∷ t) (more ++ 0 ∷ rest) ∙ full) (c_text-view (c ∷ t) more rest h k))

  kvs_bind-c_text :
      (bucket : View) (b : CString) (s : S)
      → c_text bucket ≡ some b
      → let out = nats.open_handle (HandleCall.key_value self.js b) null s in
        Yields nats out.0
          (λ kv. kv ≡ Store.construct out.1)
          (record self { s = some out.0 })
          out.2
          (kvs_bind nats self bucket s)
  unfolding kvs_bind c_text c_string nats_error
  kvs_bind-c_text bucket b s e = ground arith

  kvs_delete-c_text :
      (bucket : View) (b : CString) (s : S)
      → c_text bucket ≡ some b
      → let out = nats.call (StatusCall.delete_key_value self.js b) s in
        Yields nats out.0
          (λ _. Unit {0})
          (record self { s = some out.0 })
          out.1
          (kvs_delete nats self bucket s)
  unfolding kvs_delete c_text c_string nats_error
  kvs_delete-c_text bucket b s e = ground arith

  -- With a name that is a view of `t`, where `more` and then a NUL follow, `kvs_bind` looks up and
  -- `kvs_delete` deletes the bucket `t ++ more`, on the client's JetStream context, each by one call
  -- whose status it reports and the client keeps; `kvs_bind` returns the bucket that the library
  -- opened. Both always return.
  pub buckets-view :
      (t more rest : Text) (s : S)
      → NoNul t
      → NoNul more
      → let bucket = view t (more ++ 0 ∷ rest) in
        let found = nats.open_handle (HandleCall.key_value self.js (some (t ++ more))) null s in
        let deleted = nats.call (StatusCall.delete_key_value self.js (some (t ++ more))) s in
        Yields nats found.0
          (λ kv. kv ≡ Store.construct found.1)
          (record self { s = some found.0 })
          found.2
          (kvs_bind nats self bucket s)
        × Yields nats deleted.0
            (λ _. Unit {0})
            (record self { s = some deleted.0 })
            deleted.1
            (kvs_delete nats self bucket s)
  buckets-view t more rest s h k =
      let e = c_text-view t more rest h k in (kvs_bind-c_text _ _ s e, kvs_delete-c_text _ _ s e)

  -- `kvs_keys` lists the keys of the bucket by one call on an empty list. On success the returned list
  -- is the library's, and nothing is freed on the way. On failure the error carries the status and its
  -- text, and an array that the library left in the list is freed, once. It is undefined exactly if the
  -- call fails and the library has no name for the bucket.
  pub kvs_keys-YieldsNamed :
      (kv : KvStore) (opts : Option KvWatchOptions) (s : S)
      → let out = nats.keys kv.ptr opts (record { keys = null; count = pos 0 }) s in
        let freed =
          if out.1.keys == null then out.2 else nats.destroy Kind.kv_keys_list out.1.keys out.2 in
        YieldsNamed nats
          (nats.text (TextCall.store_bucket kv.ptr) out.2)
          out.0
          (λ list. list.kl ≡ out.1)
          (record self { s = some out.0 })
          (if out.0 != nats.nats_ok then freed else out.2)
          (kvs_keys nats self kv opts s)
  unfolding kvs_keys Store.bucket string_view nats_error
  kvs_keys-YieldsNamed kv opts s = ground arith

  kvs_watch-c_text :
      (kv : KvStore) (key : View) (opts : Option KvWatchOptions) (k : CString) (s : S)
      → c_text key ≡ some k
      → let out = nats.open_handle (HandleCall.kv_watch kv.ptr k opts) null s in
        YieldsNamed nats
          (nats.text (TextCall.store_bucket kv.ptr) out.2)
          out.0
          (λ w. w ≡ Watcher.construct out.1)
          (record self { s = some out.0 })
          out.2
          (kvs_watch nats self kv key opts s)
  unfolding kvs_watch c_text c_string Store.bucket string_view nats_error
  kvs_watch-c_text kv key opts k s e = ground arith

  -- `kvs_watch` watches the keys `t ++ more` of the bucket, for a view of `t` where `more` and then a
  -- NUL follow, with the options that it is given, and returns the watcher that the library opened or
  -- its error. It is undefined exactly if the call fails and the library has no name for the bucket.
  pub kvs_watch-view :
      (kv : KvStore) (t more rest : Text) (opts : Option KvWatchOptions) (s : S)
      → NoNul t
      → NoNul more
      → let out = nats.open_handle (HandleCall.kv_watch kv.ptr (some (t ++ more)) opts) null s in
        YieldsNamed nats
          (nats.text (TextCall.store_bucket kv.ptr) out.2)
          out.0
          (λ w. w ≡ Watcher.construct out.1)
          (record self { s = some out.0 })
          out.2
          (kvs_watch nats self kv (view t (more ++ 0 ∷ rest)) opts s)
  kvs_watch-view kv t more rest opts s h k =
      kvs_watch-c_text kv _ opts _ s (c_text-view t more rest h k)
