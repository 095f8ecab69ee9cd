-- ===== src/Client/Entries/Calls.antt =====
-- What the operations on entries ask of the library.
use natsclient_cpp.Base.{◌≡◌, some, ◌∷◌, ◌++◌, Text, arith}
use natsclient_cpp.Nats.{
  CString, StatusCall, HandleCall, TextCall, null, Library, Run, View, c_string, string_view,
}
use natsclient_cpp.Nats.Views.{NoNul, view, c_text, c_text-view}
use natsclient_cpp.Error.{nats_error, Expected}
use natsclient_cpp.Kv.Store
use natsclient_cpp.Kv.Store.{KvStore}
use natsclient_cpp.Kv.Entry
use natsclient_cpp.Kv.Entry.{KvEntry}
use natsclient_cpp.Client.{NatsClient}
use natsclient_cpp.Client.Outcomes.{YieldsNamed}
use natsclient_cpp.Client.Entries.{kv_get, kv_create_string, kv_put_string}

module _ {S : Type 0} (nats : Library S) (self : NatsClient) (kv : KvStore) where
  -- One call, whose status `s` keeps. If it fails, the message names the bucket as the library does.
  abbrev pub Calls : StatusCall → S → Run S (Expected (Unit {0}) × NatsClient) → Type 0
  Calls call s =
      let out = nats.call call s in
      YieldsNamed nats (nats.text (TextCall.store_bucket kv.ptr) out.1) out.0 (λ _. Unit {0})
        (record self { s = some out.0 }) out.1

  -- Likewise for a call that opens an entry.
  abbrev pub Gets : CString → S → Run S (Expected KvEntry × NatsClient) → Type 0
  Gets k s =
      let out = nats.open_handle (HandleCall.kv_get kv.ptr k) null s in
      YieldsNamed nats (nats.text (TextCall.store_bucket kv.ptr) out.2) out.0
        (λ e. e ≡ Entry.construct out.1) (record self { s = some out.0 }) out.2

  module _ (key : View) (k : CString) (s : S) (reads : c_text key ≡ some k) where
    module _ (value : View) (v : CString) (reads_value : c_text value ≡ some v) where
      kv_create_string-Calls :
          Calls
            (StatusCall.kv_create_string null kv.ptr k v)
            s
            (kv_create_string nats self kv key value s)
      unfolding kv_create_string c_text c_string Store.bucket string_view nats_error
      kv_create_string-Calls = ground arith

      kv_put_string-Calls :
          Calls
            (StatusCall.kv_put_string null kv.ptr k v)
            s
            (kv_put_string nats self kv key value s)
      unfolding kv_put_string c_text c_string Store.bucket string_view nats_error
      kv_put_string-Calls = ground arith

  -- With a value that is a view of `u`, where `extra` and then a NUL follow, `kv_create_string` and
  -- `kv_put_string` store the text `u ++ extra`: the size of the view does not bound it. For the rest
  -- they do as `kv_create` and `kv_put`.
  pub strings-view :
      (t more rest u extra rest' : Text) (s : S)
      → NoNul t
      → NoNul more
      → NoNul u
      → NoNul extra
      → let key = view t (more ++ 0 ∷ rest) in
        let value = view u (extra ++ 0 ∷ rest') in
        let k : CString = some (t ++ more) in
        let v : CString = some (u ++ extra) in
        Calls
          (StatusCall.kv_create_string null kv.ptr k v)
          s
          (kv_create_string nats self kv key value s)
        × Calls
            (StatusCall.kv_put_string null kv.ptr k v)
            s
            (kv_put_string nats self kv key value s)
  strings-view t more rest u extra rest' s h n h' n' =
      let e = c_text-view t more rest h n in
      let f = c_text-view u extra rest' h' n' in
      (kv_create_string-Calls _ _ s e _ _ f, kv_put_string-Calls _ _ s e _ _ f)
