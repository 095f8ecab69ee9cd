-- ===== src/Options/Chain.antt =====
-- Chains of setters, `options().set_url(…).set_send_asap(true)…`, against the calls of C that the table
-- at the top of include/nats_client/Options.hpp lists.
use mathlib.Core.Option.{some-injective}
use natsclient_cpp.Base.{
  ◌≡◌, refl, ◌∙◌, ap, suc, Option, none, some, List, [], ◌∷◌, ◌++◌, map, Text, length, arith,
}
use natsclient_cpp.Nats.{
  Ptr, CString, StatusCall, OptionCall, null, Library, M, Run, ok, undefined, pure, ◌>>=◌, View,
  c_string,
}
use natsclient_cpp.Nats.Views.{c_text}
use natsclient_cpp.Options.{NatsOptions, push_servers}
use natsclient_cpp.Options.Flags.{int64_of_bool}
use natsclient_cpp.Options.Setters.{Setter, run_setter}
use mathlib.Core.List.{append_assoc, append-nil}

-- The call that a setter stands for; none if a text does not end.
abbrev one_text : (CString → OptionCall) → View → Option OptionCall
one_text f v = elim (c_text v) [ none ↦ none | some t ↦ some (f t) ]

abbrev two_texts : (CString → CString → OptionCall) → View → View → Option OptionCall
two_texts f v w = elim (c_text v) [ none ↦ none | some t ↦ one_text (f t) w ]

unfoldable pub request : Setter → Option OptionCall
request (Setter.servers list) = some (OptionCall.set_servers (map some list) (length list))
request (Setter.token v) = one_text OptionCall.set_token v
request (Setter.name v) = one_text OptionCall.set_name v
request (Setter.load_ca_trusted_certificates v) = one_text OptionCall.load_ca_trusted_certificates v
request (Setter.ca_trusted_certificates v) = one_text OptionCall.set_ca_trusted_certificates v
request (Setter.ciphers v) = one_text OptionCall.set_ciphers v
request (Setter.cipher_suites v) = one_text OptionCall.set_cipher_suites v
request (Setter.url v) = one_text OptionCall.set_url v
request (Setter.expected_hostname v) = one_text OptionCall.set_expected_hostname v
request (Setter.custom_inbox_prefix v) = one_text OptionCall.set_custom_inbox_prefix v
request (Setter.user_credentials_from_memory v) =
    one_text OptionCall.set_user_credentials_from_memory v
request (Setter.load_certificates_chain v w) = two_texts OptionCall.load_certificates_chain v w
request (Setter.certificates_chain v w) = two_texts OptionCall.set_certificates_chain v w
request (Setter.user_info v w) = two_texts OptionCall.set_user_info v w
request (Setter.user_credentials_from_file v w) =
    two_texts OptionCall.set_user_credentials_from_files v w
request (Setter.no_randomize b) = some (OptionCall.set_no_randomize b)
request (Setter.secure b) = some (OptionCall.set_secure b)
request (Setter.verbose b) = some (OptionCall.set_verbose b)
request (Setter.skip_server_verification b) = some (OptionCall.skip_server_verification b)
request (Setter.pedantic b) = some (OptionCall.set_pedantic b)
request (Setter.allow_reconnect b) = some (OptionCall.set_allow_reconnect b)
request (Setter.send_asap b) = some (OptionCall.set_send_asap b)
request (Setter.fail_requests_on_disconnect b) = some (OptionCall.set_fail_requests_on_disconnect b)
request (Setter.no_echo b) = some (OptionCall.set_no_echo b)
request (Setter.disable_no_responders b) = some (OptionCall.disable_no_responders b)
request (Setter.use_global_message_delivery b) = some (OptionCall.use_global_message_delivery b)
request (Setter.retry_on_failed_connect b) =
    some (OptionCall.set_retry_on_failed_connect b null null)
request (Setter.write_deadline b) = some (OptionCall.set_write_deadline (int64_of_bool b))
request (Setter.timeout n) = some (OptionCall.set_timeout n)
request (Setter.ping_interval n) = some (OptionCall.set_ping_interval n)
request (Setter.max_pings_out n) = some (OptionCall.set_max_pings_out n)
request (Setter.io_buffer_size n) = some (OptionCall.set_io_buf_size n)
request (Setter.max_reconnect n) = some (OptionCall.set_max_reconnect n)
request (Setter.reconnect_wait n) = some (OptionCall.set_reconnect_wait n)
request (Setter.reconnect_buf_size n) = some (OptionCall.set_reconnect_buf_size n)
request (Setter.max_pending_msgs n) = some (OptionCall.set_max_pending_msgs n)
request (Setter.message_buffer_padding n) = some (OptionCall.set_message_buffer_padding n)
request (Setter.ip_resolution_order n) = some (OptionCall.ip_resolution_order n)
request (Setter.reconnect_jitter n m) = some (OptionCall.set_reconnect_jitter n m)

unfoldable pub requests : List Setter → Option (List OptionCall)
requests [] = some []
requests (x ∷ chain) = elim (request x) [
  | none ↦ none
  | some c ↦ elim (requests chain) [ none ↦ none | some l ↦ some (c ∷ l) ]
]

requests-cons :
    (y : Setter) (chain : List Setter) (calls : List OptionCall)
    → requests (y ∷ chain) ≡ some calls
    → (c : OptionCall) × (l : List OptionCall) × (request y ≡ some c)
      × (requests chain ≡ some l)
      × (calls ≡ c ∷ l)
unfolding requests
requests-cons y chain calls e = go (request y) (requests chain) refl refl
  where
    go :
        (r : Option OptionCall) (q : Option (List OptionCall))
        → request y ≡ r
        → requests chain ≡ q
        → (c : OptionCall) × (l : List OptionCall) × (request y ≡ some c)
          × (requests chain ≡ some l)
          × (calls ≡ c ∷ l)
    go none q f g = absurd (ground arith)
    go (some c) none f g = absurd (ground arith)
    go (some c) (some l) f g = (c, l, f, g, ground arith)

length-map-some : (l : List Text) → length (map {B = CString} some l) ≡ length l
length-map-some [] = refl
length-map-some (x ∷ l) = ap suc (length-map-some l)

push_servers-map : (l : List Text) (acc : List CString) → push_servers l acc ≡ acc ++ map some l
unfolding push_servers
push_servers-map [] acc = rw append-nil
push_servers-map (x ∷ l) acc = push_servers-map l _ ∙ append_assoc acc _ _

module _ {S : Type 0} (nats : Library S) where
  -- One call on the options, and the status that it leaves.
  abbrev pub answered : NatsOptions → Option OptionCall → S → Run S NatsOptions
  answered self none s = undefined
  answered self (some c) s =
      let out = nats.call (StatusCall.option self.ptr c) s in
      ok (record self { s = some out.0 }) out.1

  pub run_setter-answered :
      (x : Setter) (self : NatsOptions) (s : S)
      → run_setter nats x self s ≡ answered self (request x) s
  unfolding run_setter request c_string c_text
  run_setter-answered (Setter.servers list) self s =
      rw (push_servers-map list [], length-map-some list)
  run_setter-answered x self s = ground arith

  -- The setters of a chain, each on what the one before it returned.
  pub run_chain : List Setter → NatsOptions → M S NatsOptions
  run_chain [] self = pure self
  run_chain (x ∷ chain) self = do self' ← run_setter nats x self; run_chain chain self'

  -- The library's state after calls on the options at `p`, in order.
  unfoldable pub performed : Ptr → List OptionCall → S → S
  performed p [] s = s
  performed p (c ∷ calls) s = performed p calls (nats.call (StatusCall.option p c) s).1

  run_chain-cons :
      (y : Setter) (chain : List Setter) (c : OptionCall) (self : NatsOptions) (s : S)
      → request y ≡ some c
      → let out = nats.call (StatusCall.option self.ptr c) s in
        run_chain (y ∷ chain) self s ≡ run_chain chain (record self { s = some out.0 }) out.1
  unfolding run_chain
  run_chain-cons y chain c self s e = rw (run_setter-answered y self s, e)

  run_chain-answered :
      (chain : List Setter) (x : Setter) (calls : List OptionCall) (c : OptionCall)
      (self : NatsOptions) (s : S)
      → requests chain ≡ some calls
      → request x ≡ some c
      → run_chain (chain ++ x ∷ []) self s ≡ answered self (some c) (performed self.ptr calls s)
  unfolding performed run_chain requests
  run_chain-answered [] x calls c self s e f =
      rw (run_setter-answered x self s, f)
        (ap (λ l. answered self (some c) (performed self.ptr l s)) (some-injective _ _ e))
  run_chain-answered (y ∷ chain) x calls c self s e f =
      let (d, l, first, others, both) = requests-cons y chain calls e in
      rw (both, run_chain-cons y (chain ++ x ∷ []) d self s first)
        (run_chain-answered chain x l c _ _ others f)

  -- In a chain of setters each makes its one call of C, in order, with the C text of each view, and
  -- every call is made whatever the ones before it returned. Of the statuses only that of the last
  -- call is left in `s`: an earlier failure does not show. The options struct stays the same.
  pub run_chain-last :
      (chain : List Setter) (x : Setter) {calls : List OptionCall} {c : OptionCall}
      (self : NatsOptions) (s : S)
      → requests chain ≡ some calls
      → request x ≡ some c
      → let out = nats.call (StatusCall.option self.ptr c) (performed self.ptr calls s) in
        run_chain (chain ++ x ∷ []) self s ≡ ok (record self { s = some out.0 }) out.1
  run_chain-last chain x self s e f = run_chain-answered chain x _ _ self s e f
