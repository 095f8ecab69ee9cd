-- ===== src/Tests/Requests.antt =====
-- Option setters, messages, buckets and entries at concrete data.
use mathlib.Core.Path.{subst}
use mathlib.Core.Option.{some-injective}
use natsclient_cpp.SubscriptionSync
use natsclient_cpp.MessageView
use natsclient_cpp.Base.{◌≡◌, refl, true, none, some, pos, arith, codes, ◌∷◌, [], ◌++◌, Text}
use natsclient_cpp.Nats.{null, CString, Kind, StatusCall, OptionCall, View, ok, Library}
use natsclient_cpp.Nats.Views.{NoNul, view, c_text}
use natsclient_cpp.Options
use natsclient_cpp.Options.{NatsOptions}
use natsclient_cpp.Options.Flags
use natsclient_cpp.Options.Setters.{Setter}
use natsclient_cpp.Options.Chain.{request, requests, run_chain, performed, run_chain-last}
use natsclient_cpp.Options.Deadline.{bool_of_int64, set_write_deadline-one}
use natsclient_cpp.SubscriptionSync.{NatsSubscriptionSync}
use natsclient_cpp.MessageView.{NatsMessageView}
use natsclient_cpp.Kv.Store
use natsclient_cpp.Kv.Store.{KvStore}
use natsclient_cpp.Kv.Entry
use natsclient_cpp.Kv.Entry.{KvEntry}
use natsclient_cpp.Kv.Watcher
use natsclient_cpp.Client.{NatsClient}
use natsclient_cpp.Client.Outcomes.{Yields, YieldsNamed}
use natsclient_cpp.Client.Messages
use natsclient_cpp.Client.Messages.Subjects.{Subscribed, subscribe-view}
use natsclient_cpp.Client.Entries
use natsclient_cpp.Client.Entries.Calls.{Calls, strings-view}
use natsclient_cpp.Client.Buckets
use natsclient_cpp.Client.Buckets.Calls.{
  Creates, kvs_create-Creates, buckets-view, kvs_keys-YieldsNamed, kvs_watch-view,
}
use natsclient_cpp.Getters.{Shown, getters-Shown}
use natsclient_cpp.Tests.{State, start, hand_out, library}

abbrev lib : Library State
lib = library 0 (some (codes "foo"))

abbrev options : NatsOptions
options = record { ptr = 1; s = none }

abbrev literal : Text → View
literal t = view t (0 ∷ [])

url_requests :
    requests (Setter.url (literal (codes "u")) ∷ [])
    ≡ some (OptionCall.set_url (some (codes "u")) ∷ [])
unfolding requests request c_text
url_requests = refl

send_asap_request : request (Setter.send_asap true) ≡ some (OptionCall.set_send_asap true)
unfolding request
send_asap_request = refl

-- `.set_url("u").set_send_asap(true)`
run_chain-last_example :
    run_chain lib (Setter.url (literal (codes "u")) ∷ Setter.send_asap true ∷ []) options start
    ≡ ok
        (record { ptr = 1; s = some 0 })
        (record start {
          calls =
              StatusCall.option 1 (OptionCall.set_send_asap true)
              ∷ StatusCall.option 1 (OptionCall.set_url (some (codes "u")))
              ∷ [];
        })
unfolding performed
run_chain-last_example =
    run_chain-last lib (Setter.url (literal (codes "u")) ∷ []) (Setter.send_asap true) options start
      url_requests send_asap_request

set_write_deadline-one_example :
    Flags.set_write_deadline lib options (bool_of_int64 (pos 5000))
    ≡ Options.apply lib (OptionCall.set_write_deadline (pos 1)) options
set_write_deadline-one_example = set_write_deadline-one lib options (pos 5000) (λ e. cc)

abbrev client : NatsClient
client = record {
  conn = 2;
  opts = record { ptr = 1; s = some 0 };
  js = 3;
  s = none;
  js_opts = none;
}

abbrev called : StatusCall → State
called c = record start { calls = c ∷ [] }

abbrev opened : State
opened = (hand_out 0 0 start).2

abbrev after : NatsClient
after = record client { s = some 0 }

-- A view of the first three characters of "foobar".
abbrev prefix : View
prefix = view (codes "foo") (codes "bar" ++ 0 ∷ [])

abbrev payload : View
payload = record { bytes = some (1 ∷ 0 ∷ 2 ∷ []); size = 3 }

abbrev sent : State
sent = called (StatusCall.publish 2 (some (codes "foobar")) (some (1 ∷ 0 ∷ 2 ∷ [])) 3)

subscribe-view_example :
    Yields lib 0
      (Subscribed 1)
      after
      opened
      (Messages.subscribe_sync lib client (literal (codes "foo")) start)
    × Yields lib 0 (Subscribed 1) after opened (
        Messages.queue_subscribe_sync lib client
          (literal (codes "foo"))
          (literal (codes "g"))
          start)
subscribe-view_example =
    subscribe-view lib client (codes "foo") [] [] (codes "g") [] [] start (omega arith) tt
      (omega arith) tt

-- Three characters and nothing behind them.
abbrev unended : View
unended = record { bytes = some (codes "foo"); size = 3 }

unended_reads : c_text unended ≡ none
unfolding c_text
unended_reads = refl

abbrev sub : NatsSubscriptionSync
sub = record { ptr = 5; s = none }

abbrev kv : KvStore
kv = record { ptr = 6 }

strings-view_example :
    Calls lib client kv
      (StatusCall.kv_create_string null 6 (some (codes "k")) (some (codes "foobar")))
      start
      (Entries.kv_create_string lib client kv (literal (codes "k")) prefix start)
    × Calls lib client kv
        (StatusCall.kv_put_string null 6 (some (codes "k")) (some (codes "foobar")))
        start
        (Entries.kv_put_string lib client kv (literal (codes "k")) prefix start)
strings-view_example =
    strings-view lib client kv (codes "k") [] [] (codes "foo") (codes "bar") [] start (omega arith)
      tt (omega arith) (omega arith)

kvs_create-Creates_example :
    Creates lib client
      (some (codes "b"))
      start
      (Buckets.kvs_create lib client (literal (codes "b")) none start)
kvs_create-Creates_example =
    kvs_create-Creates lib client (codes "b") [] [] none start (omega arith) tt

buckets-view_example :
    Yields lib 0
      (λ b. b ≡ Store.construct 1)
      after
      opened
      (Buckets.kvs_bind lib client (literal (codes "b")) start)
    × Yields lib 0
        (λ _. Unit {0})
        after
        (called (StatusCall.delete_key_value 3 (some (codes "b"))))
        (Buckets.kvs_delete lib client (literal (codes "b")) start)
buckets-view_example = buckets-view lib client (codes "b") [] [] start (omega arith) tt

-- The call fails, and leaves an array in the list.
kvs_keys-YieldsNamed_example :
    let lib : Library State = library 3 (some (codes "b")) in
    YieldsNamed lib
      (some (codes "b"))
      3
      (λ list. list.kl ≡ record { keys = 9; count = pos 2 })
      (record client { s = some 3 })
      (lib.destroy Kind.kv_keys_list 9 start)
      (Buckets.kvs_keys lib client kv none start)
kvs_keys-YieldsNamed_example =
    kvs_keys-YieldsNamed (library 3 (some (codes "b"))) client kv none start

kvs_watch-view_example :
    YieldsNamed lib
      (some (codes "foo"))
      0
      (λ w. w ≡ Watcher.construct 1)
      after
      opened
      (Buckets.kvs_watch lib client kv (literal (codes "k")) none start)
kvs_watch-view_example = kvs_watch-view lib client kv (codes "k") [] [] none start (omega arith) tt

abbrev msg : NatsMessageView
msg = record { ptr = 8 }

abbrev entry : KvEntry
entry = record { ptr = 9 }

foo_ends : (t : Text) → ◌≡◌ {A = CString} (some (codes "foo")) (some t) → NoNul t
foo_ends t e = subst NoNul (some-injective _ _ e) (omega arith)

getters-Shown_example :
    Shown (some (codes "foo")) start (SubscriptionSync.subject lib sub start)
    × Shown (some (codes "foo")) start (MessageView.subject lib msg start)
    × Shown (some (codes "foo")) start (Store.bucket lib kv start)
    × Shown (some (codes "foo")) start (Entry.bucket lib entry start)
    × Shown (some (codes "foo")) start (Entry.key lib entry start)
    × Shown (some (codes "foo")) start (Entry.value_string lib entry start)
getters-Shown_example = getters-Shown lib (λ c s t e. foo_ends t e) sub msg kv entry start
