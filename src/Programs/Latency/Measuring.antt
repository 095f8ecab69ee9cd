-- ===== src/Programs/Latency/Measuring.antt =====
-- What a round of the consumer of bench/bench_lat_pub_sub.cpp does with a message.
use natsclient_cpp.Base.{◌≡◌, ◌≢◌, ℤ, pos, ◌-ℤ◌, some, List, Text, arith}
use natsclient_cpp.Nats.{
  Ptr, null, Kind, NatsStatus, HandleCall, DataCall, Library, Run, ok, Returns,
}
use natsclient_cpp.Error.{success}
use natsclient_cpp.MessageView
use natsclient_cpp.SubscriptionSync
use natsclient_cpp.SubscriptionSync.{NatsSubscriptionSync}
use natsclient_cpp.Client.Lifetime.{give_back}
use natsclient_cpp.Programs.Window.{Stats, account}
use natsclient_cpp.Programs.Latency.{Next, continues, stops, read_int64, measure, round}

module _ {S : Type 0} (nats : Library S) (sub : NatsSubscriptionSync) where
  -- The next message.
  abbrev pub asked : S → NatsStatus × Ptr × S
  asked s = nats.open_handle (HandleCall.next_msg sub.ptr (pos 99999999)) null s

module _ {S : Type 0} (nats : Library S) (now : S → ℤ × S) (stats : Stats)
    (sub : NatsSubscriptionSync) where
  -- The time stamp `ts` has been read from the message.
  abbrev pub Measures : ℤ → S → Run S (Next × List Text × NatsSubscriptionSync) → Type 0
  Measures ts s run =
      let come = now (asked nats sub s).2 in
      let done = now come.1 in
      let out = account stats (come.0 -ℤ ts) done.0 in
      run
      ≡ ok (continues out.0, out.1, record sub { s = some nats.nats_ok })
          (give_back nats Kind.msg (asked nats sub s).1 done.1)

  pub round-reads :
      (s : S) (ts : ℤ)
      → (asked nats sub s).0 ≡ nats.nats_ok
      → read_int64
          (nats.data_at (DataCall.msg_data (asked nats sub s).1) (now (asked nats sub s).2).1)
        ≡ some ts
      → Measures ts s (round nats now stats sub s)
  unfolding round measure SubscriptionSync.next_msg MessageView.construct MessageView.data_span
      MessageView.destruct
  round-reads s ts e d = ground arith

  pub round-Fails :
      (s : S)
      → (asked nats sub s).0 ≢ nats.nats_ok
      → Returns
          (λ r t.
            (r.0 ≢ stops success)
            × ((c : Stats) → r.0 ≢ continues c)
            × (t ≡ (now (asked nats sub s).2).1)
            × (r.2.ptr ≡ sub.ptr))
          (round nats now stats sub s)
  unfolding round SubscriptionSync.next_msg
  round-Fails s ne = ground arith
