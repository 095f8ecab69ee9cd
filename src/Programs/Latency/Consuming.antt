-- ===== src/Programs/Latency/Consuming.antt =====
-- What the consumer of bench/bench_lat_pub_sub.cpp opens it gives back.
use natsclient_cpp.Base.{◌≡◌, ℤ, Bool, some, [], ◌++◌, codes}
use natsclient_cpp.Nats.{Ptr, null, NatsStatus, HandleCall, Library}
use natsclient_cpp.SubscriptionSync
use natsclient_cpp.Client.{NatsClient}
use natsclient_cpp.Programs.Session.Accounts.{Books, Owes}
use natsclient_cpp.Programs.Session.Closing.{Accounts}
use natsclient_cpp.Programs.Latency.Balance.{Long}

module _ {S : Type 0} {nats : Library S} {live : Ptr → S → Bool} (books : Books nats live)
    (now : S → ℤ × S) (now_same : (q : Ptr) (s : S) → live q (now s).1 ≡ live q s)
    (long : Long nats) (base : S) where
  module _ (c : NatsClient) (s : S) (o : Owes nats live base c s) where
    abbrev call : HandleCall
    call = HandleCall.subscribe_sync c.conn (some (codes "bench_latency" ++ []))

    abbrev out : NatsStatus × Ptr × S
    out = nats.open_handle call null s
