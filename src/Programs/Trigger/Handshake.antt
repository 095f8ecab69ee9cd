-- ===== src/Programs/Trigger/Handshake.antt =====
-- What the two threads of bench/bench_zeromq.cpp hand over.
use natsclient_cpp.Base.{
  ◌≡◌, refl, ap, ℕ, zero, suc, ◌+◌, ◌≤◌, true, ◌⊎◌, List, ◌∷◌, Text, ◌++◌, diff, arith,
  if◌then◌else◌,
}
use natsclient_cpp.Programs.Window.{Stats, begin, account}
use natsclient_cpp.Programs.Trigger.{
  Consuming, Received, Answer, Bench, Step, Reach, consume, consume_at, receive, take_message,
  initial, connects, receives, waits, waits_exit, loads, clears, adds, nothing, message, error,
  produces, consumes, here, next,
}
use natsclient_cpp.Programs.Trigger.Tokens.{
  held, AtProducer, AtConsumer, Inv, produce-Inv, AtProducer-later, AtProducer-cleared,
  AtProducer-Facts,
}

-- A step of the consumer that leaves the tokens and the shared data alone.
later :
    (b : Bench) (c : Consuming) (m clock : ℕ) (stats : Stats) (output : List Text)
    → m + held c ≡ b.in_flight + held b.consumer
    → b.clock ≤ clock
    → Inv b
    → AtProducer
        (record b { in_flight = m; clock = clock; stats = stats; output = output; consumer = c })
        (held c)
        b.producer
later b c m clock stats output em ec h =
    AtProducer-later b
      (record b { in_flight = m; clock = clock; stats = stats; output = output; consumer = c })
      (held b.consumer) (held c) b.producer em ec (refl, refl, refl, refl, refl) h.0

-- The place of the consumer, where only that changes.
moves :
    (b : Bench) (c : Consuming)
    → held c ≡ held b.consumer
    → AtConsumer b.timestamp c
    → Inv b
    → Inv (record b { consumer = c })
moves b c e k h =
    (later b c b.in_flight b.clock b.stats b.output (ground arith) (ground arith) h, k)

take_message-Inv :
    (b : Bench) (n : ℕ) → b.in_flight ≡ n → b.consumer ≡ receives → Inv b → Inv (take_message b n)
unfolding take_message
take_message-Inv b zero en e h = moves b Consuming.checks (ground arith) tt h
take_message-Inv b (suc n) en e h =
    (later b waits n b.clock b.stats b.output (ground arith) (ground arith) h, tt)

receive-Inv : (r : Received) (b : Bench) → b.consumer ≡ receives → Inv b → Inv (receive r b)
unfolding receive
receive-Inv nothing b e h = moves b Consuming.checks (ground arith) tt h
receive-Inv message b e h = take_message-Inv b b.in_flight refl e h
receive-Inv error b e h = moves b Consuming.failed (ground arith) tt h

consume_at-Inv :
    (a : Answer) (b : Bench) (c : Consuming) → b.consumer ≡ c → Inv b → Inv (consume_at a b c)
unfolding consume_at
consume_at-Inv a b connects e h = (
  later b (if a.succeeds then Consuming.checks else Consuming.failed) b.in_flight b.clock
      (begin a.wall) b.output (ground arith) (ground arith) h,
  ground arith,
)
consume_at-Inv a b Consuming.checks e h = moves b _ (ground arith) (ground arith) h
consume_at-Inv a b receives e h = receive-Inv a.received b e h
consume_at-Inv a b waits e h = moves b _ (ground arith) (ground arith) h
consume_at-Inv a b waits_exit e h = moves b _ (ground arith) (ground arith) h
consume_at-Inv a b Consuming.times e h = (
  later b (loads (b.clock + a.elapsed)) b.in_flight (b.clock + a.elapsed) b.stats b.output
      (ground arith) (ground arith) h,
  ground (arith, AtProducer-Facts b (held b.consumer) b.producer h.0),
)
consume_at-Inv a b (loads ns) e h =
    let known : AtConsumer b.timestamp (loads ns) = rw e at h.1 in
    moves b (clears ns b.timestamp) (ground arith) (refl, known) h
consume_at-Inv a b (clears ns msg_ts) e h =
    let known : AtConsumer b.timestamp (clears ns msg_ts) = rw e at h.1 in
    (rw known.0 (AtProducer-cleared b b.producer (adds ns b.timestamp) (rw e at h.0)), known.1)
consume_at-Inv a b (adds ns msg_ts) e h = (
  later b Consuming.checks b.in_flight b.clock (account b.stats (diff ns msg_ts) a.wall).0
      (b.output ++ (account b.stats (diff ns msg_ts) a.wall).1) (ground arith) (ground arith) h,
  tt,
)
consume_at-Inv a b Consuming.done e h = h
consume_at-Inv a b Consuming.failed e h = h

pub consume-Inv : (a : Answer) (b : Bench) → Inv b → Inv (consume a b)
unfolding consume
consume-Inv a b h = consume_at-Inv a b b.consumer refl h

Step-Inv : {b b' : Bench} → Step b b' → Inv b → Inv b'
Step-Inv {b} (produces a e) h = rw e (produce-Inv a b h)
Step-Inv {b} (consumes a e) h = rw e (consume-Inv a b h)

pub initial-Inv : (clock : ℕ) → Inv (initial clock)
initial-Inv clock = ground arith

pub Reach-Inv : {b b' : Bench} → Reach b b' → Inv b → Inv b'
Reach-Inv here h = h
Reach-Inv (next r step) h = Step-Inv step (Reach-Inv r h)

-- What the two threads agree on at each moment.
pub record Agrees (b : Bench) : Type 0 where
  -- every time stamp that was stored has been sampled once, and in order; the last one perhaps not yet
  pub sampled_once : (b.stored ≡ b.sampled) ⊎ (b.stored ≡ b.timestamp ∷ b.sampled)
  -- at most one message is under way or not answered
  pub one_message : b.in_flight + held b.consumer ≤ 1
  -- a message tells that `ready` is set, so that the consumer does not wait for it
  pub is_ready : b.consumer ≡ waits → b.ready ≡ true
  -- a latency is that of the time stamp to be sampled, and not negative
  pub current : (ns msg_ts : ℕ) → b.consumer ≡ clears ns msg_ts → msg_ts ≡ b.timestamp
  pub forward : (ns msg_ts : ℕ) → b.consumer ≡ adds ns msg_ts → msg_ts ≤ ns

Inv-Agrees : (b : Bench) → Inv b → Agrees b
Inv-Agrees b h = record {
  sampled_once = (AtProducer-Facts b (held b.consumer) b.producer h.0).0;
  one_message = (AtProducer-Facts b (held b.consumer) b.producer h.0).1;
  is_ready = λ e. (AtProducer-Facts b (held b.consumer) b.producer h.0).2 (ap held e);
  current =
      λ ns msg_ts e. let known : AtConsumer b.timestamp (clears ns msg_ts) = rw e at h.1 in known.0;
  forward =
      λ ns msg_ts e. let known : AtConsumer b.timestamp (adds ns msg_ts) = rw e at h.1 in known;
}

-- Whatever the order of the threads' steps, the answers of ZeroMQ and the pace of the clocks, the
-- threads agree at each moment: every time stamp stored is sampled once, in order; at most one message
-- is under way; a message finds `ready` set; and no latency is negative.
pub Reach-Agrees : (clock : ℕ) (b : Bench) → Reach (initial clock) b → Agrees b
Reach-Agrees clock b r = Inv-Agrees b (Reach-Inv r (initial-Inv clock))
