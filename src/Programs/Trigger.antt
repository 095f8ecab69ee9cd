-- ===== src/Programs/Trigger.antt =====
-- The benchmark bench/bench_zeromq.cpp: two threads that hand a time stamp over through shared memory.
-- A step is one access to the shared data, one call of ZeroMQ or of a clock, or what a thread does
-- alone in between. Each step sees those before it.
pub mod Tokens
pub mod Handshake
pub mod Stuck
pub mod Rank
pub mod Progress
pub mod Answering
pub mod Fair
pub mod Completion
use natsclient_cpp.Base.{
  ◌≡◌, ℕ, zero, suc, ◌+◌, ℤ, diff, Bool, true, false, ◌&&◌, not, List, [], ◌∷◌, ◌++◌, Text, ◌==◌,
  ltb, if◌then◌else◌,
}
use natsclient_cpp.Programs.Window.{Stats, begin, account}

-- What the next step of the producer is, in the order of the source.
pub data Producing : Type 0 where
  binds : Producing
  checks : ℕ → Producing
  times : ℕ → Producing
  stores : ℕ → ℕ → Producing
  raises : ℕ → Producing
  sends : ℕ → Producing
  awaits : ℕ → Producing
  awaits_exit : ℕ → Producing
  finishes : Producing
  done : Producing
  failed : Producing

pub data Consuming : Type 0 where
  connects : Consuming
  checks : Consuming
  receives : Consuming
  waits : Consuming
  waits_exit : Consuming
  times : Consuming
  loads : ℕ → Consuming
  clears : ℕ → ℕ → Consuming
  adds : ℕ → ℕ → Consuming
  done : Consuming
  failed : Consuming

-- What a receive gives if a message is there.
pub data Received : Type 0 where
  nothing : Received
  message : Received
  error : Received

-- What the world adds to a step: whether a call of ZeroMQ succeeds, whether a message that is sent
-- has a subscriber that it reaches, what a receive gives, how far the monotonic clock has gone, and
-- what the other clock shows.
pub record Answer : Type 0 where
  pub succeeds : Bool
  pub arrives : Bool
  pub received : Received
  pub elapsed : ℕ
  pub wall : ℤ

-- `timestamp`, `ready` and `should_exit` are the shared data. `in_flight` counts the messages that have
-- reached the subscriber's queue. `stored` and `sampled` are a record of the run, newest first: the
-- time stamps that were stored, and those that were taken before `ready` was cleared.
pub record Bench : Type 0 where
  pub timestamp : ℕ
  pub ready : Bool
  pub should_exit : Bool
  pub in_flight : ℕ
  pub clock : ℕ
  pub producer : Producing
  pub consumer : Consuming
  pub stats : Stats
  pub output : List Text
  pub stored : List ℕ
  pub sampled : List ℕ

produce_at : Answer → Bench → Producing → Bench
produce_at a b binds = record b {
  producer = if a.succeeds then Producing.checks 0 else Producing.failed;
}
produce_at a b (Producing.checks i) = record b {
  producer = if ltb i 10000000 && not b.should_exit then Producing.times i else finishes;
}
produce_at a b (Producing.times i) =
    let now = b.clock + a.elapsed in record b { clock = now; producer = stores i now }
produce_at a b (stores i now) = record b {
  timestamp = now;
  stored = now ∷ b.stored;
  producer = raises i;
}
produce_at a b (raises i) = record b { ready = true; producer = sends i }
produce_at a b (sends i) = record b {
  in_flight = if a.arrives then b.in_flight + 1 else b.in_flight;
  producer = awaits i;
}
produce_at a b (awaits i) = record b {
  producer = if b.ready then awaits_exit i else Producing.checks (i + 1);
}
produce_at a b (awaits_exit i) = record b {
  producer = if b.should_exit then Producing.checks (i + 1) else awaits i;
}
produce_at a b finishes = record b { should_exit = true; producer = Producing.done }
produce_at a b Producing.done = b
produce_at a b Producing.failed = b

-- A step of `run_producer`.
unfoldable pub produce : Answer → Bench → Bench
unfolding produce_at
produce a b = produce_at a b b.producer

take_message : Bench → ℕ → Bench
take_message b zero = record b { consumer = Consuming.checks }
take_message b (suc n) = record b { in_flight = n; consumer = waits }

-- `recv` with `dontwait`. There is a message only if one is in flight.
receive : Received → Bench → Bench
unfolding take_message
receive nothing b = record b { consumer = Consuming.checks }
receive message b = take_message b b.in_flight
receive error b = record b { consumer = Consuming.failed }

consume_at : Answer → Bench → Consuming → Bench
unfolding receive account
consume_at a b connects = record b {
  stats = begin a.wall;
  consumer = if a.succeeds then Consuming.checks else Consuming.failed;
}
consume_at a b Consuming.checks = record b {
  consumer = if b.should_exit then Consuming.done else receives;
}
consume_at a b receives = receive a.received b
consume_at a b waits = record b { consumer = if b.ready then Consuming.times else waits_exit }
consume_at a b waits_exit = record b { consumer = if b.should_exit then Consuming.times else waits }
consume_at a b Consuming.times =
    let ns = b.clock + a.elapsed in record b { clock = ns; consumer = loads ns }
consume_at a b (loads ns) = record b { consumer = clears ns b.timestamp }
consume_at a b (clears ns msg_ts) = record b {
  ready = false;
  sampled = msg_ts ∷ b.sampled;
  consumer = adds ns msg_ts;
}
consume_at a b (adds ns msg_ts) =
    let (stats, lines) = account b.stats (diff ns msg_ts) a.wall in
    record b { stats = stats; output = b.output ++ lines; consumer = Consuming.checks }
consume_at a b Consuming.done = b
consume_at a b Consuming.failed = b

-- A step of `run_consumer`.
unfoldable pub consume : Answer → Bench → Bench
unfolding consume_at
consume a b = consume_at a b b.consumer

-- `main` up to the start of the threads: the memory is zero.
abbrev pub initial : ℕ → Bench
initial clock = record {
  timestamp = 0;
  ready = false;
  should_exit = false;
  in_flight = 0;
  clock = clock;
  producer = binds;
  consumer = connects;
  stats = begin (ℤ.pos 0);
  output = [];
  stored = [];
  sampled = [];
}

-- The threads take their steps in any order.
pub data Step (b b' : Bench) : Type 0 where
  produces : (a : Answer) → b' ≡ produce a b → Step b b'
  consumes : (a : Answer) → b' ≡ consume a b → Step b b'

pub data Reach (b : Bench) : Bench → Type 0 where
  here : Reach b b
  next : {b' b'' : Bench} → Reach b b' → Step b' b'' → Reach b b''
