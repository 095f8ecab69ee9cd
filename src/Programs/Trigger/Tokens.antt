-- ===== src/Programs/Trigger/Tokens.antt =====
-- The invariant of the two threads of bench/bench_zeromq.cpp, by the place where each is.
use natsclient_cpp.Base.{◌≡◌, refl, ℕ, ◌+◌, ◌≤◌, true, false, ◌⊎◌, ◌∷◌, arith}
use natsclient_cpp.Programs.Trigger.{
  Producing, Consuming, Answer, Bench, produce, produce_at, binds, stores, raises, sends, awaits,
  awaits_exit, finishes, connects, receives, waits, waits_exit, loads, clears, adds,
}

-- Whether the consumer has a message that it has not answered by clearing `ready`.
abbrev pub held : Consuming → ℕ
held connects = 0
held Consuming.checks = 0
held receives = 0
held waits = 1
held waits_exit = 1
held Consuming.times = 1
held (loads ns) = 1
held (clears ns msg_ts) = 1
held (adds ns msg_ts) = 0
held Consuming.done = 0
held Consuming.failed = 0

-- Nothing is handed over.
abbrev pub Idle : Bench → ℕ → Type 0
Idle b n =
    (b.ready ≡ false) × (b.in_flight + n ≡ 0) × (b.stored ≡ b.sampled) × (b.timestamp ≤ b.clock)

-- A time stamp waits to be sampled, with at most `k` messages that tell of it.
abbrev pub Waiting : Bench → ℕ → ℕ → Type 0
Waiting b n k =
    (b.ready ≡ true)
    × (b.in_flight + n ≤ k)
    × (b.stored ≡ b.timestamp ∷ b.sampled)
    × (b.timestamp ≤ b.clock)

abbrev pub Spins : Bench → ℕ → Type 0
Spins b n = (b.should_exit ≡ false) × (Waiting b n 1 ⊎ Idle b n)

abbrev pub AtProducer : Bench → ℕ → Producing → Type 0
AtProducer b n binds = (b.should_exit ≡ false) × Idle b n
AtProducer b n (Producing.checks i) = (b.should_exit ≡ false) × Idle b n
AtProducer b n (Producing.times i) = (b.should_exit ≡ false) × Idle b n
AtProducer b n (stores i now) = (b.should_exit ≡ false) × Idle b n × (now ≤ b.clock)
AtProducer b n (raises i) =
    (b.should_exit ≡ false)
    × (b.ready ≡ false)
    × (b.in_flight + n ≡ 0)
    × (b.stored ≡ b.timestamp ∷ b.sampled)
    × (b.timestamp ≤ b.clock)
AtProducer b n (sends i) = (b.should_exit ≡ false) × Waiting b n 0
AtProducer b n (awaits i) = Spins b n
AtProducer b n (awaits_exit i) = Spins b n
AtProducer b n finishes = (b.should_exit ≡ false) × Idle b n
AtProducer b n Producing.done = Idle b n
AtProducer b n Producing.failed = Idle b n

abbrev pub AtConsumer : ℕ → Consuming → Type 0
AtConsumer t connects = Unit
AtConsumer t Consuming.checks = Unit
AtConsumer t receives = Unit
AtConsumer t waits = Unit
AtConsumer t waits_exit = Unit
AtConsumer t Consuming.times = Unit
AtConsumer t (loads ns) = t ≤ ns
AtConsumer t (clears ns msg_ts) = (msg_ts ≡ t) × (msg_ts ≤ ns)
AtConsumer t (adds ns msg_ts) = msg_ts ≤ ns
AtConsumer t Consuming.done = Unit
AtConsumer t Consuming.failed = Unit

abbrev pub Inv : Bench → Type 0
Inv b = AtProducer b (held b.consumer) b.producer × AtConsumer b.timestamp b.consumer

-- A consumer without a message is not at a place that knows of the time stamp.
pub AtConsumer-free : (t u : ℕ) (c : Consuming) → held c ≡ 0 → AtConsumer t c → AtConsumer u c
AtConsumer-free t u connects e h = tt
AtConsumer-free t u Consuming.checks e h = tt
AtConsumer-free t u receives e h = tt
AtConsumer-free t u waits e h = tt
AtConsumer-free t u waits_exit e h = tt
AtConsumer-free t u Consuming.times e h = tt
AtConsumer-free t u (loads ns) e h = ground arith
AtConsumer-free t u (clears ns msg_ts) e h = ground arith
AtConsumer-free t u (adds ns msg_ts) e h = h
AtConsumer-free t u Consuming.done e h = tt
AtConsumer-free t u Consuming.failed e h = tt

produce_at-Inv :
    (a : Answer) (b : Bench) (p : Producing)
    → AtProducer b (held b.consumer) p
    → AtConsumer b.timestamp b.consumer
    → b.producer ≡ p
    → Inv (produce_at a b p)
unfolding produce_at
produce_at-Inv a b binds h k e = (ground arith, k)
produce_at-Inv a b (Producing.checks i) h k e = (ground arith, k)
produce_at-Inv a b (Producing.times i) h k e = (ground arith, k)
produce_at-Inv a b (stores i now) h k e =
    (ground arith, AtConsumer-free b.timestamp now b.consumer (ground arith) k)
produce_at-Inv a b (raises i) h k e = (ground arith, k)
produce_at-Inv a b (sends i) h k e = (ground arith, k)
produce_at-Inv a b (awaits i) h k e = (ground arith, k)
produce_at-Inv a b (awaits_exit i) h k e = (ground arith, k)
produce_at-Inv a b finishes h k e = (ground arith, k)
produce_at-Inv a b Producing.done h k e = (ground arith, k)
produce_at-Inv a b Producing.failed h k e = (ground arith, k)

-- What the producer relies on, carried to a later state with the same tokens.
pub AtProducer-later :
    (b b' : Bench) (n n' : ℕ) (p : Producing)
    → b'.in_flight + n' ≡ b.in_flight + n
    → b.clock ≤ b'.clock
    → (b'.ready ≡ b.ready)
      × (b'.should_exit ≡ b.should_exit)
      × (b'.timestamp ≡ b.timestamp)
      × (b'.stored ≡ b.stored)
      × (b'.sampled ≡ b.sampled)
    → AtProducer b n p
    → AtProducer b' n' p
AtProducer-later b b' n n' binds en ec same h = ground arith
AtProducer-later b b' n n' (Producing.checks i) en ec same h = ground arith
AtProducer-later b b' n n' (Producing.times i) en ec same h = ground arith
AtProducer-later b b' n n' (stores i now) en ec same h = ground arith
AtProducer-later b b' n n' (raises i) en ec same h = ground arith
AtProducer-later b b' n n' (sends i) en ec same h = ground arith
AtProducer-later b b' n n' (awaits i) en ec same h = ground arith
AtProducer-later b b' n n' (awaits_exit i) en ec same h = ground arith
AtProducer-later b b' n n' finishes en ec same h = ground arith
AtProducer-later b b' n n' Producing.done en ec same h = ground arith
AtProducer-later b b' n n' Producing.failed en ec same h = ground arith

-- The consumer clears `ready` only while the producer waits for it.
pub AtProducer-cleared :
    (b : Bench) (p : Producing) (c : Consuming)
    → AtProducer b 1 p
    → AtProducer (record b { ready = false; sampled = b.timestamp ∷ b.sampled; consumer = c }) 0 p
AtProducer-cleared b binds c h = ground arith
AtProducer-cleared b (Producing.checks i) c h = ground arith
AtProducer-cleared b (Producing.times i) c h = ground arith
AtProducer-cleared b (stores i now) c h = ground arith
AtProducer-cleared b (raises i) c h = ground arith
AtProducer-cleared b (sends i) c h = ground arith
AtProducer-cleared b (awaits i) c h = ground arith
AtProducer-cleared b (awaits_exit i) c h = ground arith
AtProducer-cleared b finishes c h = ground arith
AtProducer-cleared b Producing.done c h = ground arith
AtProducer-cleared b Producing.failed c h = ground arith

-- What holds wherever the producer is.
abbrev pub Facts : Bench → ℕ → Type 0
Facts b n =
    ((b.stored ≡ b.sampled) ⊎ (b.stored ≡ b.timestamp ∷ b.sampled))
    × (b.in_flight + n ≤ 1)
    × (n ≡ 1 → b.ready ≡ true)
    × (b.timestamp ≤ b.clock)

pub AtProducer-Facts : (b : Bench) (n : ℕ) (p : Producing) → AtProducer b n p → Facts b n
AtProducer-Facts b n binds h = ground arith
AtProducer-Facts b n (Producing.checks i) h = ground arith
AtProducer-Facts b n (Producing.times i) h = ground arith
AtProducer-Facts b n (stores i now) h = ground arith
AtProducer-Facts b n (raises i) h = ground arith
AtProducer-Facts b n (sends i) h = ground arith
AtProducer-Facts b n (awaits i) h = ground arith
AtProducer-Facts b n (awaits_exit i) h = ground arith
AtProducer-Facts b n finishes h = ground arith
AtProducer-Facts b n Producing.done h = ground arith
AtProducer-Facts b n Producing.failed h = ground arith

pub produce-Inv : (a : Answer) (b : Bench) → Inv b → Inv (produce a b)
unfolding produce
produce-Inv a b h = produce_at-Inv a b b.producer h.0 h.1 refl
