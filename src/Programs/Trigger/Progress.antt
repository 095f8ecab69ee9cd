-- ===== src/Programs/Trigger/Progress.antt =====
-- Each step of the two threads of bench/bench_zeromq.cpp brings them on, or waits for the other thread.
use natsclient_cpp.Base.{◌≡◌, refl, ℕ, ◌+◌, ◌≤◌, ◌<◌, true, false, ◌⊎◌, arith, length}
use natsclient_cpp.Programs.Trigger.{
  Producing, Consuming, Answer, Bench, produce, produce_at, binds, stores, raises, sends, awaits,
  awaits_exit, finishes, connects, receives, waits, waits_exit, loads, clears, adds,
}
use natsclient_cpp.Programs.Trigger.Tokens.{held, AtProducer, produce-Inv}
use natsclient_cpp.Programs.Trigger.Rank.{behind, rank, Round, Runs, Fine, Spinning, Succeeds}

behind-sends : (c : Consuming) → held c ≡ 0 → Runs false c → behind false 1 c ≤ behind false 0 c + 9
behind-sends connects e r = ground arith
behind-sends Consuming.checks e r = ground arith
behind-sends receives e r = ground arith
behind-sends waits e r = ground arith
behind-sends waits_exit e r = ground arith
behind-sends Consuming.times e r = ground arith
behind-sends (loads ns) e r = ground arith
behind-sends (clears ns msg_ts) e r = ground arith
behind-sends (adds ns msg_ts) e r = ground arith
behind-sends Consuming.done e r = ground arith
behind-sends Consuming.failed e r = ground arith

behind-finishes :
    (n : ℕ) (c : Consuming) → Runs false c → (behind true n c ≤ behind false n c) × Runs true c
behind-finishes n connects r = ground arith
behind-finishes n Consuming.checks r = ground arith
behind-finishes n receives r = ground arith
behind-finishes n waits r = ground arith
behind-finishes n waits_exit r = ground arith
behind-finishes n Consuming.times r = ground arith
behind-finishes n (loads ns) r = ground arith
behind-finishes n (clears ns msg_ts) r = ground arith
behind-finishes n (adds ns msg_ts) r = ground arith
behind-finishes n Consuming.done r = ground arith
behind-finishes n Consuming.failed r = ground arith

abbrev pub Advances : Bench → Bench → Type 0
Advances b b' =
    (rank b' < rank b)
    ⊎ ((rank b' ≡ rank b)
        × Spinning b.ready b.producer
        × (b'.should_exit ≡ b.should_exit)
        × (b'.in_flight ≡ b.in_flight)
        × (b'.consumer ≡ b.consumer))

produce_at-Advances :
    (a : Answer) (b : Bench) (p : Producing)
    → Succeeds a
    → b.producer ≡ p
    → AtProducer b (held b.consumer) p
    → Round b.should_exit b.ready (b.in_flight + held b.consumer) (length b.stored) p
    → Runs b.should_exit b.consumer
    → Advances b (produce_at a b p)
unfolding produce_at
produce_at-Advances a b binds s e h r k = ground arith
produce_at-Advances a b (Producing.checks i) s e h r k = ground arith
produce_at-Advances a b (Producing.times i) s e h r k = ground arith
produce_at-Advances a b (stores i now) s e h r k = ground arith
produce_at-Advances a b (raises i) s e h r k = ground arith
produce_at-Advances a b (sends i) s e h r k = ground (arith, behind-sends b.consumer)
produce_at-Advances a b (awaits i) s e h r k = ground arith
produce_at-Advances a b (awaits_exit i) s e h r k = ground arith
produce_at-Advances a b finishes s e h r k = ground (arith, behind-finishes b.in_flight b.consumer)
produce_at-Advances a b Producing.done s e h r k = ground arith
produce_at-Advances a b Producing.failed s e h r k = ground arith

produce_at-Fine :
    (a : Answer) (b : Bench) (p : Producing)
    → Succeeds a
    → b.producer ≡ p
    → AtProducer b (held b.consumer) p
    → Round b.should_exit b.ready (b.in_flight + held b.consumer) (length b.stored) p
    → Runs b.should_exit b.consumer
    → Round
        (produce_at a b p).should_exit
        (produce_at a b p).ready
        ((produce_at a b p).in_flight + held (produce_at a b p).consumer)
        (length (produce_at a b p).stored)
        (produce_at a b p).producer
      × Runs (produce_at a b p).should_exit (produce_at a b p).consumer
unfolding produce_at
produce_at-Fine a b binds s e h r k = ground arith
produce_at-Fine a b (Producing.checks i) s e h r k = ground arith
produce_at-Fine a b (Producing.times i) s e h r k = ground arith
produce_at-Fine a b (stores i now) s e h r k = ground arith
produce_at-Fine a b (raises i) s e h r k = ground arith
produce_at-Fine a b (sends i) s e h r k = ground arith
produce_at-Fine a b (awaits i) s e h r k = ground arith
produce_at-Fine a b (awaits_exit i) s e h r k = ground arith
produce_at-Fine a b finishes s e h r k = ground (arith, behind-finishes b.in_flight b.consumer)
produce_at-Fine a b Producing.done s e h r k = ground arith
produce_at-Fine a b Producing.failed s e h r k = ground arith

pub produce-Advances : (a : Answer) (b : Bench) → Succeeds a → Fine b → Advances b (produce a b)
unfolding produce
produce-Advances a b s (i, r, k) = produce_at-Advances a b b.producer s refl i.0 r k

pub produce-Fine : (a : Answer) (b : Bench) → Succeeds a → Fine b → Fine (produce a b)
unfolding produce
produce-Fine a b s (i, r, k) =
    let (round, runs) = produce_at-Fine a b b.producer s refl i.0 r k in
    (produce-Inv a b i, round, runs)
