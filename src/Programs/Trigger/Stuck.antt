-- ===== src/Programs/Trigger/Stuck.antt =====
-- When the benchmark bench/bench_zeromq.cpp hangs.
use mathlib.Core.Path.{subst}
use natsclient_cpp.Base.{◌≡◌, refl, sym, ℕ, zero, suc, true, false, ◌⊎◌, List, arith}
use natsclient_cpp.Programs.Trigger.{
  Producing, Consuming, Received, Answer, Bench, Reach, produce, consume, produce_at, consume_at,
  receive, take_message, initial, binds, stores, raises, sends, awaits, awaits_exit, finishes,
  connects, receives, waits, waits_exit, loads, clears, adds, nothing, message, error, produces,
  consumes, here, next,
}
use natsclient_cpp.Programs.Trigger.Tokens.{held, AtProducer, Inv}
use natsclient_cpp.Programs.Trigger.Handshake.{initial-Inv, Reach-Inv}

-- The consumer has no message and gets none: it has returned, or there is none under way.
abbrev pub Mute : ℕ → Consuming → Type 0
Mute m connects = m ≡ 0
Mute m Consuming.checks = m ≡ 0
Mute m receives = m ≡ 0
Mute m waits = ⊥
Mute m waits_exit = ⊥
Mute m Consuming.times = ⊥
Mute m (loads ns) = ⊥
Mute m (clears ns msg_ts) = ⊥
Mute m (adds ns msg_ts) = m ≡ 0
Mute m Consuming.done = Unit
Mute m Consuming.failed = Unit

-- The producer is in the loop that waits for its `i`-th time stamp to be sampled.
abbrev pub Waits : ℕ → Producing → Type 0
Waits i p = (p ≡ awaits i) ⊎ (p ≡ awaits_exit i)

abbrev pub Hangs : ℕ → List ℕ → Bench → Type 0
Hangs i samples b =
    Waits i b.producer
    × (b.ready ≡ true)
    × (b.should_exit ≡ false)
    × (b.sampled ≡ samples)
    × Mute b.in_flight b.consumer

module _ (i : ℕ) (samples : List ℕ) where
  produce_at-Hangs :
      (a : Answer) (b : Bench) (p : Producing)
      → b.producer ≡ p
      → Hangs i samples b
      → Hangs i samples (produce_at a b p)
  unfolding produce_at
  produce_at-Hangs a b binds e h = ground arith
  produce_at-Hangs a b (Producing.checks j) e h = ground arith
  produce_at-Hangs a b (Producing.times j) e h = ground arith
  produce_at-Hangs a b (stores j now) e h = ground arith
  produce_at-Hangs a b (raises j) e h = ground arith
  produce_at-Hangs a b (sends j) e h = ground arith
  produce_at-Hangs a b (awaits j) e h = ground arith
  produce_at-Hangs a b (awaits_exit j) e h = ground arith
  produce_at-Hangs a b finishes e h = ground arith
  produce_at-Hangs a b Producing.done e h = ground arith
  produce_at-Hangs a b Producing.failed e h = ground arith

  take_message-Hangs :
      (b : Bench) (n : ℕ)
      → b.in_flight ≡ 0
      → b.in_flight ≡ n
      → Hangs i samples b
      → Hangs i samples (take_message b n)
  unfolding take_message
  take_message-Hangs b zero z e h = ground arith
  take_message-Hangs b (suc n) z e h = ground arith

  receive-Hangs :
      (r : Received) (b : Bench)
      → b.in_flight ≡ 0
      → Hangs i samples b
      → Hangs i samples (receive r b)
  unfolding receive
  receive-Hangs nothing b z h = ground arith
  receive-Hangs message b z h = take_message-Hangs b b.in_flight z refl h
  receive-Hangs error b z h = ground arith

  consume_at-Hangs :
      (a : Answer) (b : Bench) (c : Consuming)
      → b.consumer ≡ c
      → Mute b.in_flight c
      → Hangs i samples b
      → Hangs i samples (consume_at a b c)
  unfolding consume_at
  consume_at-Hangs a b connects e m h = ground arith
  consume_at-Hangs a b Consuming.checks e m h = ground arith
  consume_at-Hangs a b receives e m h = receive-Hangs a.received b m h
  consume_at-Hangs a b waits e m h = absurd m
  consume_at-Hangs a b waits_exit e m h = absurd m
  consume_at-Hangs a b Consuming.times e m h = absurd m
  consume_at-Hangs a b (loads ns) e m h = absurd m
  consume_at-Hangs a b (clears ns msg_ts) e m h = absurd m
  consume_at-Hangs a b (adds ns msg_ts) e m h = ground arith
  consume_at-Hangs a b Consuming.done e m h = h
  consume_at-Hangs a b Consuming.failed e m h = h

  Reach-Hangs : {b b' : Bench} → Reach b b' → Hangs i samples b → Hangs i samples b'
  unfolding produce consume
  Reach-Hangs here h = h
  Reach-Hangs (next {b'} r (produces a e)) h =
      rw e (produce_at-Hangs a b' b'.producer refl (Reach-Hangs r h))
  Reach-Hangs (next {b'} r (consumes a e)) h =
      let before = Reach-Hangs r h in rw e (consume_at-Hangs a b' b'.consumer refl before.4 before)

sends-Mute :
    (b : Bench) (i : ℕ)
    → Inv b
    → b.producer ≡ sends i
    → (b.in_flight ≡ 0) × (held b.consumer ≡ 0) × (b.ready ≡ true) × (b.should_exit ≡ false)
sends-Mute b i h e =
    let known : AtProducer b (held b.consumer) (sends i) = rw e at h.0 in ground arith

held-Mute : (m : ℕ) (c : Consuming) → m ≡ 0 → held c ≡ 0 → Mute m c
held-Mute m connects z e = ground arith
held-Mute m Consuming.checks z e = ground arith
held-Mute m receives z e = ground arith
held-Mute m waits z e = ground arith
held-Mute m waits_exit z e = ground arith
held-Mute m Consuming.times z e = ground arith
held-Mute m (loads ns) z e = ground arith
held-Mute m (clears ns msg_ts) z e = ground arith
held-Mute m (adds ns msg_ts) z e = ground arith
held-Mute m Consuming.done z e = ground arith
held-Mute m Consuming.failed z e = ground arith

sends-Hangs :
    (a : Answer) (b : Bench) (i : ℕ)
    → Inv b
    → b.producer ≡ sends i
    → a.arrives ≡ false
    → Hangs i b.sampled (produce_at a b (sends i))
unfolding produce_at
sends-Hangs a b i h e drop =
    let known = sends-Mute b i h e in
    let mute = held-Mute b.in_flight b.consumer known.0 known.1 in ground arith

-- If a message does not arrive where it is sent, then whatever follows, the producer waits for that
-- time stamp to be sampled, with `ready` set and `should_exit` not, and no time stamp is sampled any
-- more. So the producer never returns.
pub dropped-Hangs :
    (clock : ℕ) (b b' : Bench) (i : ℕ) (a : Answer)
    → Reach (initial clock) b
    → b.producer ≡ sends i
    → a.arrives ≡ false
    → Reach (produce a b) b'
    → Hangs i b.sampled b'
unfolding produce
dropped-Hangs clock b b' i a r e drop r' = Reach-Hangs i b.sampled r' (
    subst (λ p. Hangs i b.sampled (produce_at a b p)) (sym e)
      (sends-Hangs a b i (Reach-Inv r (initial-Inv clock)) e drop))
