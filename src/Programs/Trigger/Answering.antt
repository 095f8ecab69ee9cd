-- ===== src/Programs/Trigger/Answering.antt =====
-- Each step of the consumer of bench/bench_zeromq.cpp brings it on, or there is no message for it.
use natsclient_cpp.Base.{
  ◌≡◌, refl, ℕ, zero, suc, ◌+◌, ◌≤◌, ◌<◌, Bool, true, false, ◌⊎◌, arith, length,
}
use natsclient_cpp.Programs.Trigger.{
  Producing, Consuming, Received, Answer, Bench, consume, consume_at, receive, take_message, binds,
  stores, raises, sends, awaits, awaits_exit, finishes, connects, receives, waits, waits_exit,
  loads, clears, adds, nothing, message, error,
}
use natsclient_cpp.Programs.Trigger.Tokens.{held, AtProducer-Facts}
use natsclient_cpp.Programs.Trigger.Handshake.{consume-Inv}
use natsclient_cpp.Programs.Trigger.Rank.{ahead, rank, Round, Runs, Fine, Polling, Succeeds}

Round-cleared :
    (exit ready : Bool) (t u k : ℕ) (p : Producing)
    → Round exit ready t k p
    → Round exit false u k p
Round-cleared exit ready t u k binds r = r
Round-cleared exit ready t u k (Producing.checks i) r = r
Round-cleared exit ready t u k (Producing.times i) r = r
Round-cleared exit ready t u k (stores i now) r = r
Round-cleared exit ready t u k (raises i) r = r
Round-cleared exit ready t u k (sends i) r = r
Round-cleared exit ready t u k (awaits i) r = ground arith
Round-cleared exit ready t u k (awaits_exit i) r = ground arith
Round-cleared exit ready t u k finishes r = r
Round-cleared exit ready t u k Producing.done r = r
Round-cleared exit ready t u k Producing.failed r = r

ahead-cleared : (ready : Bool) (p : Producing) → ahead false p ≤ ahead ready p
ahead-cleared ready binds = ground arith
ahead-cleared ready (Producing.checks i) = ground arith
ahead-cleared ready (Producing.times i) = ground arith
ahead-cleared ready (stores i now) = ground arith
ahead-cleared ready (raises i) = ground arith
ahead-cleared ready (sends i) = ground arith
ahead-cleared ready (awaits i) = ground arith
ahead-cleared ready (awaits_exit i) = ground arith
ahead-cleared ready finishes = ground arith
ahead-cleared ready Producing.done = ground arith
ahead-cleared ready Producing.failed = ground arith

abbrev pub Answers : Bench → Bench → Type 0
Answers b b' =
    (rank b' < rank b)
    ⊎ ((rank b' ≡ rank b)
        × Polling b.should_exit b.in_flight b.consumer
        × (b'.ready ≡ b.ready)
        × (b'.producer ≡ b.producer))

-- What a step of the consumer leaves.
abbrev pub Goes : Bench → Bench → Type 0
Goes b b' =
    Answers b b'
    × Round b'.should_exit b'.ready (b'.in_flight + held b'.consumer) (length b'.stored) b'.producer
    × Runs b'.should_exit b'.consumer

abbrev pub Now : Bench → Type 0
Now b = Round b.should_exit b.ready (b.in_flight + held b.consumer) (length b.stored) b.producer

-- Where the tokens and the shared data stay as they are.
keeps :
    (b : Bench) (u : ℕ)
    → b.in_flight + held b.consumer ≡ u
    → Now b
    → Round b.should_exit b.ready u (length b.stored) b.producer
keeps b u e r = rw e at r

take_message-Goes :
    (b : Bench) (n : ℕ)
    → b.in_flight ≡ n
    → b.consumer ≡ receives
    → Now b
    → Goes b (take_message b n)
unfolding take_message
take_message-Goes b zero en e r = (ground arith, keeps b (b.in_flight + 0) (ground arith) r, tt)
take_message-Goes b (suc n) en e r = (ground arith, keeps b (n + 1) (ground arith) r, tt)

receive-Goes :
    (x : Received) (b : Bench) → x ≡ message → b.consumer ≡ receives → Now b → Goes b (receive x b)
unfolding receive
receive-Goes nothing b s e r = ground arith
receive-Goes message b s e r = take_message-Goes b b.in_flight refl e r
receive-Goes error b s e r = ground arith

consume_at-Goes :
    (a : Answer) (b : Bench) (c : Consuming)
    → Succeeds a
    → b.consumer ≡ c
    → (held c ≡ 1 → (b.ready ≡ true) × (b.in_flight ≡ 0))
    → Now b
    → Runs b.should_exit c
    → Goes b (consume_at a b c)
unfolding consume_at
consume_at-Goes a b connects s e h r k = (ground arith, keeps b _ (ground arith) r, ground arith)
consume_at-Goes a b Consuming.checks s e h r k =
    (ground arith, keeps b _ (ground arith) r, ground arith)
consume_at-Goes a b receives s e h r k = receive-Goes a.received b (ground arith) e r
consume_at-Goes a b waits s e h r k = (ground arith, keeps b _ (ground arith) r, ground arith)
consume_at-Goes a b waits_exit s e h r k = (ground arith, keeps b _ (ground arith) r, ground arith)
consume_at-Goes a b Consuming.times s e h r k =
    (ground arith, keeps b (b.in_flight + 1) (ground arith) r, tt)
consume_at-Goes a b (loads ns) s e h r k =
    (ground arith, keeps b (b.in_flight + 1) (ground arith) r, tt)
consume_at-Goes a b (clears ns msg_ts) s e h r k = (
  ground (arith, ahead-cleared b.ready b.producer),
  Round-cleared b.should_exit b.ready (b.in_flight + held b.consumer) (b.in_flight + 0)
      (length b.stored) b.producer r,
  tt,
)
consume_at-Goes a b (adds ns msg_ts) s e h r k =
    (ground arith, keeps b (b.in_flight + 0) (ground arith) r, tt)
consume_at-Goes a b Consuming.done s e h r k = (ground arith, r, ground arith)
consume_at-Goes a b Consuming.failed s e h r k = absurd k

pub consume-Goes : (a : Answer) (b : Bench) → Succeeds a → Fine b → Goes b (consume a b)
unfolding consume
consume-Goes a b s (i, r, k) =
    let (_, one, ready, _) = AtProducer-Facts b (held b.consumer) b.producer i.0 in
    consume_at-Goes a b b.consumer s refl (λ e. (ready e, ground arith)) r k

pub consume-Fine : (a : Answer) (b : Bench) → Succeeds a → Fine b → Fine (consume a b)
consume-Fine a b s f = let (_, r, k) = consume-Goes a b s f in (consume-Inv a b f.0, r, k)
