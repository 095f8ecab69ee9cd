-- ===== src/Programs/Trigger/Rank.antt =====
-- How far the two threads of bench/bench_zeromq.cpp are from their end.
use natsclient_cpp.Base.{
  ◌≡◌, ℕ, ◌+◌, ◌-◌, ◌*◌, ◌≤◌, ◌<◌, Bool, true, false, ltb, if◌then◌else◌, length,
}
use natsclient_cpp.Programs.Trigger.{
  Producing, Consuming, Answer, Bench, binds, stores, raises, sends, awaits, awaits_exit, finishes,
  connects, receives, waits, waits_exit, loads, clears, adds, message,
}
use natsclient_cpp.Programs.Trigger.Tokens.{held, Inv}

-- The rounds of the producer that are left, and the place in its round.
abbrev pub ahead : Bool → Producing → ℕ
ahead ready binds = 200000005
ahead ready (Producing.checks i) = 20 * (10000000 - i) + 4
ahead ready (Producing.times i) = 20 * (10000000 - i) + 3
ahead ready (stores i now) = 20 * (10000000 - i) + 2
ahead ready (raises i) = 20 * (10000000 - i) + 1
ahead ready (sends i) = 20 * (10000000 - i)
ahead ready (awaits i) = 20 * (10000000 - (i + 1)) + (if ready then 7 else 5)
ahead ready (awaits_exit i) = 20 * (10000000 - (i + 1)) + (if ready then 7 else 6)
ahead ready finishes = 1
ahead ready Producing.done = 0
ahead ready Producing.failed = 0

-- The work of the consumer on the messages that are under way, and then on its end.
abbrev pub behind : Bool → ℕ → Consuming → ℕ
behind exit n connects = if ltb 0 n then 12 else 3
behind exit n Consuming.checks = if ltb 0 n then 11 else if exit then 1 else 2
behind exit n receives = if ltb 0 n then 10 else 2
behind exit n waits = 9
behind exit n waits_exit = 10
behind exit n Consuming.times = 8
behind exit n (loads ns) = 7
behind exit n (clears ns msg_ts) = 6
behind exit n (adds ns msg_ts) = if ltb 0 n then 12 else 3
behind exit n Consuming.done = 0
behind exit n Consuming.failed = 0

abbrev pub rank : Bench → ℕ
rank b = ahead b.ready b.producer + behind b.should_exit b.in_flight b.consumer

-- Where the producer is if no call has failed and no message was lost: `t` messages are under way or
-- not answered, and `k` time stamps have been stored.
abbrev pub Round : Bool → Bool → ℕ → ℕ → Producing → Type 0
Round exit ready t k binds = k ≡ 0
Round exit ready t k (Producing.checks i) = (i ≤ 10000000) × (k ≡ i)
Round exit ready t k (Producing.times i) = (i < 10000000) × (k ≡ i)
Round exit ready t k (stores i now) = (i < 10000000) × (k ≡ i)
Round exit ready t k (raises i) = (i < 10000000) × (k ≡ i + 1)
Round exit ready t k (sends i) = (i < 10000000) × (k ≡ i + 1)
Round exit ready t k (awaits i) = (i < 10000000) × (k ≡ i + 1) × (ready ≡ true → t ≡ 1)
Round exit ready t k (awaits_exit i) = (i < 10000000) × (k ≡ i + 1) × (ready ≡ true → t ≡ 1)
Round exit ready t k finishes = k ≡ 10000000
Round exit ready t k Producing.done = (exit ≡ true) × (k ≡ 10000000)
Round exit ready t k Producing.failed = ⊥

abbrev pub Runs : Bool → Consuming → Type 0
Runs exit connects = Unit
Runs exit Consuming.checks = Unit
Runs exit receives = Unit
Runs exit waits = Unit
Runs exit waits_exit = Unit
Runs exit Consuming.times = Unit
Runs exit (loads ns) = Unit
Runs exit (clears ns msg_ts) = Unit
Runs exit (adds ns msg_ts) = Unit
Runs exit Consuming.done = exit ≡ true
Runs exit Consuming.failed = ⊥

abbrev pub Fine : Bench → Type 0
Fine b =
    Inv b
    × Round b.should_exit b.ready (b.in_flight + held b.consumer) (length b.stored) b.producer
    × Runs b.should_exit b.consumer

-- A step of the producer that does not bring it on: it waits for a time stamp to be sampled, or has
-- returned.
abbrev pub Spinning : Bool → Producing → Type 0
Spinning ready binds = ⊥
Spinning ready (Producing.checks i) = ⊥
Spinning ready (Producing.times i) = ⊥
Spinning ready (stores i now) = ⊥
Spinning ready (raises i) = ⊥
Spinning ready (sends i) = ⊥
Spinning ready (awaits i) = ready ≡ true
Spinning ready (awaits_exit i) = ready ≡ true
Spinning ready finishes = ⊥
Spinning ready Producing.done = Unit
Spinning ready Producing.failed = Unit

-- Likewise of the consumer: there is no message for it, or it has returned.
abbrev pub Polling : Bool → ℕ → Consuming → Type 0
Polling exit n connects = ⊥
Polling exit n Consuming.checks = (exit ≡ false) × (n ≡ 0)
Polling exit n receives = (exit ≡ false) × (n ≡ 0)
Polling exit n waits = ⊥
Polling exit n waits_exit = ⊥
Polling exit n Consuming.times = ⊥
Polling exit n (loads ns) = ⊥
Polling exit n (clears ns msg_ts) = ⊥
Polling exit n (adds ns msg_ts) = ⊥
Polling exit n Consuming.done = Unit
Polling exit n Consuming.failed = Unit

abbrev pub Ended : Bench → Type 0
Ended b = (b.producer ≡ Producing.done) × (b.consumer ≡ Consuming.done)

-- The call succeeds, the message arrives, and a receive gives the message that is there.
abbrev pub Succeeds : Answer → Type 0
Succeeds a = (a.succeeds ≡ true) × (a.arrives ≡ true) × (a.received ≡ message)
