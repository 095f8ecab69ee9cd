-- ===== src/Tests/Threads.antt =====
-- The two threads of bench/bench_zeromq.cpp in some orders.
use natsclient_cpp.Base.{◌≡◌, refl, true, false, pos, codes, [], ◌∷◌, List}
use natsclient_cpp.Programs.Window.{Stats, begin, account, report, line}
use natsclient_cpp.Programs.Trigger.{
  Consuming, Answer, Bench, Reach, produce, consume, initial, produces, consumes, here, next,
  message, error,
}
use natsclient_cpp.Programs.Trigger.Handshake.{Agrees, Reach-Agrees}
use natsclient_cpp.Programs.Trigger.Stuck.{Hangs, dropped-Hangs}

abbrev well : Answer
well = record {
  succeeds = true;
  arrives = true;
  received = message;
  elapsed = 5;
  wall = pos 3000000000;
}

abbrev lost : Answer
lost = record well { arrives = false }

abbrev broken : Answer
broken = record well { received = error }

-- Who is to take the next steps.
data Turn : Type 0 where
  producer : Turn
  consumer : Turn

take_turn : Turn → Bench → Bench
unfolding produce consume
take_turn producer b = produce well b
take_turn consumer b = consume well b

-- The last turn of the list is the first.
take_turns : List Turn → Bench → Bench
unfolding take_turn
take_turns [] b = b
take_turns (t ∷ l) b = take_turn t (take_turns l b)

reached : (l : List Turn) (b : Bench) → Reach b (take_turns l b)
unfolding take_turns take_turn
reached [] b = here
reached (producer ∷ l) b = next (reached l b) (produces well refl)
reached (consumer ∷ l) b = next (reached l b) (consumes well refl)

-- The producer has raised `ready` for its first time stamp and is to send.
abbrev raised : List Turn
raised = producer ∷ producer ∷ producer ∷ producer ∷ producer ∷ []

-- The message is sent and the consumer has read the flag, and is to receive it.
abbrev sent : List Turn
sent = consumer ∷ consumer ∷ producer ∷ raised

-- It has taken the time stamp and printed a line.
abbrev taken : List Turn
taken = consumer ∷ consumer ∷ consumer ∷ consumer ∷ consumer ∷ consumer ∷ sent

taken_runs :
    let b = take_turns taken (initial 100) in
    (b.stored ≡ 105 ∷ [])
    × (b.sampled ≡ 105 ∷ [])
    × (b.ready ≡ false)
    × (b.consumer ≡ Consuming.checks)
unfolding take_turns take_turn produce consume
taken_runs = (refl, refl, refl, refl)

Reach-Agrees_example : Agrees (take_turns taken (initial 100))
Reach-Agrees_example =
    Reach-Agrees 100 (take_turns taken (initial 100)) (reached taken (initial 100))

dropped-Hangs_example : Hangs 0 [] (produce lost (take_turns raised (initial 100)))
unfolding take_turns take_turn produce consume
dropped-Hangs_example =
    dropped-Hangs 100 (take_turns raised (initial 100)) _ 0 lost (reached raised (initial 100)) refl
      refl here

abbrev two_latencies : Stats
two_latencies = record { counter = 2; latency_sum = pos 30; last_time = pos 0 }

account_runs :
    account two_latencies (pos 60) (pos 1500000000)
    ≡ (begin (pos 1500000000), codes "3 msgs/s, avg. latency 30 ns\n" ∷ [])
unfolding account report line
account_runs = refl
