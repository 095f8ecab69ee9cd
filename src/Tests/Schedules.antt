-- ===== src/Tests/Schedules.antt =====
-- A fair schedule of the two threads of bench/bench_zeromq.cpp.
use natsclient_cpp.Base.{◌≡◌, refl, ℕ, true, pos, List, [], ◌∷◌}
use natsclient_cpp.Programs.Trigger.{Answer, initial, produce, consume, message}
use natsclient_cpp.Programs.Trigger.Rank.{Succeeds}
use natsclient_cpp.Programs.Trigger.Fair.{Turn, producer_turn, consumer_turn, run, run_blocks, Fair}

abbrev pub well : Answer
well = record {
  succeeds = true;
  arrives = true;
  received = message;
  elapsed = 5;
  wall = pos 3000000000;
}

-- The consumer has two turns to one of the producer.
abbrev pub block : List Turn
block = consumer_turn well ∷ producer_turn well ∷ consumer_turn well ∷ []

abbrev pub blocks : ℕ → List Turn
blocks k = block

pub block-Fair : Fair block
block-Fair =
    let well-Succeeds : Succeeds well = (refl, refl, refl) in
    (tt, tt, (well-Succeeds, (well-Succeeds, (well-Succeeds, tt))))

-- The first time stamp has been sampled.
run_blocks_runs :
    let b = run_blocks 10 blocks (initial 100) in (b.stored ≡ 105 ∷ []) × (b.sampled ≡ 105 ∷ [])
unfolding run_blocks run produce consume
run_blocks_runs = (refl, refl)
