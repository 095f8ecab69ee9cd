-- ===== src/Programs/Trigger/Completion.antt =====
-- Where fair schedules of the two threads of bench/bench_zeromq.cpp end.
use natsclient_cpp.Base.{◌≡◌, length}
use natsclient_cpp.Programs.Trigger.{Bench}
use natsclient_cpp.Programs.Trigger.Rank.{Ended}
use natsclient_cpp.Programs.Trigger.Fair.{Fair}

-- Both threads have returned, and each of the ten million time stamps was sampled once, in order.
abbrev pub Completes : Bench → Type 0
Completes b = Ended b × (b.stored ≡ b.sampled) × (length b.stored ≡ 10000000)
