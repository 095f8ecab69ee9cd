-- ===== src/Programs/Shared/Finish.antt =====
-- When `main` of bench/bench_zeromq.cpp returns.
use natsclient_cpp.Base.{Bool, ◌++◌, List, [], ◌∷◌, codes}
use natsclient_cpp.Programs.Shared.{Exit, set_thread_priority}
use natsclient_cpp.Programs.Trigger.Fair.{Fair}

-- It may only complain of priorities.
abbrev pub succeeds : Bool × Bool → Exit
succeeds raised = record {
  code = 0;
  output = codes "Done\n" ∷ [];
  errors = set_thread_priority raised.0 ++ set_thread_priority raised.1;
}
