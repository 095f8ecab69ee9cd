-- ===== src/Programs/Shared.antt =====
-- `main` and the clock of bench/bench_zeromq.cpp: the memory that the two threads share is set up, they
-- run, and it is removed.
pub mod Setup
pub mod Clock
pub mod Finish
use natsclient_cpp.Base.{
  ℕ, ◌+◌, ◌*◌, ◌^◌, Bool, true, false, ◌&&◌, Option, none, some, List, [], ◌∷◌, ◌++◌, Text, codes,
  ltb, if◌then◌else◌,
}
use natsclient_cpp.Nats.{Ptr, M, pure, ◌>>=◌, ◌>>◌, returning, effect}
use natsclient_cpp.Programs.Trigger.{Producing, Consuming, Bench, initial}
use natsclient_cpp.Programs.Trigger.Fair.{Turn, run_blocks}

abbrev shm_name : Text
shm_name = codes "/zmq_bench_shm"

abbrev shm_size : ℕ
shm_size = 4096

-- What `clock_gettime(CLOCK_MONOTONIC, …)` writes.
pub record Timespec : Type 0 where
  pub tv_sec : ℕ
  pub tv_nsec : ℕ

-- In `int64_t`; `none` where that overflows, which is undefined.
unfoldable pub nanos : Timespec → Option ℕ
nanos ts = let n = ts.tv_sec * 1000000000 + ts.tv_nsec in if ltb n (2 ^ 63) then some n else none

-- The calls of the system, over a state of its own. `none` stands for -1 and MAP_FAILED, `false` for -1.
pub record System (S : Type 0) : Type 0 where
  pub shm_open : Text → S → Option ℕ × S
  pub ftruncate : ℕ → ℕ → S → Bool × S
  -- the size and the descriptor
  pub mmap : ℕ → ℕ → S → Option Ptr × S
  pub munmap : Ptr → ℕ → S → S
  pub shm_unlink : Text → S → S

-- The exit code, and what `main` itself and the functions of its threads print to `std::cout` and
-- `std::cerr`.
pub record Exit : Type 0 where
  pub code : ℕ
  pub output : List Text
  pub errors : List Text

-- `std::cerr << …; return 1;`
abbrev pub fails : Text → Exit
fails message = record { code = 1; output = []; errors = message ∷ [] }

-- What a thread writes to `std::cerr` at its start, by whether its priority can be raised.
unfoldable pub set_thread_priority : Bool → List Text
set_thread_priority true = []
set_thread_priority false = codes "Failed to set thread priority\n" ∷ []

-- `if (!ret) std::cerr << ret.error() << std::endl;` in the two threads, with the text of the error.
unfoldable pub producer_errors : Text → Producing → List Text
producer_errors error Producing.failed = (error ++ codes "\n") ∷ []
producer_errors error p = []

unfoldable pub consumer_errors : Text → Consuming → List Text
consumer_errors error Consuming.failed = (error ++ codes "\n") ∷ []
consumer_errors error c = []

-- Whether a thread can be joined.
unfoldable pub producer_ended : Producing → Bool
producer_ended Producing.done = true
producer_ended Producing.failed = true
producer_ended p = false

unfoldable pub consumer_ended : Consuming → Bool
consumer_ended Consuming.done = true
consumer_ended Consuming.failed = true
consumer_ended c = false

-- The threads take `n` blocks of turns from when the clock shows `clock`. `raised` says whether each
-- raises its priority, and an error of theirs is one of the two texts.
module _ {S : Type 0} (sys : System S) (n : ℕ) (blocks : ℕ → List Turn) (clock : ℕ)
    (raised : Bool × Bool) (producer_error consumer_error : Text) where
  -- After the threads: `none` while one of them still runs. Of their lines, those that tell of
  -- priorities stand first, and the producer's before the consumer's; they may come in another order.
  join_threads : Ptr → Bench → M S (Option Exit)
  unfolding set_thread_priority producer_errors consumer_errors producer_ended consumer_ended
  join_threads shm_ptr b =
      if producer_ended b.producer && consumer_ended b.consumer
      then (do
        effect (sys.munmap shm_ptr shm_size)
        effect (sys.shm_unlink shm_name)
        pure (
            some (record {
              code = 0;
              output = codes "Done\n" ∷ [];
              errors =
                  set_thread_priority raised.0
                  ++ (set_thread_priority raised.1
                      ++ (producer_errors producer_error b.producer
                          ++ consumer_errors consumer_error b.consumer));
            })))
      else pure none

  with_memory : Option Ptr → M S (Option Exit)
  unfolding join_threads
  with_memory none = pure (some (fails (codes "Failed to map shared memory\n")))
  with_memory (some shm_ptr) = join_threads shm_ptr (run_blocks n blocks (initial clock))

  with_size : ℕ → Bool → M S (Option Exit)
  unfolding with_memory
  with_size shm_fd false = pure (some (fails (codes "Failed to set shared memory size\n")))
  with_size shm_fd true = do shm_ptr ← returning (sys.mmap shm_size shm_fd); with_memory shm_ptr

  with_file : Option ℕ → M S (Option Exit)
  unfolding with_size
  with_file none = pure (some (fails (codes "Failed to create shared memory\n")))
  with_file (some shm_fd) = do
    sized ← returning (sys.ftruncate shm_fd shm_size)
    with_size shm_fd sized

  unfoldable pub main : M S (Option Exit)
  unfolding with_file
  main = do shm_fd ← returning (sys.shm_open shm_name); with_file shm_fd
