-- ===== src/Tests/Sharing.antt =====
-- `main` of bench/bench_zeromq.cpp on a small system.
use natsclient_cpp.Base.{
  ℕ, ◌+◌, ◌≡◌, ◌<◌, ◌^◌, ◌↔◌, refl, Bool, true, false, ◌&&◌, none, some, codes, arith, ltb, ◌==◌,
  if◌then◌else◌,
}
use natsclient_cpp.Nats.{Ptr, ok}
use natsclient_cpp.Programs.Shared.{System, Timespec, main, nanos, fails}
use natsclient_cpp.Programs.Shared.Clock.{Before, nanos-Before}
use natsclient_cpp.Tests.Schedules.{blocks}

-- Whether the name is there, the descriptors that are open, and the mappings: those below `next` that
-- are not removed.
record State : Type 0 where
  named : Bool
  is_open : ℕ → Bool
  next : ℕ
  maps : Ptr → Bool

abbrev mapped : Ptr → State → Bool
mapped p s = ltb p s.next && s.maps p

abbrev system : System State
system = record {
  shm_open = λ name s.
      (some 3, record s { named = true; is_open = λ fd. if fd == 3 then true else s.is_open fd });
  ftruncate = λ fd size s. (true, s);
  mmap = λ size fd s. (
    some s.next,
    record s { next = s.next + 1; maps = λ p. if p == s.next then true else s.maps p },
  );
  munmap = λ p size s. record s { maps = λ q. if q == p then false else s.maps q };
  shm_unlink = λ name s. record s { named = false };
}

-- A system where nothing can be mapped.
abbrev full_system : System State
full_system = record system { mmap = λ size fd s. (none, s) }

abbrev start : State
start = record { named = false; is_open = λ fd. false; next = 1; maps = λ p. false }

main_runs :
    main full_system 1 blocks 100 (true, false) (codes "bind") (codes "receive") start
    ≡ ok
        (some (fails (codes "Failed to map shared memory\n")))
        (system.shm_open (codes "x") start).1
unfolding main
main_runs = refl

abbrev early : Timespec
early = record { tv_sec = 7; tv_nsec = 999999999 }

abbrev late : Timespec
late = record { tv_sec = 8; tv_nsec = 0 }

nanos-Before_example :
    (n : ℕ) × (m : ℕ) × (nanos early ≡ some n)
    × (nanos late ≡ some m)
    × (n < 2 ^ 63)
    × (m < 2 ^ 63)
    × (Before early late ↔ (n < m))
nanos-Before_example = nanos-Before early late (omega arith, omega arith) (omega arith, omega arith)
