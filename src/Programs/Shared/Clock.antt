-- ===== src/Programs/Shared/Clock.antt =====
-- The clock of bench/bench_zeromq.cpp.
use natsclient_cpp.Base.{◌≡◌, ◌↔◌, ℕ, ◌+◌, ◌*◌, ◌<◌, ◌^◌, ◌⊎◌, some, arith}
use natsclient_cpp.Programs.Shared.{Timespec, nanos}

-- The order of the times that the system shows.
abbrev pub Before : Timespec → Timespec → Type 0
Before a b = (a.tv_sec < b.tv_sec) ⊎ ((a.tv_sec ≡ b.tv_sec) × (a.tv_nsec < b.tv_nsec))

-- For the first 9,223,372,036 seconds of the clock, which are 292 years, `nanos` is defined, below 2^63,
-- and later just when the system's time is later.
pub nanos-Before :
    (a b : Timespec)
    → (a.tv_sec < 9223372036) × (a.tv_nsec < 1000000000)
    → (b.tv_sec < 9223372036) × (b.tv_nsec < 1000000000)
    → (n : ℕ) × (m : ℕ) × (nanos a ≡ some n)
      × (nanos b ≡ some m)
      × (n < 2 ^ 63)
      × (m < 2 ^ 63)
      × (Before a b ↔ (n < m))
unfolding nanos
nanos-Before a b va vb = (
  a.tv_sec * 1000000000 + a.tv_nsec,
  b.tv_sec * 1000000000 + b.tv_nsec,
  ground arith,
  ground arith,
  omega arith,
  omega arith,
  (λ o. ground arith, λ l. ground arith),
)
