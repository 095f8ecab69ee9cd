-- ===== src/Programs/Window.antt =====
-- The statistics that the benchmarks print once a second: bench/bench_lat_pub_sub.cpp and
-- bench/bench_zeromq.cpp have the same statements. A time point is a number of nanoseconds.
pub mod Averages
use natsclient_cpp.Base.{
  ℕ, zero, suc, ◌+◌, ◌/◌, ℤ, pos, negsuc, ◌+ℤ◌, ◌-ℤ◌, quot, List, [], ◌∷◌, ◌++◌, Text, codes,
  decimal, decimal_int,
}

pub record Stats : Type 0 where
  pub counter : ℕ
  pub latency_sum : ℤ
  pub last_time : ℤ

abbrev pub begin : ℤ → Stats
begin now = record { counter = 0; latency_sum = pos 0; last_time = now }

-- `"{} msgs/s, avg. latency {} ns\n"`
unfoldable pub line : ℕ → ℤ → Text
unfolding decimal decimal_int
line throughput avg_latency =
    decimal throughput
    ++ (codes " msgs/s, avg. latency " ++ (decimal_int avg_latency ++ codes " ns\n"))

-- `if (duration >= 1)`, with the whole seconds since `last_time`.
unfoldable pub report : Stats → ℤ → ℤ → Stats × List Text
report stats time (pos zero) = (stats, [])
report stats time (pos (suc d)) =
    (begin time, line (stats.counter / suc d) (quot stats.latency_sum stats.counter) ∷ [])
report stats time (negsuc d) = (stats, [])

-- `++counter;` and what follows, up to the end of the loop's body.
unfoldable pub account : Stats → ℤ → ℤ → Stats × List Text
unfolding report
account stats latency time =
    report
      (record stats { counter = stats.counter + 1; latency_sum = stats.latency_sum +ℤ latency })
      time (quot (time -ℤ stats.last_time) 1000000000)
