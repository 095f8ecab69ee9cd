-- ===== src/Programs/Window/Averages.antt =====
-- What the benchmarks' lines are averages of.
use natsclient_cpp.Base.{
  ◌≡◌, zero, suc, ◌/◌, ℤ, pos, negsuc, ◌+ℤ◌, ◌-ℤ◌, quot, List, [], ◌∷◌, Text, length,
}
use natsclient_cpp.Programs.Window.{Stats, line}

-- The sum of the latencies, newest first.
abbrev pub total : List ℤ → ℤ
total [] = pos 0
total (latency ∷ l) = total l +ℤ latency

-- The statistics are those of the latencies `l`, and of no others.
abbrev pub Tracks : Stats → List ℤ → Type 0
Tracks stats l = (stats.counter ≡ length l) × (stats.latency_sum ≡ total l)

-- The whole seconds since the last line.
abbrev pub seconds : Stats → ℤ → ℤ
seconds stats time = quot (time -ℤ stats.last_time) 1000000000

abbrev pub Prints : Stats → List ℤ → ℤ → ℤ → Stats × List Text → Type 0
Prints stats l time (pos zero) out =
    (out.1 ≡ []) × Tracks out.0 l × (out.0.last_time ≡ stats.last_time)
Prints stats l time (pos (suc d)) out =
    (out.1 ≡ line (length l / suc d) (quot (total l) (length l)) ∷ [])
    × Tracks out.0 []
    × (out.0.last_time ≡ time)
Prints stats l time (negsuc d) out =
    (out.1 ≡ []) × Tracks out.0 l × (out.0.last_time ≡ stats.last_time)
