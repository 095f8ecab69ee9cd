-- ===== src/Programs/Latency/Bytes.antt =====
-- The time stamp that bench/bench_lat_pub_sub.cpp sends is the one that it receives.
use native.Mathlib.Nat.{pow-suc}
use natsclient_cpp.Base.{
  ◌≡◌, ap, ◌∙◌, false, ltb, ℕ, zero, suc, ◌<◌, ◌/◌, ◌^◌, ℤ, pos, negsuc, some, ◌++◌, Text, length,
  arith,
}
use natsclient_cpp.Programs.Latency.{word, int64_of_word, bytes_of, number_of, read_int64}

abbrev pub IsInt64 : ℤ → Type 0
IsInt64 (pos n) = n < 2 ^ 63
IsInt64 (negsuc n) = n < 2 ^ 63

int64_of_word-word : (z : ℤ) → IsInt64 z → int64_of_word (word z) ≡ z
int64_of_word-word (pos n) h = ground arith
int64_of_word-word (negsuc n) h = ground arith

number_of-bytes_of : (k n : ℕ) → n < 256 ^ k → number_of (bytes_of k n) ≡ n
number_of-bytes_of zero n h = omega arith
number_of-bytes_of (suc k) n h =
    omega (arith, number_of-bytes_of k (n / 256) (omega (arith, pow-suc 256 k)))

word-bound : (z : ℤ) → word z < 256 ^ 8
word-bound (pos n) = omega arith
word-bound (negsuc n) = omega arith

pub read-int64_bytes :
    (z : ℤ) (more : Text) → IsInt64 z → read_int64 (some (bytes_of 8 (word z) ++ more)) ≡ some z
unfolding read_int64
read-int64_bytes z more h = rw long (
    ap some
      (ap int64_of_word (number_of-bytes_of 8 (word z) (word-bound z)) ∙ int64_of_word-word z h))
  where
    long : ltb (length (bytes_of 8 (word z) ++ more)) 8 ≡ false
    long = ground arith
