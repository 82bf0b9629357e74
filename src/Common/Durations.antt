-- ===== src/Common/Durations.antt =====
-- A `time.Duration`: a signed 64-bit number of nanoseconds.
use Prim.Native.Nat.{ℕ, zero, suc, ◌+◌, ◌-◌, ◌*◌, ◌/◌, ◌%◌, ◌^◌, ◌≤◌, ◌<◌}
use mathlib.Core.Path.{◌≡◌}
use native.Mathlib.Omega.{arith}
use poselink_api_middleware.Common.Int.{ℤ, pos, negsuc, to_int64}

-- 1 second in nanoseconds.
abbrev pub second : ℕ
second = 10 ^ 9

-- `time.Duration(seconds) * time.Second`, which wraps around.
unfoldable pub in_seconds : ℤ → ℤ
unfolding to_int64
in_seconds (pos n) = to_int64 (n * second)
in_seconds (negsuc n) = to_int64 (2 ^ 64 - suc n * second % 2 ^ 64)

-- `a + b`, which wraps around; `word` is the bit pattern of a number in range.
abbrev word : ℤ → ℕ
word (pos n) = n
word (negsuc n) = 2 ^ 64 - suc n

unfoldable pub add_int64 : ℤ → ℤ → ℤ
unfolding to_int64
add_int64 a b = to_int64 (word a + word b)

pub add_int64_fits : (a b : ℕ) → a + b < 2 ^ 63 → add_int64 (pos a) (pos b) ≡ pos (a + b)
unfolding add_int64
add_int64_fits a b h = ground arith

-- -n
abbrev minus : ℕ → ℤ
minus zero = pos 0
minus (suc n) = negsuc n

-- `int64(d.Seconds())`, towards zero. The floating-point number in between is exact for whole seconds, which
-- is what a TTL is, and for -1 and -2.
unfoldable pub whole_seconds : ℤ → ℤ
whole_seconds (pos n) = pos (n / second)
whole_seconds (negsuc n) = minus (suc n / second)

-- Up to this many seconds the product fits.
pub in_seconds_fits : (n : ℕ) → n ≤ 9_223_372_036 → in_seconds (pos n) ≡ pos (n * second)
unfolding in_seconds
in_seconds_fits n h = ground arith

-- For the next as many again it is negative.
pub in_seconds_wraps :
    (n : ℕ)
    → 9_223_372_037 ≤ n
    → n ≤ 18_446_744_073
    → in_seconds (pos n) ≡ negsuc (2 ^ 64 - 1 - n * second)
unfolding in_seconds
in_seconds_wraps n h k = ground arith

-- For the last of these, 15 seconds more wrap around a second time.
pub add_int64-in_seconds :
    (n : ℕ)
    → 18_446_744_059 ≤ n
    → n ≤ 18_446_744_073
    → add_int64 (in_seconds (pos n)) (pos (15 * second)) ≡ pos ((n + 15) * second - 2 ^ 64)
unfolding add_int64
add_int64-in_seconds n h k = rw (in_seconds_wraps n (omega arith) k) (ground arith)
