-- ===== src/Stream/Backoff.antt =====
-- The waits between failed polls.
use inference_platform.Prelude.{ℕ, zero, suc, ◌*◌, ◌≤◌, ◌<◌, ◌≡◌, arith}
use inference_platform.Prelude.Int.{pos, ◌*ℤ◌, ◌<ℤ◌}
use inference_platform.Go.Int64.{wrap64}
use inference_platform.Stream.{next_stream_backoff}

-- How many poll intervals the wait after `k` failures in a row is.
abbrev pub multiplier : ℕ → ℕ
multiplier zero = 1
multiplier (suc zero) = 2
multiplier (suc (suc zero)) = 4
multiplier (suc (suc (suc k))) = 8

-- As long as 16 intervals fit an int64, the backoff after some failures in a row becomes the one
-- after one failure more: each doubles the wait, up to 8 intervals, with no overflow.
pub next_stream_backoff_exact :
    (b k : ℕ)
    → 16 * b ≤ 9223372036854775807
    → next_stream_backoff (pos (multiplier k * b)) (pos b) ≡ pos (multiplier (suc k) * b)
unfolding next_stream_backoff wrap64 ◌*ℤ◌
next_stream_backoff_exact b zero h = ground arith
next_stream_backoff_exact b (suc zero) h = ground arith
next_stream_backoff_exact b (suc (suc zero)) h = ground arith
next_stream_backoff_exact b (suc (suc (suc k))) h = ground arith

-- With a poll interval from 2^60 nanoseconds, about 36 and a half years, to below twice that, the
-- wait after the first failure is negative.
pub next_stream_backoff_overflow :
    (b : ℕ)
    → 1152921504606846976 ≤ b
    → b < 2305843009213693952
    → next_stream_backoff (pos b) (pos b) <ℤ pos 0
unfolding next_stream_backoff wrap64 ◌*ℤ◌
next_stream_backoff_overflow b h k = ground arith
