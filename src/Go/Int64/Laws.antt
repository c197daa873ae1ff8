-- ===== src/Go/Int64/Laws.antt =====
-- Where int64 arithmetic is exact, and that it never leaves the range.
use inference_platform.Prelude.{◌≡◌, arith}
use inference_platform.Prelude.Int.{ℤ, pos, negsuc}
use inference_platform.Go.Int64.{wrap64, Fits64}

pub wrap64_exact : (a : ℤ) → Fits64 a → wrap64 a ≡ a
unfolding wrap64
wrap64_exact (pos n) h = ground arith
wrap64_exact (negsuc n) h = ground arith

pub wrap64-Fits64 : (a : ℤ) → Fits64 (wrap64 a)
unfolding wrap64
wrap64-Fits64 (pos n) = ground arith
wrap64-Fits64 (negsuc n) = ground arith
