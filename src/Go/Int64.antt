-- ===== src/Go/Int64.antt =====
-- Go's int64 (and int, which is 64 bits wide on the platforms the scaler is built for): an integer
-- in two's complement, whose arithmetic wraps.
pub mod Laws
use inference_platform.Prelude.{ℕ, ◌-◌, ◌%◌, ◌^◌, ltb, if◌then◌else◌}
use inference_platform.Prelude.Int.{ℤ, pos, negsuc, ◌+ℤ◌, ◌-ℤ◌, ◌*ℤ◌, ◌≤ℤ◌}

abbrev pub max_int64 : ℤ
max_int64 = pos 9223372036854775807

-- -2^63
abbrev pub min_int64 : ℤ
min_int64 = negsuc 9223372036854775807

-- The number that the low 64 bits stand for.
abbrev pub of_bits : ℕ → ℤ
of_bits r = if ltb r 9223372036854775808 then pos r else negsuc (18446744073709551615 - r)

unfoldable pub wrap64 : ℤ → ℤ
wrap64 (pos n) = of_bits (n % 18446744073709551616)
wrap64 (negsuc n) = of_bits (18446744073709551615 - n % 18446744073709551616)

unfoldable pub add64 : ℤ → ℤ → ℤ
add64 a b = wrap64 (a +ℤ b)

unfoldable pub sub64 : ℤ → ℤ → ℤ
sub64 a b = wrap64 (a -ℤ b)

unfoldable pub mul64 : ℤ → ℤ → ℤ
mul64 a b = wrap64 (a *ℤ b)

pub record Fits64 (a : ℤ) : Type 0 where
  pub below : a ≤ℤ max_int64
  pub above : min_int64 ≤ℤ a
