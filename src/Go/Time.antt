-- ===== src/Go/Time.antt =====
-- Package time: instants, durations and the parser of durations. A duration is an int64 number of
-- nanoseconds.
pub mod Laws
mod Parse
pub use Parse.{parse_duration-Fits64}
unfoldable pub use Parse.{parse_duration}
use inference_platform.Prelude.{ℕ, suc, ◌*◌, ◌/◌, ◌%◌, Bool, Option, none, some, if◌then◌else◌}
use inference_platform.Prelude.Int.{ℤ, pos, negsuc, ◌+ℤ◌, ◌-ℤ◌, ltb_ℤ, sub_ℕ}
use inference_platform.Go.Int64.{max_int64, min_int64}
use inference_platform.Go.Float64.{Float64, add, div, of_int}

abbrev pub Duration : Type 0
Duration = ℤ

-- The wall clock's nanoseconds since 1970, and the reading of the monotonic clock that `time.Now`
-- adds. `time.Unix` and the zero value have none.
pub record Time : Type 0 where
  pub wall : ℤ
  pub mono : Option ℤ

-- January 1 of year 1, time.Time{}
abbrev pub zero_time : Time
zero_time = record { wall = negsuc 62135596799999999999; mono = none }

-- time.Unix(0, ns)
unfoldable pub unix_nano : ℤ → Time
unix_nano ns = record { wall = ns; mono = none }

-- How far `t` is after `u`: by the monotonic clock if both have a reading of it.
abbrev monotonic : Option ℤ → Option ℤ → ℤ → ℤ → ℤ
monotonic (some a) (some b) wall_a wall_b = a -ℤ b
monotonic (some a) none wall_a wall_b = wall_a -ℤ wall_b
monotonic none b wall_a wall_b = wall_a -ℤ wall_b

unfoldable pub difference : Time → Time → ℤ
difference t u = monotonic t.mono u.mono t.wall u.wall

abbrev pub saturate : ℤ → Duration
saturate d = if ltb_ℤ max_int64 d then max_int64 else if ltb_ℤ d min_int64 then min_int64 else d

-- t.Sub(u); time.Since(u) is the current time's Sub
unfoldable pub sub : Time → Time → Duration
sub t u = saturate (difference t u)

-- t.After(u)
unfoldable pub after : Time → Time → Bool
after t u = ltb_ℤ (pos 0) (difference t u)

abbrev shift_mono : Option ℤ → Duration → Option ℤ
shift_mono none d = none
shift_mono (some m) d = some (m +ℤ d)

-- t.Add(d)
unfoldable pub add_duration : Time → Duration → Time
add_duration t d = record { wall = t.wall +ℤ d; mono = shift_mono t.mono d }

abbrev pub second : ℕ
second = 1000000000

abbrev quotient : ℤ → ℤ
quotient (pos n) = pos (n / second)
quotient (negsuc n) = sub_ℕ 0 (suc n / second)

abbrev remainder : ℤ → ℤ
remainder (pos n) = pos (n % second)
remainder (negsuc n) = sub_ℕ 0 (suc n % second)

-- d.Seconds()
unfoldable pub seconds : Duration → Float64
seconds d = add (of_int (quotient d)) (div (of_int (remainder d)) (of_int (pos second)))
