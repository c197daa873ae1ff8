-- ===== src/Go/Time/Laws.antt =====
-- Comparing instants that durations were added to.
use inference_platform.Prelude.{◌≡◌, arith, Option, some, none}
use inference_platform.Prelude.Int.{ℤ, pos, ◌+ℤ◌, ◌-ℤ◌, ◌≤ℤ◌, int_laws, ltb_ℤ}
use inference_platform.Go.Int64.{Fits64}
use inference_platform.Go.Time.{
  Time, Duration, difference, sub, after, add_duration, monotonic, shift_mono, saturate,
}

sub-add : (a b d : ℤ) → a -ℤ (b +ℤ d) ≡ a -ℤ b -ℤ d
sub-add a b d = omega int_laws

monotonic-shift :
    (a b : Option ℤ) (x y d : ℤ) → monotonic a (shift_mono b d) x (y +ℤ d) ≡ monotonic a b x y -ℤ d
monotonic-shift (some a) (some b) x y d = sub-add a b d
monotonic-shift (some a) none x y d = sub-add x y d
monotonic-shift none (some b) x y d = sub-add x y d
monotonic-shift none none x y d = sub-add x y d

-- An instant to which `d` was added is `d` less behind.
pub difference-add_duration :
    (u t : Time) (d : Duration) → difference u (add_duration t d) ≡ difference u t -ℤ d
unfolding difference add_duration
difference-add_duration u t d = monotonic-shift u.mono t.mono u.wall t.wall d

difference-pos : (x d : ℤ) → ltb_ℤ (pos 0) (x -ℤ d) ≡ ltb_ℤ d x
unfolding ◌-ℤ◌
difference-pos x d = ground arith

-- An instant is after `t` plus `d` exactly when more than `d` has passed since `t`.
pub after-add_duration :
    (u t : Time) (d : Duration) → after u (add_duration t d) ≡ ltb_ℤ d (difference u t)
unfolding after
after-add_duration u t d = rw difference-add_duration (difference-pos (difference u t) d)

pub saturate-Fits64 : (d : ℤ) → Fits64 (saturate d)
saturate-Fits64 d = ground arith

pub sub-Fits64 : (t u : Time) → Fits64 (sub t u)
unfolding sub
sub-Fits64 t u = saturate-Fits64 (difference t u)

-- Saturation does not change whether less than a window, which is not negative, has passed.
pub ltb-saturate : (d w : ℤ) → Fits64 w → pos 0 ≤ℤ w → ltb_ℤ (saturate d) w ≡ ltb_ℤ d w
ltb-saturate d w f h = ground arith
