-- ===== src/Tests/Parsers.antt =====
-- The parsers on texts that the repository's tests and manifests use.
use inference_platform.Prelude.{◌≡◌, refl, false, true, ◌*◌, some, none}
use inference_platform.Prelude.Int.{pos, negsuc}
use inference_platform.Go.Float64.{
  fin, of_nat, to_int, mul, div, round_to, nan, inf, rounded, shift, round_even, one_units,
  limit_units,
}
use inference_platform.Go.Strconv.{parse_float, atoi}
use inference_platform.Go.Time.{parse_duration}

durations :
    (parse_duration "15s" ≡ some (pos 15000000000))
    × (parse_duration "1h15m30.918s" ≡ some (pos 4530918000000))
    × (parse_duration "-1.5h" ≡ some (negsuc 5399999999999))
    × (parse_duration "250ms" ≡ some (pos 250000000))
    × (parse_duration "µs" ≡ none)
    × (parse_duration "2µs" ≡ some (pos 2000))
    × (parse_duration "0" ≡ some (pos 0))
    × (parse_duration "3" ≡ none)
    × (parse_duration "not-a-duration" ≡ none)
unfolding parse_duration to_int mul div of_nat rounded round_even one_units shift limit_units
durations = (refl, refl, refl, refl, refl, refl, refl, refl, refl)

floats :
    (parse_float "0.7" ≡ some (round_to false (7 * one_units) 10))
    × (parse_float "1_000.5e-1" ≡ some (round_to false (10005 * one_units) 100))
    × (parse_float "0x1.8p1" ≡ some (fin false (3 * one_units)))
    × (parse_float "-Inf" ≡ some (inf true))
    × (parse_float "NaN" ≡ some nan)
    × (parse_float "1e400" ≡ none)
    × (parse_float "" ≡ none)
    × (parse_float "not-a-number" ≡ none)
unfolding parse_float rounded shift round_even one_units limit_units round_to
floats = (refl, refl, refl, refl, refl, refl, refl, refl)

integers :
    (atoi "3" ≡ some (pos 3))
    × (atoi "-1" ≡ some (negsuc 0))
    × (atoi "9223372036854775808" ≡ none)
    × (atoi "1_0" ≡ none)
    × (atoi "+" ≡ none)
unfolding atoi
integers = (refl, refl, refl, refl, refl)
