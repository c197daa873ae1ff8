-- ===== src/Go/Float64.antt =====
-- Go's float64: IEEE 754 binary64, rounding to nearest even, with the functions of `math` and the
-- conversions that the scaler uses. A finite double is a whole number of units of 2^-1074, the
-- least positive double, so it is kept as a sign and that number.
mod Defs
mod Rounding
pub mod Order
pub use Rounding.{rounded_mono, rounded_exact}
pub use Defs.{Float64, nan, inf, fin, precision}
unfoldable pub use Defs.{
  one_units, limit_units, shift, round_even, rounded, round_to, div, mul, add, gtb, max, round,
  of_nat, of_int, to_int, is_nan,
}
