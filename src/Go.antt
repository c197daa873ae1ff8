-- ===== src/Go.antt =====
-- The Go language and its standard library, as far as the scaler uses them.
pub mod Int64
pub mod Float64
pub mod Text
pub mod Errors
pub mod Strconv
pub mod Time
