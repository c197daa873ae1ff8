-- ===== src/Go/Errors.antt =====
-- Error values: the sentinel `metrics.ErrMissing`, any other error with its text, and an error that
-- `fmt.Errorf` wraps with `%w`. The texts of two errors have numbers in them, which are kept apart:
-- `bad_status` is that of a response other than 200, `too_many_failures` that of a stream that ends.
use inference_platform.Prelude.{ℕ, String, Bool, true, false}
use inference_platform.Prelude.Int.{ℤ}

pub data Error : Type 0 where
  err_missing : Error
  new : String → Error
  bad_status : String → ℕ → Error
  wrap : String → Error → Error
  too_many_failures : String → String → ℤ → Error → Error

-- errors.Is(err, metrics.ErrMissing): along the chain of wrapped errors
unfoldable pub is_missing : Error → Bool
is_missing err_missing = true
is_missing (new s) = false
is_missing (bad_status addr n) = false
is_missing (wrap s e) = is_missing e
is_missing (too_many_failures namespace name n e) = is_missing e
