-- ===== src/Observability/Health.antt =====
-- internal/observability/health.go: whether Prometheus has answered lately. A nil `*Health` is
-- `none`.
use inference_platform.Prelude.{◌≡◌, Bool, true, false, Option, none, some, if◌then◌else◌}
use inference_platform.Prelude.Int.{pos, ltb_ℤ, ◌≤ℤ◌}
use inference_platform.Go.Int64.{Fits64}
use inference_platform.Go.Time.{Time, Duration, zero_time, sub, difference}
use inference_platform.Go.Time.Laws.{ltb-saturate}

pub record Health : Type 0 where
  pub window : Duration
  pub started_at : Time
  pub last_ok : Time
  pub has_ok : Bool

unfoldable pub new_health : Duration → Time → Health
new_health window now = record {
  window = window;
  started_at = now;
  last_ok = zero_time;
  has_ok = false;
}

unfoldable pub record_success : Time → Option Health → Option Health
record_success now none = none
record_success now (some h) = some (record h { last_ok = now; has_ok = true })

unfoldable pub ready : Time → Option Health → Bool
ready now none = true
ready now (some h) =
    if h.has_ok then ltb_ℤ (sub now h.last_ok) h.window else ltb_ℤ (sub now h.started_at) h.window

module _ (window : Duration) (start now : Time) (fits : Fits64 window)
    (sign : pos 0 ≤ℤ window) where
  -- Before any success, with a window that fits an int64 and is not negative, a scaler is ready
  -- exactly while it is younger than the window.
  pub ready-new_health :
      ready now (some (new_health window start)) ≡ ltb_ℤ (difference now start) window
  unfolding ready new_health sub
  ready-new_health = ltb-saturate (difference now start) window fits sign

-- After a success at the time `at`, with a window that fits an int64 and is not negative, a scaler
-- is ready exactly while less than the window has passed since.
pub ready-record_success :
    (h : Health) (at now : Time)
    → Fits64 h.window
    → pos 0 ≤ℤ h.window
    → ready now (record_success at (some h)) ≡ ltb_ℤ (difference now at) h.window
unfolding ready record_success sub
ready-record_success h at now fits sign = ltb-saturate (difference now at) h.window fits sign
