-- ===== src/Metrics/Source.antt =====
-- The `Source` interface of internal/metrics/metrics.go, and what a call reads of the world outside:
-- the clock and the network, each the answer to its n-th question.
use inference_platform.Prelude.{ℕ, ◌+◌, String, Bool, Option, false}
use inference_platform.Go.Errors.{Error}
use inference_platform.Go.Float64.{Float64, fin}
use inference_platform.Go.Time.{Time, zero_time}

pub record Sample : Type 0 where
  pub value : Float64
  pub time : Time

-- Sample{}
abbrev pub empty_sample : Sample
empty_sample = record { value = fin false 0; time = zero_time }

-- A Go function's (Sample, error).
abbrev pub Reply : Type 0
Reply = Sample × Option Error

-- How often the clock was read, and how often the network was asked.
pub record World : Type 0 where
  pub ticks : ℕ
  pub requests : ℕ

abbrev pub Clock : Type 0
Clock = ℕ → Time

-- time.Now()
abbrev pub time_now : Clock → World → Time × World
time_now clock w = (clock w.ticks, record w { ticks = w.ticks + 1 })

-- `Instant`, with whether its context is cancelled, the address and the query.
abbrev pub Source : Type 0
Source = Bool → String → String → World → Reply × World
