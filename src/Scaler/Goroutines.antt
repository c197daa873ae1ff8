-- ===== src/Scaler/Goroutines.antt =====
-- main.go with many handlers at once: the steps of the goroutines of all their rounds of queries, and
-- between them what the rest of the handlers does, which touches only the instruments.
pub mod Marks
pub mod Readiness
pub mod Rounds
use inference_platform.Prelude.{ℕ, ◌==◌, Bool, List, [], ◌∷◌, Option, if◌then◌else◌}
use inference_platform.Config.{Config}
use inference_platform.Observability.Instruments.{Metrics}
use inference_platform.Scaler.{Env, M, ◌>>=◌, ◌>>◌, pure, on_metrics}
use inference_platform.Scaler.Interleaved.{Round, at_begin, round_step}

pub data Occurrence : Type 0 where
  -- One goroutine of the round takes a step: that of the KV cache, or of the queue.
  turn : ℕ → Bool × Bool → Occurrence
  elsewhere : (Option Metrics → Option Metrics) → Occurrence

abbrev pub update : (ℕ → Round) → ℕ → Round → ℕ → Round
update f n r m = if n == m then r else f m

abbrev pub none_begun : ℕ → Round
none_begun n = at_begin

module _ (env : Env) where
  -- The rounds are numbered; each has the configuration of its handler.
  unfoldable pub happen : (ℕ → Config) → Occurrence → (ℕ → Round) → M (ℕ → Round)
  happen configs (turn n e) rounds = do
    r ← round_step env (configs n) e (rounds n)
    pure (update rounds n r)
  happen configs (elsewhere f) rounds = do on_metrics f; pure rounds

  unfoldable pub happen_all : (ℕ → Config) → List Occurrence → (ℕ → Round) → M (ℕ → Round)
  happen_all configs [] rounds = pure rounds
  happen_all configs (e ∷ es) rounds = do
    rounds' ← happen configs e rounds
    happen_all configs es rounds'
