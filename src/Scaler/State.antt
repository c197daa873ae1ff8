-- ===== src/Scaler/State.antt =====
-- The scaler's state, and actions on it.
use inference_platform.Prelude.{ℕ, ◌+◌, Bool, Option, none, some}
use inference_platform.Prelude.Int.{ℤ}
use inference_platform.Go.Float64.{Float64}
use inference_platform.Go.Time.{Time}
use inference_platform.Metrics.Source.{Clock, Source, World, time_now}
use inference_platform.Metrics.Cache.{CachingSource, Group}
use inference_platform.Observability.Instruments.{Metrics}
use inference_platform.Observability.Health.{Health, record_success}

-- What the scaler meets: the clock, the other goroutines, the metric backend, which of the two
-- queries of a round ends first, whether its failure reaches the other query while that runs, and what
-- the machine gives for an `int64` out of range.
pub record Env : Type 0 where
  pub clock : Clock
  pub group : Group
  pub source : Source
  pub kv_first : ℕ → Bool
  pub cancels : ℕ → Bool
  pub machine : Float64 → ℤ

-- The struct `scaler`, with the rounds of queries so far.
pub record Scaler : Type 0 where
  pub cache : CachingSource
  pub metrics : Option Metrics
  pub health : Option Health
  pub rounds : ℕ

abbrev pub M : Type 0 → Type 0
M A = Scaler → A × Scaler

infixl 5 ◌>>=◌ ◌>>◌
abbrev pub ◌>>=◌ : {A B : Type 0} → M A → (A → M B) → M B
◌>>=◌ m f s = let (a, s') = m s in f a s'

abbrev pub ◌>>◌ : {A B : Type 0} → M A → M B → M B
m >> k = m >>= λ _. k

abbrev pub pure : {A : Type 0} → A → M A
pure a s = (a, s)

abbrev pub on_world : {A : Type 0} → (World → A × World) → M A
on_world f s =
    let (a, w) = f s.cache.world in (a, record s { cache = record s.cache { world = w } })

-- time.Now()
unfoldable pub tick : Env → M Time
tick env = on_world (time_now env.clock)

unfoldable pub get_cached : {A : Type 0} → (CachingSource → A × CachingSource) → M A
get_cached f s = let (a, c) = f s.cache in (a, record s { cache = c })

unfoldable pub on_metrics : (Option Metrics → Option Metrics) → M Unit
on_metrics f s = (tt, record s { metrics = f s.metrics })

-- s.health.RecordSuccess(): a nil `*Health` does not look at the clock.
abbrev pub success_at : Env → Option Health → M Unit
success_at env none s = (tt, s)
success_at env (some h) s =
    let (now, s') = tick env s in (tt, record s' { health = record_success now (some h) })

unfoldable pub success : Env → M Unit
unfolding tick
success env s = success_at env s.health s

-- Which of the two queries of this round ends first, and whether its failure cancels the other.
unfoldable pub next_round : Env → M (Bool × Bool)
next_round env s =
    ((env.kv_first s.rounds, env.cancels s.rounds), record s { rounds = s.rounds + 1 })
