-- ===== src/Tests/Data.antt =====
-- A Prometheus with two series, the metadata that name it, and a clock that ticks once a second.
use Prim.Native.Char.{code}
use inference_platform.Prelude.{
  ℕ, ◌*◌, ◌+◌, ◌≡◌, refl, String, Bool, true, false, not, ◌&&◌, [], ◌∷◌, none, some, str_eq, ◌==◌,
  if◌then◌else◌, eq_iff, Bool-cases, inl, inr, arith,
}
use inference_platform.Prelude.Int.{pos}
use inference_platform.Config.{Metadata, default_queue_query}
use inference_platform.Go.Errors.{new, is_missing}
use inference_platform.Go.Float64.{Float64, fin, one_units}
use inference_platform.Go.Time.{Time, second}
use inference_platform.Metrics.Source.{Reply, World, Clock, Source}
use inference_platform.Metrics.Cache.{Group, cacheable}
use inference_platform.Metrics.Cache.Keys.{NoNul}
use inference_platform.Metrics.Cache.Given.{IsHonest}
use inference_platform.Metrics.Cache.Answers.{Answers}
use inference_platform.Scaler.{Env, ScaledObjectRef}

abbrev pub address : String
address = "http://prometheus:9090"

abbrev pub metadata : Metadata
metadata = ("prometheusAddress", address) ∷ []

abbrev pub object : ScaledObjectRef
object = record { name = "vllm"; namespace = "inference"; scaler_metadata = metadata }

abbrev pub at : ℕ → Time
at n = record { wall = pos (n * second); mono = some (pos (n * second)) }

abbrev pub ticking : Clock
ticking n = at n

abbrev pub no_group : Group
no_group n key = none

abbrev pub world : World
world = record { ticks = 0; requests = 0 }

-- The queue's value; 1 for any other query.
abbrev pub answer_with : Float64 → String → String → Reply
answer_with queue addr query =
    if str_eq addr address
    then if str_eq query default_queue_query
      then (record { value = queue; time = at 0 }, none)
      else (record { value = fin false one_units; time = at 0 }, none)
    else (record { value = fin false 0; time = at 0 }, some (new "no such host"))

abbrev pub answering : (String → String → Reply) → Source
answering f cancelled addr query w = (f addr query, record w { requests = w.requests + 1 })

abbrev pub env_of : (String → String → Reply) → Env
env_of f = record {
  clock = ticking;
  group = no_group;
  source = answering f;
  kv_first = λ n. false;
  cancels = λ n. true;
  machine = λ x. pos 0;
}

abbrev has_no_nul : String → Bool
has_no_nul String.[] = true
has_no_nul (String.◌∷◌ c s) = not (code c == 0) && has_no_nul s

no_nul : (s : String) → has_no_nul s ≡ true → NoNul s
no_nul String.[] h = tt
no_nul (String.◌∷◌ c s) h = (ground arith, no_nul s (ground arith))

pub address-NoNul : NoNul address
address-NoNul = no_nul address refl

address_only :
    (q : Float64) (addr query : String)
    → (NoNul addr → ⊥)
    → cacheable (answer_with q addr query).1 ≡ false
unfolding is_missing
address_only q addr query h = elim (Bool-cases (str_eq addr address)) [
  | inl e ↦
      (let same : addr ≡ address = (eq_iff addr address).0 e in absurd (h (rw same address-NoNul)))
  | inr e ↦ rw e refl
]

pub answers : (q : Float64) → Answers (answer_with q) no_group (answering (answer_with q))
answers q = record {
  backend = λ addr query w n. refl;
  cancelled = λ addr query w n. inl refl;
  unaddressed = λ x addr query w h. address_only q addr query h;
  shared = λ n addr query r h g. cc;
}

pub honest : (q : Float64) → IsHonest no_group (answering (answer_with q))
honest q = record {
  shared = λ n addr query r h g. cc;
  unaddressed = λ x addr query w h. address_only q addr query h;
}
