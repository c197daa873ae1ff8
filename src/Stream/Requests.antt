-- ===== src/Stream/Requests.antt =====
-- The polls of a stream in the counter of gRPC requests.
use inference_platform.Prelude.{
  ℕ, ◌+◌, ◌≡◌, ◌∙◌, refl, String, Bool, List, ◌∷◌, Option, some, arith, str_eq, if◌then◌else◌,
}
use inference_platform.Config.{Config, parse}
use inference_platform.Go.Errors.{Error}
use inference_platform.Go.Float64.{gtb}
use inference_platform.Observability.Instruments.{
  Metrics, Call, observe_duration, inc_query_error, set_saturation, set_signal_age,
  inc_grpc_request, inc_stream_error, increment_stream_error, increment_grpc_request,
}
use inference_platform.Observability.Instruments.Values.{grpc_requests}
use inference_platform.Scaler.{Env, Scaler, on_metrics, ScaledObjectRef, Result, ok, err, is_active}
use inference_platform.Scaler.Keeps.{IsKeptWith, OfAnswer, on_config-Keeps}
use inference_platform.Stream.{fired, Loop, react, iteration}

-- The scaler has instruments, and they have counted `n` requests of the method.
abbrev pub HasRequested : String → ℕ → Scaler → Type 0
HasRequested method n s = (m : Metrics) × (s.metrics ≡ some m) × (grpc_requests method m.calls ≡ n)

module _ (env : Env) (method : String) where
  answer_call :
      (c : Call) (cs : List Call)
      → OfAnswer c
      → grpc_requests method (c ∷ cs) ≡ grpc_requests method cs
  unfolding grpc_requests
  answer_call (observe_duration d v) cs h = refl
  answer_call (inc_query_error d) cs h = refl
  answer_call (set_saturation n o v) cs h = refl
  answer_call (set_signal_age n o d v) cs h = refl
  answer_call (inc_grpc_request m) cs h = absurd h
  answer_call inc_stream_error cs h = absurd h

  HasRequested-IsKeptWith : (n : ℕ) → IsKeptWith env OfAnswer (HasRequested method n)
  HasRequested-IsKeptWith n = record {
    moved = λ s w h. h;
    got = λ x addr query ttl s h. h;
    counted = λ c s q (m, e, same).
        (record m { calls = c ∷ m.calls }, rw e refl, answer_call c m.calls q ∙ same);
    seen = λ t s h. h;
    advanced = λ s h. h;
  }

  -- What one call of `IsActive` adds to the counter of a method.
  abbrev pub own_request : ℕ
  own_request = if str_eq "IsActive" method then 1 else 0

  is_active-HasRequested :
      (x : Bool) (ref : ScaledObjectRef) (n : ℕ) (s : Scaler)
      → HasRequested method n s
      → HasRequested method (own_request + n) (is_active env x ref s).1
  unfolding is_active on_metrics increment_grpc_request grpc_requests
  is_active-HasRequested x ref n s (m, e, same) =
      on_config-Keeps (HasRequested-IsKeptWith (own_request + n)) ref
        (λ c res. gtb res.score c.activation) x (parse ref.scaler_metadata) _
        (rw e (_, refl, omega (arith, same)))

  module _ (ref : ScaledObjectRef) (c : Config) (l : Loop) (send : Option Error) where
    react-HasRequested :
        (n : ℕ) (r : Result Bool) (s : Scaler)
        → HasRequested method n s
        → HasRequested method n (react ref c send l r s).1
    unfolding react on_metrics increment_stream_error grpc_requests
    react-HasRequested n (ok active) s h = h
    react-HasRequested n (err e) s (m, p, same) = rw p (_, refl, same)

    -- When the timer of a stream fires, in a scaler with instruments, the request counter of
    -- `IsActive` goes up by one, whatever the poll gives, as it does for a call from outside; that
    -- of every other method stays.
    pub iteration-HasRequested :
        (x : Bool) (n : ℕ) (s : Scaler)
        → HasRequested method n s
        → HasRequested method (own_request + n) (iteration env ref c l (fired x send) s).1
    unfolding iteration
    iteration-HasRequested x n s h = react-HasRequested _ _ _ (is_active-HasRequested x ref n s h)
