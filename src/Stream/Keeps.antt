-- ===== src/Stream/Keeps.antt =====
-- What every method keeps, `StreamIsActive` keeps.
use inference_platform.Prelude.{Bool, List, [], ◌∷◌, Option, none, some}
use inference_platform.Config.{Config}
use inference_platform.Go.Errors.{Error}
use inference_platform.Observability.Instruments.{
  inc_grpc_request, inc_stream_error, called, increment_grpc_request, increment_stream_error,
}
use inference_platform.Scaler.{Env, Scaler, M, on_metrics, ScaledObjectRef, Result, ok, err}
use inference_platform.Scaler.Keeps.{IsKept, Keeps, is_active-Keeps}
use inference_platform.Stream.{
  Event, done, fired, Loop, Return, react, iteration, go_on, loop, with_config, stream_is_active,
}

-- `P` survives the stream's own counter too.
pub record IsKeptByStreams (env : Env) (P : Scaler → Type 0) : Type 0 where
  pub unary : IsKept env P
  pub failed : (s : Scaler) → P s → P (record s { metrics = called inc_stream_error s.metrics })

module _ {env : Env} {P : Scaler → Type 0} (k : IsKeptByStreams env P) (ref : ScaledObjectRef) where
  react-Keeps :
      (c : Config) (send : Option Error) (l : Loop) (r : Result Bool)
      → Keeps P (react ref c send l r)
  unfolding react on_metrics increment_stream_error
  react-Keeps c send l (ok active) s h = h
  react-Keeps c send l (err e) s h = k.failed s h

  iteration-Keeps : (c : Config) (l : Loop) (ev : Event) → Keeps P (iteration env ref c l ev)
  unfolding iteration
  iteration-Keeps c l done s h = h
  iteration-Keeps c l (fired x send) s h =
      react-Keeps c send l _ _ (is_active-Keeps k.unary x ref s h)

  go_on-Keeps :
      (rest : Loop → M (Loop × Return)) (lr : Loop × Return)
      → ((l : Loop) → Keeps P (rest l))
      → Keeps P (go_on env rest lr)
  go_on-Keeps rest (l, some r) f s h = h
  go_on-Keeps rest (l, none) f s h = f l s h

  loop-Keeps : (c : Config) (evs : List Event) (l : Loop) → Keeps P (loop env ref c evs l)
  unfolding loop
  loop-Keeps c [] l s h = h
  loop-Keeps c (ev ∷ evs) l s h =
      go_on-Keeps (loop env ref c evs) _ (loop-Keeps c evs) _ (iteration-Keeps c l ev s h)

  with_config-Keeps :
      (evs : List Event) (p : Config × Option Error) → Keeps P (with_config env ref evs p)
  with_config-Keeps evs (c, some e) s h = h
  with_config-Keeps evs (c, none) s h = loop-Keeps c evs _ s h

  pub stream_is_active-Keeps : (evs : List Event) → Keeps P (stream_is_active env ref evs)
  unfolding stream_is_active on_metrics increment_grpc_request
  stream_is_active-Keeps evs s h =
      with_config-Keeps evs _ _ (k.unary.counted (inc_grpc_request "StreamIsActive") s (λ e. cc) h)
