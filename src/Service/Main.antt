-- ===== src/Service/Main.antt =====
-- main.go: `main` from its start to its end, with the lines that it logs and its exit.
pub mod Ends
use inference_platform.Prelude.{
  ℕ, ◌≡◌, refl, ap, String, Bool, true, false, ◌||◌, List, [], ◌∷◌, ◌++◌, Option, none, some,
  str_eq, if◌then◌else◌,
}
use inference_platform.Config.{Metadata, at_key}
use inference_platform.Go.Errors.{Error}
use inference_platform.Go.Time.{Duration, parse_duration}
use inference_platform.Metrics.Source.{World}
use inference_platform.Scaler.{
  Env, Scaler, ScaledObjectRef, Result, is_active, get_metric_spec, get_metrics,
}
use inference_platform.Stream.{Event, stream_is_active}
use inference_platform.Service.{
  settings, Process, launch, Reachable, started, called, is_active_called, get_metric_spec_called,
  get_metrics_called, stream_is_active_called,
}

-- A call of the service, as grpc hands it to the scaler.
pub data Request : Type 0 where
  is_active_request : Bool → ScaledObjectRef → Request
  get_metric_spec_request : Request
  get_metrics_request : Bool → Option ScaledObjectRef → Request
  stream_request : ScaledObjectRef → List Event → Request

abbrev answered : {A : Type 0} → Option A × Scaler → Option Scaler
answered (none, s) = none
answered (some a, s) = some s

-- `none` is the end of the process: a panic of a handler that nothing recovers. grpc gives IsActive
-- and StreamIsActive a reference that is not nil, and the only pointer in a request that may be nil
-- is the ScaledObject of GetMetrics.
unfoldable pub serve_one : Env → Request → Scaler → Option Scaler
serve_one env (is_active_request x ref) s = some (is_active env x ref s).1
serve_one env get_metric_spec_request s = some (get_metric_spec env s).1
serve_one env (get_metrics_request x ref) s = answered (get_metrics env x ref s)
serve_one env (stream_request ref evs) s = some (stream_is_active env ref evs s).1

abbrev and_then : (Scaler → Option Scaler) → Option Scaler → Option Scaler
and_then f none = none
and_then f (some s) = f s

unfoldable pub serve_all : Env → List Request → Scaler → Option Scaler
serve_all env [] s = some s
serve_all env (r ∷ rs) s = and_then (serve_all env rs) (serve_one env r s)

-- A server's loop: it goes on, or it has returned.
pub data Served : Type 0 where
  serving : Served
  stopped : Option Error → Served

-- What `main` meets: the clock and the network, the environment variables, what `net.Listen` gives,
-- the calls, what the loops of both servers return, and which errors are http.ErrServerClosed.
pub record Outside : Type 0 where
  pub env : Env
  pub vars : Metadata
  pub listen_error : Option Error
  pub requests : List Request
  pub served : Served
  pub http_served : Served
  pub is_server_closed : Error → Bool

pub data Line : Type 0 where
  ready_window_ignored : String → Line
  listen_failed : String → Error → Line
  observability_listening : String → Line
  observability_failed : Error → Line
  scaler_listening : String → Line
  serve_failed : Error → Line

pub data Exit : Type 0 where
  running : Exit
  returned : Exit
  exited : ℕ → Exit
  panicked : Exit

-- `http_lines` are those of the goroutine of the HTTP server.
pub record Run : Type 0 where
  pub exit : Exit
  pub lines : List Line
  pub http_lines : List Line
  pub scaler : Option Scaler

abbrev ignored_unless : String → Option Duration → List Line
ignored_unless v none = ready_window_ignored v ∷ []
ignored_unless v (some d) = []

unfoldable pub window_lines : Metadata → List Line
window_lines vars =
    let v = at_key vars "READY_WINDOW" in
    if str_eq v "" then [] else ignored_unless v (parse_duration v)

unfoldable pub listen_lines : String → Option Error → List Line
listen_lines addr none = []
listen_lines addr (some e) = listen_failed addr e ∷ []

abbrev failed_unless : Bool → Error → List Line
failed_unless closed e = if closed then [] else observability_failed e ∷ []

unfoldable pub http_goroutine : (Error → Bool) → String → Served → List Line
http_goroutine is_closed addr serving = observability_listening addr ∷ []
http_goroutine is_closed addr (stopped none) = observability_listening addr ∷ []
http_goroutine is_closed addr (stopped (some e)) =
    observability_listening addr ∷ failed_unless (is_closed e) e

unfoldable pub serve_lines : Served → List Line
serve_lines serving = []
serve_lines (stopped none) = []
serve_lines (stopped (some e)) = serve_failed e ∷ []

abbrev pub exit_of : Served → Exit
exit_of serving = running
exit_of (stopped none) = returned
exit_of (stopped (some e)) = exited 1

module _ (o : Outside) where
  unfoldable pub after_serving : Process → Option Scaler → Run
  after_serving p none = record {
    exit = panicked;
    lines = window_lines o.vars ++ scaler_listening p.listening_on ∷ [];
    http_lines = http_goroutine o.is_server_closed p.http_server.addr o.http_served;
    scaler = none;
  }
  after_serving p (some s) = record {
    exit = exit_of o.served;
    lines = window_lines o.vars ++ scaler_listening p.listening_on ∷ serve_lines o.served;
    http_lines = http_goroutine o.is_server_closed p.http_server.addr o.http_served;
    scaler = some s;
  }

  unfoldable pub after_launch : Option Process → Run
  after_launch none = record {
    exit = exited 1;
    lines = window_lines o.vars ++ listen_lines (settings o.vars).addr o.listen_error;
    http_lines = [];
    scaler = none;
  }
  after_launch (some p) = after_serving p (serve_all o.env o.requests p.scaler)

  unfoldable pub run_main : World → Run
  run_main w = after_launch (launch o.env.clock o.vars o.listen_error w)
