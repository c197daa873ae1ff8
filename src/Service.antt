-- ===== src/Service.antt =====
-- main.go: the start of the process, and the calls that its gRPC server makes.
pub mod Reached
pub mod Main
use inference_platform.Prelude.{ℕ, ◌+◌, ◌*◌, String, Bool, List, Option, none, some}
use inference_platform.Prelude.Int.{pos}
use inference_platform.Config.{Metadata, at_key, duration_or, string_or}
use inference_platform.Go.Errors.{Error}
use inference_platform.Go.Time.{Duration, second}
use inference_platform.Metrics.Source.{Clock, World, time_now}
use inference_platform.Metrics.Cache.{new_caching_source}
use inference_platform.Observability.Instruments.{new_metrics}
use inference_platform.Observability.Health.{new_health}
use inference_platform.Observability.Server.{Server, new_server}
use inference_platform.Scaler.{
  Env, Scaler, ScaledObjectRef, is_active, get_metric_spec, get_metrics,
}
use inference_platform.Stream.{Event, stream_is_active}

abbrev pub new_scaler : World → Scaler
new_scaler w = record { cache = new_caching_source w; metrics = none; health = none; rounds = 0 }

abbrev pub default_ready_window : Duration
default_ready_window = pos (2 * 60 * second)

pub record Settings : Type 0 where
  pub addr : String
  pub http_addr : String
  pub ready_window : Duration

-- The environment variables, by name; one that is not set reads as empty.
unfoldable pub settings : Metadata → Settings
settings vars = record {
  addr = string_or (at_key vars "LISTEN_ADDR") ":6000";
  http_addr = string_or (at_key vars "HTTP_ADDR") ":8080";
  ready_window = duration_or (at_key vars "READY_WINDOW") default_ready_window;
}

pub record Process : Type 0 where
  pub listening_on : String
  pub http_server : Server
  pub scaler : Scaler

-- `main` up to `srv.Serve`, with what `net.Listen` gives; `none` is its exit.
unfoldable pub launch : Clock → Metadata → Option Error → World → Option Process
unfolding settings
launch clock vars (some e) w = none
launch clock vars none w =
    let set = settings vars in
    let (now, w') = time_now clock w in
    some (record {
      listening_on = set.addr;
      http_server = new_server set.http_addr;
      scaler = record (new_scaler w') {
        metrics = some new_metrics;
        health = some (new_health set.ready_window now);
      };
    })

-- One call of the service, from its start to its end.
pub data Step (env : Env) : Scaler → Scaler → Type 0 where
  is_active_called :
      (cancelled : Bool) (ref : ScaledObjectRef) (s : Scaler)
      → Step env s (is_active env cancelled ref s).1
  get_metric_spec_called : (s : Scaler) → Step env s (get_metric_spec env s).1
  get_metrics_called :
      (cancelled : Bool) (ref : ScaledObjectRef) (s : Scaler)
      → Step env s (get_metrics env cancelled (some ref) s).1
  stream_is_active_called :
      (ref : ScaledObjectRef) (evs : List Event) (s : Scaler)
      → Step env s (stream_is_active env ref evs s).1

-- The states that some calls lead to.
pub data Reachable (env : Env) (start : Scaler) : Scaler → Type 0 where
  started : Reachable env start start
  called : {s s' : Scaler} → Reachable env start s → Step env s s' → Reachable env start s'
