-- ===== src/Observability/Server.antt =====
-- internal/observability/server.go: the routes of the HTTP server. What `promhttp` makes of a registry
-- on /metrics is that library's; here the answer has what the registry shows.
use inference_platform.Prelude.{
  ℕ, ◌*◌, ◌≡◌, refl, ◌↔◌, arith, String, Bool, true, false, Option, none, some, str_eq,
  if◌then◌else◌,
}
use inference_platform.Prelude.Int.{pos}
use inference_platform.Go.Time.{Time, Duration, second}
use inference_platform.Observability.Health.{Health, ready}
use inference_platform.Observability.Instruments.{Metrics, Exposed, registry}

pub data Response : Type 0 where
  text : ℕ → String → Response
  exposition : Option Exposed → Response
  not_found : Response

healthz : Response
healthz = text 200 "ok\n"

readyz : Bool → Response
readyz true = text 200 "ok\n"
readyz false = text 503 "prometheus has not answered successfully within the readiness window\n"

-- The mux of `NewServer`, for one request path at one time.
pub handle : Option Metrics → Option Health → Time → String → Response
unfolding healthz readyz
handle m h now path =
    if str_eq path "/healthz"
    then healthz
    else if str_eq path "/readyz"
    then readyz (ready now h)
    else if str_eq path "/metrics"
    then exposition (registry m)
    else not_found

pub record Server : Type 0 where
  pub addr : String
  pub read_header_timeout : Duration

pub new_server : String → Server
new_server addr = record { addr = addr; read_header_timeout = pos (5 * second) }

pub status : Response → Option ℕ
status (text n body) = some n
status (exposition shown) = none
status not_found = some 404

-- /readyz answers 200 exactly when the scaler is ready, /healthz answers 200 in any case, and /metrics
-- answers with the collectors and the calls of the scaler's own instruments.
pub probes :
    (m : Metrics) (h : Option Health) (now : Time)
    → ((status (handle (some m) h now "/readyz") ≡ some 200) ↔ (ready now h ≡ true))
      × (status (handle (some m) h now "/healthz") ≡ some 200)
      × (handle (some m) h now "/metrics" ≡ exposition (some (m.collectors, m.calls)))
unfolding handle status registry
probes m h now = (by_readiness (ready now h), refl, refl)
  where
    by_readiness : (b : Bool) → (status (readyz b) ≡ some 200) ↔ (b ≡ true)
    by_readiness true = ((λ e. refl), (λ e. refl))
    by_readiness false = ((λ e. absurd (ground arith)), (λ e. absurd (ground arith)))
