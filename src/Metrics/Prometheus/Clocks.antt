-- ===== src/Metrics/Prometheus/Clocks.antt =====
-- The Prometheus source only reads the clock.
use inference_platform.Prelude.{
  ◌+◌, ◌≤◌, String, Bool, List, [], ◌∷◌, Option, none, some, arith, ◌==◌, Bool-cases, inl, inr,
}
use inference_platform.Go.Errors.{Error}
use inference_platform.Go.Float64.{Float64}
use inference_platform.Go.Strconv.{parse_float}
use inference_platform.Metrics.Source.{World, Clock}
use inference_platform.Metrics.Cache.Forward.{IsForward}
use inference_platform.Metrics.Prometheus.Decode.{Json, null, boolean, number, text, array, object}
use inference_platform.Metrics.Prometheus.{
  HttpClient, HttpResult, failed, response, parsed_value, first_series, from_series, decoded,
  from_http, sent, instant,
}

module _ (clock : Clock) (client : HttpClient) where
  parsed_value_later :
      (stamp : Json) (v : Option Float64) (w : World)
      → w.ticks ≤ (parsed_value clock client stamp v w).1.ticks
  unfolding parsed_value
  parsed_value_later stamp none w = omega arith
  parsed_value_later stamp (some v) w = omega arith

  first_series_later :
      (stamp value : Json) (w : World) → w.ticks ≤ (first_series clock client stamp value w).1.ticks
  unfolding first_series
  first_series_later stamp (text s) w = parsed_value_later stamp (parse_float s) w
  first_series_later stamp null w = omega arith
  first_series_later stamp (boolean b) w = omega arith
  first_series_later stamp (number x) w = omega arith
  first_series_later stamp (array items) w = omega arith
  first_series_later stamp (object fields) w = omega arith

  from_series_later :
      (r : Option (List (Json × Json))) (w : World)
      → w.ticks ≤ (from_series clock client r w).1.ticks
  unfolding from_series
  from_series_later none w = omega arith
  from_series_later (some []) w = omega arith
  from_series_later (some ((stamp, value) ∷ more)) w = first_series_later stamp value w

  from_http_later :
      (addr : String) (r : HttpResult) (w : World)
      → w.ticks ≤ (from_http clock client addr r w).1.ticks
  unfolding from_http
  from_http_later addr (failed e) w = omega arith
  from_http_later addr (response status body) w = elim (Bool-cases (status == 200)) [
    | inl e ↦ rw e (from_series_later (decoded body) w)
    | inr e ↦ rw e (omega arith)
  ]

  sent_later :
      (addr : String) (cancelled : Bool) (url : String) (e : Option Error) (w : World)
      → w.ticks ≤ (sent clock client addr cancelled url e w).1.ticks
  unfolding sent
  sent_later addr cancelled url (some e) w = omega arith
  sent_later addr cancelled url none w =
      from_http_later addr (client.get w.requests cancelled url)
        (record w { requests = w.requests + 1 })

  pub instant-IsForward : IsForward (instant clock client)
  unfolding instant
  instant-IsForward cancelled addr query w = sent_later addr cancelled _ _ w
