-- ===== src/Metrics/Prometheus.antt =====
-- `Prometheus.Instant` of internal/metrics/metrics.go.
pub mod Decode
pub mod Replies
pub mod Clocks
use inference_platform.Prelude.{
  ℕ, ◌+◌, ◌*◌, String, Bool, true, false, List, [], ◌∷◌, Option, none, some, ◌==◌, if◌then◌else◌,
}
use inference_platform.Prelude.Int.{ℤ, pos}
use Prim.Native.String.{◌++◌}
use inference_platform.Go.Errors.{Error, err_missing, new, bad_status}
use inference_platform.Go.Float64.{Float64, mul, of_int, to_int}
use inference_platform.Go.Strconv.{parse_float}
use inference_platform.Go.Time.{Time, unix_nano, second}
use inference_platform.Metrics.Source.{Sample, empty_sample, Reply, World, Clock, time_now, Source}
use Decode.{Json, null, boolean, number, text, array, object, decode_response}

-- What `http.Client.Do` gives: an error, or a status with the JSON value of the body; `none` is a
-- body that is no JSON.
pub data HttpResult : Type 0 where
  failed : Error → HttpResult
  response : ℕ → Option Json → HttpResult

-- net/http and net/url, with the network behind them, and what `int64` gives out of range.
pub record HttpClient : Type 0 where
  pub query_escape : String → String
  pub request_error : String → Option Error
  pub get : ℕ → Bool → String → HttpResult
  pub machine : Float64 → ℤ

abbrev fail : Error → Reply
fail e = (empty_sample, some e)

-- The sample's own timestamp, or the time of day where the first entry is no number.
timestamp : HttpClient → Json → Time → Time
timestamp client (number secs) now =
    unix_nano (to_int client.machine (mul secs (of_int (pos second))))
timestamp client null now = now
timestamp client (boolean b) now = now
timestamp client (text s) now = now
timestamp client (array items) now = now
timestamp client (object fields) now = now

-- strconv.ParseFloat on the sample's text; the clock is read only where that succeeds.
parsed_value : Clock → HttpClient → Json → Option Float64 → World → Reply × World
unfolding timestamp
parsed_value clock client stamp none w = (fail (new "strconv.ParseFloat: parsing"), w)
parsed_value clock client stamp (some v) w =
    let (now, w') = time_now clock w in
    ((record { value = v; time = timestamp client stamp now }, none), w')

-- The [timestamp, value] pair of the first series.
first_series : Clock → HttpClient → Json → Json → World → Reply × World
unfolding parsed_value
first_series clock client stamp (text s) w = parsed_value clock client stamp (parse_float s) w
first_series clock client stamp null w = (fail err_missing, w)
first_series clock client stamp (boolean b) w = (fail err_missing, w)
first_series clock client stamp (number x) w = (fail err_missing, w)
first_series clock client stamp (array items) w = (fail err_missing, w)
first_series clock client stamp (object fields) w = (fail err_missing, w)

from_series : Clock → HttpClient → Option (List (Json × Json)) → World → Reply × World
unfolding first_series
from_series clock client none w = (fail (new "json: cannot decode"), w)
from_series clock client (some []) w = (fail err_missing, w)
from_series clock client (some ((stamp, value) ∷ more)) w = first_series clock client stamp value w

decoded : Option Json → Option (List (Json × Json))
decoded none = none
decoded (some body) = decode_response body

from_http : Clock → HttpClient → String → HttpResult → World → Reply × World
unfolding from_series decoded
from_http clock client addr (failed e) w = (fail e, w)
from_http clock client addr (response status body) w =
    if status == 200
    then from_series clock client (decoded body) w
    else (fail (bad_status addr status), w)

sent : Clock → HttpClient → String → Bool → String → Option Error → World → Reply × World
unfolding from_http
sent clock client addr cancelled url (some e) w = (fail e, w)
sent clock client addr cancelled url none w =
    from_http clock client addr (client.get w.requests cancelled url)
      (record w { requests = w.requests + 1 })

unfoldable pub instant : Clock → HttpClient → Source
unfolding sent
instant clock client cancelled addr query w =
    let url = addr ++ "/api/v1/query?query=" ++ client.query_escape query in
    sent clock client addr cancelled url (client.request_error url) w
