-- ===== src/Metrics/Prometheus/Replies.antt =====
-- What `Prometheus.Instant` replies to the server's answers.
use Prim.Native.String.{◌++◌}
use inference_platform.Prelude.{
  ℕ, ◌≡◌, refl, ap, String, Bool, true, false, List, [], ◌∷◌, Option, none, some, map, ◌==◌, arith,
  Bool-cases, Option-cases, inl, inr,
}
use inference_platform.Go.Errors.{Error, new, err_missing, is_missing}
use inference_platform.Go.Float64.{Float64, mul, of_int, to_int}
use inference_platform.Go.Strconv.{parse_float}
use inference_platform.Prelude.Int.{pos}
use inference_platform.Go.Time.{unix_nano, second}
use inference_platform.Metrics.Prometheus.Decode.Vectors.{
  answer_body, pair_json, decode-answer_body,
}
use inference_platform.Metrics.Source.{Reply, World, Clock}
use inference_platform.Metrics.Cache.{cacheable}
use inference_platform.Metrics.Prometheus.{
  HttpClient, HttpResult, failed, response, instant, sent, from_http, decoded, from_series,
  first_series, parsed_value, timestamp, fail,
}
use inference_platform.Metrics.Prometheus.Decode.{Json, number}

abbrev pub query_url : HttpClient → String → String → String
query_url client addr query = addr ++ "/api/v1/query?query=" ++ client.query_escape query

abbrev parsed_reply : HttpClient → Float64 → Option Float64 → Reply
parsed_reply client t none = fail (new "strconv.ParseFloat: parsing")
parsed_reply client t (some v) = (
  record { value = v; time = unix_nano (to_int client.machine (mul t (of_int (pos second)))) },
  none,
)

-- The reply for a vector: that of its first series, whose text has to be a number.
abbrev pub vector_reply : HttpClient → List (Float64 × String) → Reply
vector_reply client [] = fail err_missing
vector_reply client ((t, v) ∷ xs) = parsed_reply client t (parse_float v)

from_series-vector :
    (clock : Clock) (client : HttpClient) (xs : List (Float64 × String)) (w : World)
    → (from_series clock client (some (map pair_json xs)) w).0 ≡ vector_reply client xs
unfolding from_series first_series parsed_value timestamp
from_series-vector clock client [] w = refl
from_series-vector clock client ((t, v) ∷ xs) w = by_value (parse_float v)
  where
    by_value :
        (o : Option Float64)
        → (parsed_value clock client (number t) o w).0 ≡ parsed_reply client t o
    by_value none = refl
    by_value (some x) = refl

module _ (clock : Clock) (client : HttpClient) (cancelled : Bool) (addr query : String)
    (w : World) where
  -- Where the request can be made and the server answers 200 with a vector, the reply is the first
  -- series' value with its own time, whatever the series after it; an absent series where there is
  -- no series; and an error of another kind where the first value's text is no number.
  pub instant_vector :
      (xs : List (Float64 × String))
      → client.request_error (query_url client addr query) ≡ none
      → client.get w.requests cancelled (query_url client addr query)
        ≡ response 200 (some (answer_body xs))
      → (instant clock client cancelled addr query w).0 ≡ vector_reply client xs
  unfolding instant sent from_http decoded
  instant_vector xs made answered =
      rw (made, answered, decode-answer_body xs) (from_series-vector clock client xs _)

-- The errors of net/http are none of an absent series.
pub record TellsErrors (client : HttpClient) : Type 0 where
  pub requests :
      (url : String) (e : Error) → client.request_error url ≡ some e → is_missing e ≡ false
  pub answers :
      (n : ℕ) (x : Bool) (url : String) (e : Error)
      → client.get n x url ≡ failed e
      → is_missing e ≡ false

-- A 200 with a body that is JSON.
abbrev pub IsAnswer : HttpResult → Type 0
IsAnswer r = (body : Json) × (r ≡ response 200 (some body))

module _ (clock : Clock) (client : HttpClient) (addr : String) (w : World) where
  from_http-IsAnswer :
      (r : HttpResult)
      → ((e : Error) → r ≡ failed e → is_missing e ≡ false)
      → cacheable (from_http clock client addr r w).0.1 ≡ true
      → IsAnswer r
  unfolding from_http decoded from_series is_missing
  from_http-IsAnswer (failed e) told h = absurd (cc (h, told e refl))
  from_http-IsAnswer (response n none) told h = absurd (ground arith)
  from_http-IsAnswer (response n (some body)) told h = elim (Bool-cases (n == 200)) [
    | inl t ↦ (body, ap (λ (m : ℕ). response m (some body)) (ground arith))
    | inr t ↦ absurd (cc (rw t at h))
  ]

-- If no error of net/http is that of an absent series, only a 200 whose body is JSON makes a reply
-- that may be cached: with no error, or an absent series.
pub instant-cacheable :
    (clock : Clock) (client : HttpClient) (cancelled : Bool) (addr query : String) (w : World)
    → TellsErrors client
    → cacheable (instant clock client cancelled addr query w).0.1 ≡ true
    → IsAnswer (client.get w.requests cancelled (query_url client addr query))
unfolding instant sent
instant-cacheable clock client x addr query w told h =
    elim (Option-cases (client.request_error (query_url client addr query))) [
      | inl made ↦
          from_http-IsAnswer clock client addr _ _ (told.answers w.requests x _) (rw made at h)
      | inr (e, made) ↦ absurd (cc (rw made at h, told.requests _ e made))
    ]
