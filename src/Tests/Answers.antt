-- ===== src/Tests/Answers.antt =====
-- `Prometheus.Instant` on the answers of a small server.
use inference_platform.Prelude.{◌≡◌, refl, String, Bool, true, false, List, [], ◌∷◌, none, some, ℕ}
use inference_platform.Prelude.Int.{pos}
use inference_platform.Go.Errors.{Error, new, is_missing}
use inference_platform.Go.Float64.{
  round_to, rounded, round_even, shift, limit_units, Float64, fin, one_units,
}
use inference_platform.Go.Strconv.{parse_float}
use inference_platform.Metrics.Prometheus.{HttpClient, failed, response, instant}
use inference_platform.Metrics.Prometheus.Decode.Vectors.{answer_body}
use inference_platform.Metrics.Prometheus.Replies.{
  query_url, vector_reply, instant_vector, TellsErrors, IsAnswer, instant-cacheable,
}
use inference_platform.Tests.Data.{address, ticking, world}

-- Two series: 6 at second 1, and one whose text is no number.
abbrev two_series : List (Float64 × String)
two_series = (fin false one_units, "6") ∷ (fin false one_units, "many") ∷ []

abbrev client : HttpClient
client = record {
  query_escape = λ q. q;
  request_error = λ url. none;
  get = λ n cancelled url. elim cancelled [
    | true ↦ failed (new "context canceled")
    | false ↦ response 200 (some (answer_body two_series))
  ];
  machine = λ x. pos 0;
}

instant_vector_example :
    (instant ticking client false address "q" world).0 ≡ vector_reply client two_series
instant_vector_example = instant_vector ticking client false address "q" world two_series refl refl

client-TellsErrors : TellsErrors client
unfolding is_missing
client-TellsErrors = record { requests = λ url e h. cc; answers = by_context }
  where
    by_context :
        (n : ℕ) (x : Bool) (url : String) (e : Error)
        → client.get n x url ≡ failed e
        → is_missing e ≡ false
    by_context n true url e h = let same : new "context canceled" ≡ e = cc in rw (← same) refl
    by_context n false url e h = absurd (cc)

instant-cacheable_example : IsAnswer (client.get 0 false (query_url client address "q"))
unfolding parse_float round_to rounded round_even shift limit_units
instant-cacheable_example =
    instant-cacheable ticking client false address "q" world client-TellsErrors
      (rw (instant_vector ticking client false address "q" world two_series refl refl) refl)
