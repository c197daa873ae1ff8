-- ===== src/Metrics/Prometheus/Decode/Vectors.antt =====
-- The decoder on the answers that Prometheus gives.
use inference_platform.Prelude.{◌≡◌, refl, String, List, [], ◌∷◌, some, map}
use inference_platform.Go.Float64.{Float64}
use inference_platform.Go.Text.{codes, same_word}
use inference_platform.Metrics.Prometheus.Decode.{
  Json, number, text, array, object, Items, nil, cons, end, field, decode_response, all_series,
  series, pair, find, results, response_data, pair_of, second_of,
}

-- The vector that Prometheus answers: for each series its time in seconds and its value as a text.
abbrev pub vector : List (Float64 × String) → Items
vector [] = nil
vector ((t, v) ∷ xs) =
    cons
      (object (
        field "metric" (object end)
          (field "value" (array (cons (number t) (cons (text v) nil))) end)))
      (vector xs)

abbrev pub answer_body : List (Float64 × String) → Json
answer_body xs = object (
    field "status" (text "success") (
      field "data"
        (object (field "resultType" (text "vector") (field "result" (array (vector xs)) end))) end))

abbrev pub pair_json : Float64 × String → Json × Json
pair_json (t, v) = (number t, text v)

all_series-vector :
    (xs : List (Float64 × String)) → all_series (vector xs) ≡ some (map pair_json xs)
unfolding all_series series find pair pair_of second_of codes same_word
all_series-vector [] = refl
all_series-vector ((t, v) ∷ xs) = rw (all_series-vector xs) refl

pub decode-answer_body :
    (xs : List (Float64 × String)) → decode_response (answer_body xs) ≡ some (map pair_json xs)
unfolding decode_response find response_data results codes same_word
decode-answer_body xs = all_series-vector xs
