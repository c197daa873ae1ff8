-- ===== src/Metrics/Prometheus/Decode.antt =====
-- JSON values, and how `json.Decode` fills the anonymous struct of `Prometheus.Instant`. A name is
-- matched in any case. No two fields of an object match the same name: what the decoder does with
-- those is not modelled beyond taking the later one.
pub mod Vectors
use inference_platform.Prelude.{
  String, Bool, true, false, List, [], ◌∷◌, Option, none, some, if◌then◌else◌,
}
use inference_platform.Go.Float64.{Float64}
use inference_platform.Go.Text.{codes, same_word}

mutual
  pub data Json : Type 0 where
    null : Json
    boolean : Bool → Json
    number : Float64 → Json
    text : String → Json
    array : Items → Json
    object : Fields → Json

  pub data Items : Type 0 where
    nil : Items
    cons : Json → Items → Items

  pub data Fields : Type 0 where
    end : Fields
    field : String → Json → Fields → Fields

-- The value of the last field of that name, null without one: decoding null changes nothing.
abbrev find_from : String → Json → Fields → Json
find_from name found end = found
find_from name found (field key v fs) =
    find_from name (if same_word (codes key) (codes name) then v else found) fs

find : String → Fields → Json
find name fs = find_from name null fs

second_of : Json → Items → Json × Json
second_of a nil = (a, null)
second_of a (cons b rest) = (a, b)

-- [2]any: missing entries stay nil, further ones are dropped.
pair_of : Items → Json × Json
unfolding second_of
pair_of nil = (null, null)
pair_of (cons a rest) = second_of a rest

pair : Json → Option (Json × Json)
unfolding pair_of
pair null = some (null, null)
pair (array items) = some (pair_of items)
pair (boolean b) = none
pair (number x) = none
pair (text s) = none
pair (object fs) = none

series : Json → Option (Json × Json)
unfolding find pair
series null = some (null, null)
series (object fs) = pair (find "value" fs)
series (boolean b) = none
series (number x) = none
series (text s) = none
series (array items) = none

abbrev both : Option (Json × Json) → Option (List (Json × Json)) → Option (List (Json × Json))
both none ps = none
both (some p) none = none
both (some p) (some ps) = some (p ∷ ps)

all_series : Items → Option (List (Json × Json))
unfolding series
all_series nil = some []
all_series (cons x xs) = both (series x) (all_series xs)

results : Json → Option (List (Json × Json))
unfolding all_series
results null = some []
results (array items) = all_series items
results (boolean b) = none
results (number x) = none
results (text s) = none
results (object fs) = none

response_data : Json → Option (List (Json × Json))
unfolding find results
response_data null = some []
response_data (object fs) = results (find "result" fs)
response_data (boolean b) = none
response_data (number x) = none
response_data (text s) = none
response_data (array items) = none

unfoldable pub decode_response : Json → Option (List (Json × Json))
unfolding find response_data
decode_response null = some []
decode_response (object fs) = response_data (find "data" fs)
decode_response (boolean b) = none
decode_response (number x) = none
decode_response (text s) = none
decode_response (array items) = none
