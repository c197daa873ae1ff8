-- ===== src/Config.antt =====
-- internal/config/config.go: the settings of one ScaledObject, parsed from its scaler metadata.
pub mod Bounds
pub mod Keys
pub mod Fallbacks
pub mod Fields
use inference_platform.Prelude.{
  ℕ, ◌*◌, String, Bool, true, false, not, ◌||◌, List, ◌∷◌, Option, none, some, str_eq, lookup, ◌⊎◌,
  if◌then◌else◌,
}
use inference_platform.Prelude.Int.{ℤ, pos, ltb_ℤ}
use inference_platform.Go.Errors.{Error, new}
use inference_platform.Go.Float64.{Float64, fin, of_nat, round_to, one_units}
use inference_platform.Go.Strconv.{parse_float, parse_bool, atoi}
use inference_platform.Go.Time.{Duration, parse_duration, second}

abbrev pub default_queue_query : String
default_queue_query = "sum(vllm:num_requests_waiting)"

abbrev pub default_kv_cache_query : String
default_kv_cache_query = "max(vllm:gpu_cache_usage_perc)"

unfoldable pub default_queue_threshold : Float64
default_queue_threshold = of_nat 3

-- 0.7, to the nearest double
unfoldable pub default_kv_threshold : Float64
default_kv_threshold = round_to false (7 * one_units) 10

unfoldable pub default_activation : Float64
default_activation = of_nat 1

abbrev pub default_cache_ttl : Duration
default_cache_ttl = pos (15 * second)

abbrev pub default_stream_poll_interval : Duration
default_stream_poll_interval = pos (10 * second)

abbrev pub default_stream_max_consecutive_failures : ℤ
default_stream_max_consecutive_failures = pos 5

pub record Config : Type 0 where
  pub prom_addr : String
  pub queue_query : String
  pub kv_query : String
  pub queue_threshold : Float64
  pub kv_threshold : Float64
  pub activation : Float64
  pub treat_missing_as_error : Bool
  pub cache_ttl : Duration
  pub stream_poll_interval : Duration
  pub stream_max_consecutive_failures : ℤ

abbrev pub Metadata : Type 0
Metadata = List (String × String)

abbrev or_empty : Option String → String
or_empty none = ""
or_empty (some s) = s

-- m[key]: the empty string for a key that is not there
unfoldable pub at_key : Metadata → String → String
unfolding lookup
at_key m key = or_empty (lookup key m)

-- v, err := parse(s); the parsed value without an error, and `def` with one
abbrev pub parsed_or {ℓ} : {A : Type ℓ} → Option A → A → A
parsed_or none def = def
parsed_or (some v) def = v

unfoldable pub float_or : String → Float64 → Float64
float_or s def = if str_eq s "" then def else parsed_or (parse_float s) def

unfoldable pub bool_or : String → Bool → Bool
bool_or s def = if str_eq s "" then def else parsed_or (parse_bool s) def

unfoldable pub duration_or : String → Duration → Duration
duration_or s def = if str_eq s "" then def else parsed_or (parse_duration s) def

unfoldable pub positive_duration_or : String → Duration → Duration
positive_duration_or s def = let d = duration_or s def in if ltb_ℤ (pos 0) d then d else def

abbrev at_least_one : Option ℤ → ℤ → ℤ
at_least_one none def = def
at_least_one (some n) def = if ltb_ℤ n (pos 1) then def else n

unfoldable pub positive_int_or : String → ℤ → ℤ
positive_int_or s def = if str_eq s "" then def else at_least_one (atoi s) def

-- if v := m[key]; v != "" { field = v }
unfoldable pub string_or : String → String → String
string_or v def = if str_eq v "" then def else v

unfoldable pub defaults : String → Config
defaults addr = record {
  prom_addr = addr;
  queue_query = default_queue_query;
  kv_query = default_kv_cache_query;
  queue_threshold = default_queue_threshold;
  kv_threshold = default_kv_threshold;
  activation = default_activation;
  treat_missing_as_error = false;
  cache_ttl = default_cache_ttl;
  stream_poll_interval = default_stream_poll_interval;
  stream_max_consecutive_failures = default_stream_max_consecutive_failures;
}

-- The assignments of `Parse` to the fields of `c`, once the address is there.
unfoldable pub overridden : Metadata → Config → Config
overridden m c = record c {
  queue_query = string_or (at_key m "queueQuery") c.queue_query;
  kv_query = string_or (at_key m "kvCacheQuery") c.kv_query;
  queue_threshold = float_or (at_key m "queueThreshold") c.queue_threshold;
  kv_threshold = float_or (at_key m "kvCacheThreshold") c.kv_threshold;
  activation = float_or (at_key m "activationThreshold") c.activation;
  treat_missing_as_error = bool_or (at_key m "treatMissingAsError") false;
  cache_ttl = duration_or (at_key m "cacheTTL") c.cache_ttl;
  stream_poll_interval =
      positive_duration_or (at_key m "streamPollInterval") c.stream_poll_interval;
  stream_max_consecutive_failures =
      positive_int_or (at_key m "streamMaxConsecutiveFailures") c.stream_max_consecutive_failures;
}

-- The configuration, and the error beside it.
unfoldable pub parse : Metadata → Config × Option Error
unfolding defaults overridden
parse m =
    let c = defaults (at_key m "prometheusAddress") in
    if str_eq c.prom_addr ""
    then (c, some (new "scaler metadata: prometheusAddress is required"))
    else (overridden m c, none)
