-- ===== src/Config/Fallbacks.antt =====
-- What `Parse` makes of texts that it cannot use.
use inference_platform.Prelude.{
  ◌≡◌, ◌≢◌, ◌⊎◌, inl, inr, refl, String, Bool, Option, none, some, arith, eq_iff, str_eq, true,
  false,
}
use inference_platform.Prelude.Int.{ℤ, pos, ltb_ℤ}
use inference_platform.Go.Float64.{Float64}
use inference_platform.Go.Strconv.{parse_float, parse_bool, atoi}
use inference_platform.Go.Time.{Duration, parse_duration}
use inference_platform.Config.{
  Metadata, at_key, parse, defaults, overridden, float_or, bool_or, duration_or,
  positive_duration_or, positive_int_or, string_or,
}

-- The parser refuses the text, or gives a value that is too small.
abbrev pub TooSmall : (String → Option ℤ) → ℤ → String → Type 0
TooSmall parser least s = (v : ℤ) × (parser s ≡ some v) × (ltb_ℤ v least ≡ true)

abbrev pub NoValue : (String → Option ℤ) → ℤ → String → Type 0
NoValue parser least s = (parser s ≡ none) ⊎ TooSmall parser least s

-- No key but the address has a text that `Parse` can use.
pub record Unusable (m : Metadata) : Type 0 where
  pub queue_query : at_key m "queueQuery" ≡ ""
  pub kv_cache_query : at_key m "kvCacheQuery" ≡ ""
  pub queue_threshold : parse_float (at_key m "queueThreshold") ≡ none
  pub kv_cache_threshold : parse_float (at_key m "kvCacheThreshold") ≡ none
  pub activation_threshold : parse_float (at_key m "activationThreshold") ≡ none
  pub treat_missing_as_error : parse_bool (at_key m "treatMissingAsError") ≡ none
  pub cache_ttl : parse_duration (at_key m "cacheTTL") ≡ none
  pub stream_poll_interval : NoValue parse_duration (pos 1) (at_key m "streamPollInterval")
  pub stream_max_consecutive_failures :
      NoValue atoi (pos 1) (at_key m "streamMaxConsecutiveFailures")

string_or-empty : (s def : String) → s ≡ "" → string_or s def ≡ def
unfolding string_or
string_or-empty s def h = ground (arith, eq_iff s "")

float_or-none : (s : String) (def : Float64) → parse_float s ≡ none → float_or s def ≡ def
unfolding float_or
float_or-none s def h = rw h (ground arith)

bool_or-none : (s : String) (def : Bool) → parse_bool s ≡ none → bool_or s def ≡ def
unfolding bool_or
bool_or-none s def h = rw h (ground arith)

duration_or-none : (s : String) (def : Duration) → parse_duration s ≡ none → duration_or s def ≡ def
unfolding duration_or
duration_or-none s def h = rw h (ground arith)

positive_duration_or-NoValue :
    (s : String) (def : Duration)
    → NoValue parse_duration (pos 1) s
    → positive_duration_or s def ≡ def
unfolding positive_duration_or duration_or
positive_duration_or-NoValue s def (inl h) = rw h (ground arith)
positive_duration_or-NoValue s def (inr (v, h, small)) = rw h (ground arith)

positive_int_or-NoValue :
    (s : String) (def : ℤ) → NoValue atoi (pos 1) s → positive_int_or s def ≡ def
unfolding positive_int_or
positive_int_or-NoValue s def (inl h) = rw h (ground arith)
positive_int_or-NoValue s def (inr (v, h, small)) = rw h (ground arith)

-- With an address, empty queries, and texts under the other keys that are absent, malformed or, for
-- the poll interval and the failure limit, below 1: `Parse` gives the defaults, without an error.
pub parse-Unusable :
    (m : Metadata)
    → at_key m "prometheusAddress" ≢ ""
    → Unusable m
    → parse m ≡ (defaults (at_key m "prometheusAddress"), none)
unfolding parse overridden defaults
parse-Unusable m addressed u =
    let there : str_eq (at_key m "prometheusAddress") "" ≡ false =
      ground (arith, eq_iff (at_key m "prometheusAddress") "") in
    rw
      (
        there,
        string_or-empty _ _ u.queue_query,
        string_or-empty _ _ u.kv_cache_query,
        float_or-none _ _ u.queue_threshold,
        float_or-none _ _ u.kv_cache_threshold,
        float_or-none _ _ u.activation_threshold,
        bool_or-none _ _ u.treat_missing_as_error,
        duration_or-none _ _ u.cache_ttl,
        positive_duration_or-NoValue _ _ u.stream_poll_interval,
        positive_int_or-NoValue _ _ u.stream_max_consecutive_failures,
      )
      refl
