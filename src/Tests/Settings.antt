-- ===== src/Tests/Settings.antt =====
-- The configuration, the backoff and the probes at concrete inputs.
use inference_platform.Prelude.{
  String, false, insert, ◌≡◌, ◌≢◌, ◌↔◌, [], refl, ◌∷◌, none, true, arith, ◌*◌, str_eq, eq_iff, inl,
  inr,
}
use inference_platform.Prelude.Int.{pos, ◌<ℤ◌, negsuc}
use inference_platform.Go.Int64.{Fits64}
use inference_platform.Go.Time.{second, parse_duration}
use inference_platform.Config.{Metadata, at_key, parse, defaults}
use inference_platform.Config.Fallbacks.{Unusable, parse-Unusable}
use inference_platform.Go.Strconv.{parse_float, parse_bool, atoi}
use inference_platform.Tests.Data.{address, metadata, at}
use inference_platform.Config.Bounds.{IsValid, parse-IsValid, parse_error_iff}
use inference_platform.Config.Fields.{Key, parse-insert_ne}
use inference_platform.Observability.Health.{Health, new_health}
use inference_platform.Stream.{next_stream_backoff}
use inference_platform.Stream.Backoff.{next_stream_backoff_overflow}

parse-IsValid_example : IsValid (parse metadata).0
unfolding parse at_key
parse-IsValid_example = parse-IsValid metadata refl

differs : (a b : String) → str_eq a b ≡ false → a ≢ b
differs a b h e = let same : str_eq a b ≡ true = (eq_iff a b).1 e in cc

some_address : at_key metadata "prometheusAddress" ≢ ""
unfolding at_key
some_address e =
    let same : str_eq (at_key metadata "prometheusAddress") "" ≡ true = (eq_iff _ _).1 e in cc

parse-insert_ne_example :
    (parse (insert "cacheTTL" "1m" metadata)).0.queue_threshold ≡ (parse metadata).0.queue_threshold
parse-insert_ne_example =
    parse-insert_ne Key.queue_threshold metadata "cacheTTL" "1m" some_address
      (differs "cacheTTL" "prometheusAddress" refl) (differs "cacheTTL" "queueThreshold" refl)

ten_seconds : Fits64 (pos (10 * second))
ten_seconds = ground arith

abbrev health : Health
health = new_health (pos (10 * second)) (at 1)

next_stream_backoff_overflow_example :
    next_stream_backoff (pos 1152921504606846976) (pos 1152921504606846976) <ℤ pos 0
next_stream_backoff_overflow_example =
    next_stream_backoff_overflow 1152921504606846976 (omega arith) (omega arith)

-- Values that no parser accepts, and a poll interval that is negative.
abbrev useless : Metadata
useless =
    ("cacheTTL", "soon") ∷ ("streamPollInterval", "-5s") ∷ ("queueThreshold", "three") ∷ metadata

useless-Unusable : Unusable useless
unfolding at_key parse_float parse_bool parse_duration atoi
useless-Unusable = record {
  queue_query = refl;
  kv_cache_query = refl;
  queue_threshold = refl;
  kv_cache_threshold = refl;
  activation_threshold = refl;
  treat_missing_as_error = refl;
  cache_ttl = refl;
  stream_poll_interval = inr (negsuc 4999999999, refl, refl);
  stream_max_consecutive_failures = inl refl;
}

useless_address : at_key useless "prometheusAddress" ≢ ""
unfolding at_key
useless_address e =
    let same : str_eq (at_key useless "prometheusAddress") "" ≡ true = (eq_iff _ _).1 e in cc

parse-Unusable_example : parse useless ≡ (defaults address, none)
unfolding at_key
parse-Unusable_example = parse-Unusable useless useless_address useless-Unusable

parse_error_iff_example : ((parse []).1 ≢ none) ↔ (at_key [] "prometheusAddress" ≡ "")
parse_error_iff_example = parse_error_iff []
