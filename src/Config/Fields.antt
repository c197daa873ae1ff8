-- ===== src/Config/Fields.antt =====
-- Which key each field of a configuration comes from.
use inference_platform.Prelude.{
  ◌≡◌, ◌≢◌, refl, sym, ◌∙◌, String, Bool, false, arith, eq_iff, str_eq, insert,
}
use inference_platform.Prelude.Int.{ℤ}
use inference_platform.Go.Float64.{Float64}
use inference_platform.Go.Time.{Duration}
use inference_platform.Config.{Config, Metadata, at_key, parse, overridden, defaults}
use inference_platform.Config.Keys.{at_key-insert}

-- The keys of the scaler metadata.
pub data Key : Type 0 where
  prometheus_address : Key
  queue_query : Key
  kv_cache_query : Key
  queue_threshold : Key
  kv_cache_threshold : Key
  activation_threshold : Key
  treat_missing_as_error : Key
  cache_ttl : Key
  stream_poll_interval : Key
  stream_max_consecutive_failures : Key

abbrev pub name_of : Key → String
name_of prometheus_address = "prometheusAddress"
name_of queue_query = "queueQuery"
name_of kv_cache_query = "kvCacheQuery"
name_of queue_threshold = "queueThreshold"
name_of kv_cache_threshold = "kvCacheThreshold"
name_of activation_threshold = "activationThreshold"
name_of treat_missing_as_error = "treatMissingAsError"
name_of cache_ttl = "cacheTTL"
name_of stream_poll_interval = "streamPollInterval"
name_of stream_max_consecutive_failures = "streamMaxConsecutiveFailures"

abbrev pub Field : Key → Type 0
Field prometheus_address = String
Field queue_query = String
Field kv_cache_query = String
Field queue_threshold = Float64
Field kv_cache_threshold = Float64
Field activation_threshold = Float64
Field treat_missing_as_error = Bool
Field cache_ttl = Duration
Field stream_poll_interval = Duration
Field stream_max_consecutive_failures = ℤ

abbrev pub field : (k : Key) → Config → Field k
field prometheus_address c = c.prom_addr
field queue_query c = c.queue_query
field kv_cache_query c = c.kv_query
field queue_threshold c = c.queue_threshold
field kv_cache_threshold c = c.kv_threshold
field activation_threshold c = c.activation
field treat_missing_as_error c = c.treat_missing_as_error
field cache_ttl c = c.cache_ttl
field stream_poll_interval c = c.stream_poll_interval
field stream_max_consecutive_failures c = c.stream_max_consecutive_failures

overridden-field :
    (k : Key) (m m' : Metadata)
    → at_key m (name_of k) ≡ at_key m' (name_of k)
    → field k (overridden m (defaults (at_key m "prometheusAddress")))
      ≡ field k (overridden m' (defaults (at_key m' "prometheusAddress")))
unfolding overridden defaults
overridden-field prometheus_address m m' h = h
overridden-field queue_query m m' h = rw h refl
overridden-field kv_cache_query m m' h = rw h refl
overridden-field queue_threshold m m' h = rw h refl
overridden-field kv_cache_threshold m m' h = rw h refl
overridden-field activation_threshold m m' h = rw h refl
overridden-field treat_missing_as_error m m' h = rw h refl
overridden-field cache_ttl m m' h = rw h refl
overridden-field stream_poll_interval m m' h = rw h refl
overridden-field stream_max_consecutive_failures m m' h = rw h refl

parse_addressed :
    (m : Metadata)
    → at_key m "prometheusAddress" ≢ ""
    → (parse m).0 ≡ overridden m (defaults (at_key m "prometheusAddress"))
unfolding parse defaults
parse_addressed m addressed =
    let there : str_eq (at_key m "prometheusAddress") "" ≡ false =
      ground (arith, eq_iff (at_key m "prometheusAddress") "") in
    rw there refl

-- Of two metadata maps with an address each, which agree at a key, `Parse` gives configurations that
-- agree in that key's field, whatever the other keys say.
pub parse-field :
    (k : Key) (m m' : Metadata)
    → at_key m "prometheusAddress" ≢ ""
    → at_key m' "prometheusAddress" ≢ ""
    → at_key m (name_of k) ≡ at_key m' (name_of k)
    → field k (parse m).0 ≡ field k (parse m').0
parse-field k m m' addressed addressed' same =
    rw (parse_addressed m addressed, parse_addressed m' addressed') (overridden-field k m m' same)

-- In metadata with an address, an entry that is set under another name than the address and a key
-- leaves the field of that key as it was.
pub parse-insert_ne :
    (k : Key) (m : Metadata) (name value : String)
    → at_key m "prometheusAddress" ≢ ""
    → name ≢ "prometheusAddress"
    → name ≢ name_of k
    → field k (parse (insert name value m)).0 ≡ field k (parse m).0
parse-insert_ne k m name value addressed not_address other =
    parse-field k (insert name value m) m
      (λ e. addressed (sym (kept "prometheusAddress" not_address) ∙ e)) addressed
      (kept (name_of k) other)
  where
    kept : (j : String) → name ≢ j → at_key (insert name value m) j ≡ at_key m j
    kept j ne =
        let differs : str_eq name j ≡ false = ground (arith, eq_iff name j) in
        rw (at_key-insert, differs) refl
