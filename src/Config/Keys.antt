-- ===== src/Config/Keys.antt =====
-- Which metadata keys a configuration depends on.
use inference_platform.Prelude.{◌≡◌, String, arith, str_eq, insert, lookup-insert, if◌then◌else◌}
use inference_platform.Config.{Config, Metadata, at_key, parse, overridden, defaults}

-- Two metadata maps agree on every key that `Parse` reads.
pub record SameKeys (m m' : Metadata) : Type 0 where
  pub prometheus_address : at_key m "prometheusAddress" ≡ at_key m' "prometheusAddress"
  pub queue_query : at_key m "queueQuery" ≡ at_key m' "queueQuery"
  pub kv_cache_query : at_key m "kvCacheQuery" ≡ at_key m' "kvCacheQuery"
  pub queue_threshold : at_key m "queueThreshold" ≡ at_key m' "queueThreshold"
  pub kv_cache_threshold : at_key m "kvCacheThreshold" ≡ at_key m' "kvCacheThreshold"
  pub activation_threshold : at_key m "activationThreshold" ≡ at_key m' "activationThreshold"
  pub treat_missing_as_error : at_key m "treatMissingAsError" ≡ at_key m' "treatMissingAsError"
  pub cache_ttl : at_key m "cacheTTL" ≡ at_key m' "cacheTTL"
  pub stream_poll_interval : at_key m "streamPollInterval" ≡ at_key m' "streamPollInterval"
  pub stream_max_consecutive_failures :
      at_key m "streamMaxConsecutiveFailures" ≡ at_key m' "streamMaxConsecutiveFailures"

overridden-SameKeys :
    (m m' : Metadata) (c : Config) → SameKeys m m' → overridden m c ≡ overridden m' c
unfolding overridden
overridden-SameKeys m m' c h = rw (
  h.queue_query, h.kv_cache_query, h.queue_threshold, h.kv_cache_threshold, h.activation_threshold,
  h.treat_missing_as_error, h.cache_ttl, h.stream_poll_interval, h.stream_max_consecutive_failures,
)

-- `Parse` reads no key but the ten: metadata that agree on those give one configuration and one
-- error.
pub parse-SameKeys : (m m' : Metadata) → SameKeys m m' → parse m ≡ parse m'
unfolding parse
parse-SameKeys m m' h =
    rw (h.prometheus_address, overridden-SameKeys m m' (defaults (at_key m' "prometheusAddress")) h)

pub at_key-insert :
    (m : Metadata) (k j v : String)
    → at_key (insert k v m) j ≡ (if str_eq k j then v else at_key m j)
unfolding at_key
at_key-insert m k j v = rw lookup-insert (ground arith)
