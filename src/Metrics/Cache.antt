-- ===== src/Metrics/Cache.antt =====
-- internal/metrics/cache.go: a TTL cache keyed by address and query, with concurrent identical
-- queries collapsed into one by golang.org/x/sync/singleflight.
pub mod Keys
pub mod Entries
pub mod Ttl
pub mod Answers
pub mod Given
pub mod Forward
pub mod Concurrent
use Prim.Native.String.{◌++◌}
use inference_platform.Prelude.{
  ℕ, ◌+◌, String, Bool, true, false, ◌&&◌, List, [], Option, none, some, lookup, insert,
  if◌then◌else◌,
}
use inference_platform.Prelude.Int.{ℤ, pos, ltb_ℤ}
use inference_platform.Go.Errors.{Error, is_missing}
use inference_platform.Go.Time.{Time, Duration, after, add_duration}
use inference_platform.Metrics.Source.{Sample, Reply, World, Clock, time_now, Source}

pub record CacheEntry : Type 0 where
  pub sample : Sample
  pub error : Option Error
  pub expires_at : Time

-- A `CachingSource` with the world that its source and its clock read, and how often
-- `singleflight.Group.Do` was called.
pub record CachingSource : Type 0 where
  pub world : World
  pub flights : ℕ
  pub entries : List (String × CacheEntry)

abbrev pub new_caching_source : World → CachingSource
new_caching_source w = record { world = w; flights = 0; entries = [] }

-- singleflight.Group: at the n-th call of `Do`, the result of another goroutine's call for the key
-- that is under way, if there is one. Then `Do` waits for that result and does not run its function.
abbrev pub Group : Type 0
Group = ℕ → String → Option Reply

unfoldable pub cache_key : String → String → String
cache_key addr query = addr ++ "\0" ++ query

-- err == nil || errors.Is(err, ErrMissing)
abbrev pub cacheable : Option Error → Bool
cacheable none = true
cacheable (some e) = is_missing e

abbrev fresh : Clock → Option CacheEntry → CachingSource → Option Reply × CachingSource
fresh clock none c = (none, c)
fresh clock (some e) c =
    let (now, w) = time_now clock c.world in
    (if after now e.expires_at then none else some (e.sample, e.error), record c { world = w })

unfoldable pub load : Clock → String → CachingSource → Option Reply × CachingSource
load clock key c = fresh clock (lookup key c.entries) c

unfoldable pub store : Clock → String → Reply → Duration → CachingSource → CachingSource
store clock key reply ttl c =
    let (now, w) = time_now clock c.world in
    record c {
      world = w;
      entries =
          insert key
            (record { sample = reply.0; error = reply.1; expires_at = add_duration now ttl })
            c.entries;
    }

module _ (clock : Clock) (group : Group) (source : Source) where
  -- The function that `Get` hands to `Do`.
  unfoldable pub fetch : Bool → String → String → Duration → CachingSource → Reply × CachingSource
  fetch cancelled addr query ttl c =
      let (reply, w) = source cancelled addr query c.world in
      let c' = record c { world = w } in
      if ltb_ℤ (pos 0) ttl && cacheable reply.1
      then (reply, store clock (cache_key addr query) reply ttl c')
      else (reply, c')

  abbrev joined :
      Option Reply → Bool → String → String → Duration → CachingSource → Reply × CachingSource
  joined (some reply) cancelled addr query ttl c = (reply, c)
  joined none cancelled addr query ttl c = fetch cancelled addr query ttl c

  -- c.group.Do(key, …)
  unfoldable pub flight : Bool → String → String → Duration → CachingSource → Reply × CachingSource
  flight cancelled addr query ttl c =
      joined (group c.flights (cache_key addr query)) cancelled addr query ttl
        (record c { flights = c.flights + 1 })

  abbrev after_load :
      Option Reply × CachingSource → Bool → String → String → Duration → Reply × CachingSource
  after_load (some reply, c) cancelled addr query ttl = (reply, c)
  after_load (none, c) cancelled addr query ttl = flight cancelled addr query ttl c

  unfoldable pub get : Bool → String → String → Duration → CachingSource → Reply × CachingSource
  get cancelled addr query ttl c =
      if ltb_ℤ (pos 0) ttl
      then after_load (load clock (cache_key addr query) c) cancelled addr query ttl
      else flight cancelled addr query ttl c
