-- ===== src/Tests/Caches.antt =====
-- The cache and the Prometheus source at concrete inputs.
use inference_platform.Prelude.{
  ◌*◌, ◌≡◌, ◌≢◌, refl, String, [], true, false, str_eq, eq_iff, lookup,
}
use inference_platform.Prelude.Int.{pos, ◌-ℤ◌}
use inference_platform.Config.{default_queue_query, default_kv_cache_query}
use inference_platform.Go.Errors.{new, is_missing}
use inference_platform.Go.Float64.{Float64, fin, one_units}
use inference_platform.Go.Time.{Duration, difference, second}
use inference_platform.Metrics.Source.{Reply, Source}
use inference_platform.Metrics.Cache.{
  CachingSource, new_caching_source, cache_key, load, fetch, flight, get,
}
use inference_platform.Metrics.Cache.Keys.{cache_key-inj}
use inference_platform.Metrics.Cache.Entries.{get_transient_error}
use inference_platform.Metrics.Cache.Ttl.{get-get}
use inference_platform.Metrics.Cache.Given.{AllGiven}
use inference_platform.Metrics.Cache.Answers.{IsConsistent, get-IsConsistent}
use inference_platform.Tests.Data.{
  address, address-NoNul, ticking, no_group, world, answer_with, answering, answers,
}

-- 6 waiting requests
abbrev queue : Float64
queue = fin false (6 * one_units)

abbrev source : Source
source = answering (answer_with queue)

abbrev ttl : Duration
ttl = pos (15 * second)

abbrev empty : CachingSource
empty = new_caching_source world

cache_key-inj_example : (address ≡ address) × (default_queue_query ≡ default_queue_query)
cache_key-inj_example =
    cache_key-inj address address default_queue_query default_queue_query address-NoNul
      address-NoNul refl

get-get_example :
    get ticking no_group source false address default_queue_query ttl
      (record (get ticking no_group source false address default_queue_query ttl empty).1 {
        world = record { ticks = 9; requests = 1 };
      })
    ≡ (
      (source false address default_queue_query world).0,
      record (get ticking no_group source false address default_queue_query ttl empty).1 {
        world = record { ticks = 10; requests = 1 };
      },
    )
unfolding lookup difference ◌-ℤ◌
get-get_example =
    get-get ticking no_group source false false address default_queue_query ttl ttl empty
      (record { ticks = 9; requests = 1 }) refl refl refl refl refl refl

get_transient_error_example :
    (get ticking no_group source false "http://other" default_queue_query ttl empty).1.entries ≡ []
unfolding get flight fetch load lookup cache_key is_missing
get_transient_error_example =
    get_transient_error ticking no_group source false "http://other" default_queue_query ttl empty
      (new "no such host") refl refl

other_key : cache_key address default_queue_query ≢ cache_key address default_kv_cache_query
unfolding cache_key
other_key e =
    let same : str_eq (cache_key address default_queue_query)
          (cache_key address default_kv_cache_query)
        ≡ true =
      (eq_iff _ _).1 e in
    cc

empty-IsConsistent : (f : String → String → Reply) → IsConsistent f empty
unfolding lookup
empty-IsConsistent f = record { answers = λ addr query e n found. cc }

get-IsConsistent_example :
    IsConsistent
      (answer_with queue)
      (get ticking no_group source true address default_queue_query ttl empty).1
get-IsConsistent_example =
    get-IsConsistent ticking (answers queue) true address default_queue_query ttl empty
      (empty-IsConsistent (answer_with queue))

empty-AllGiven : AllGiven source empty
unfolding lookup
empty-AllGiven = record { given = λ addr query e n found. cc }
