-- ===== src/Metrics/Cache/Ttl.antt =====
-- How long a reading is served from the cache.
use text.Mathlib.TextPositions.{eq_refl}
use inference_platform.Prelude.{
  ◌+◌, ◌≡◌, String, Bool, true, false, none, some, lookup, lookup-insert, if◌then◌else◌,
}
use inference_platform.Prelude.Int.{pos, ltb_ℤ}
use inference_platform.Go.Time.{Duration, difference}
use inference_platform.Go.Time.Laws.{after-add_duration}
use inference_platform.Metrics.Source.{Reply, World, Clock, Source, time_now}
use inference_platform.Metrics.Cache.{
  CachingSource, Group, cache_key, cacheable, load, store, fetch, flight, get,
}

-- A reading that is stored at one time and looked for at another is found exactly while no more than
-- its TTL has passed.
pub load-store :
    (clock : Clock) (key : String) (reply : Reply) (ttl : Duration) (c : CachingSource) (w : World)
    → (load clock key (record (store clock key reply ttl c) { world = w })).0
      ≡ (if ltb_ℤ ttl (difference (clock w.ticks) (clock c.world.ticks)) then none else some reply)
unfolding load store
load-store clock key reply ttl c w = rw (lookup-insert, eq_refl, after-add_duration)

module _ (clock : Clock) (group : Group) (source : Source) (cancelled : Bool) (addr query : String)
    (ttl : Duration) (c : CachingSource) where
  -- With a TTL that is not positive, where no other goroutine's query is shared, a call is one call
  -- of the source, and the entries are neither read nor written.
  pub get_uncached :
      ltb_ℤ (pos 0) ttl ≡ false
      → group c.flights (cache_key addr query) ≡ none
      → get clock group source cancelled addr query ttl c ≡ (
        (source cancelled addr query c.world).0,
        record c { world = (source cancelled addr query c.world).1; flights = c.flights + 1 },
      )
  unfolding get flight fetch
  get_uncached h g = rw (h, g, h)

  abbrev reply : Reply
  reply = (source cancelled addr query c.world).0

  abbrev answered : World
  answered = (source cancelled addr query c.world).1

  -- A query that this call makes itself stores its reply.
  get-miss :
      lookup (cache_key addr query) c.entries ≡ none
      → group c.flights (cache_key addr query) ≡ none
      → ltb_ℤ (pos 0) ttl ≡ true
      → cacheable reply.1 ≡ true
      → get clock group source cancelled addr query ttl c ≡ (
        reply,
        store clock
            (cache_key addr query)
            reply
            ttl
            (record c { world = answered; flights = c.flights + 1 }),
      )
  unfolding get flight fetch load
  get-miss absent alone positive ok = rw (positive, absent, alone, positive, ok)

module _ (clock : Clock) (group : Group) (source : Source) where
  get-hit :
      (cancelled : Bool) (addr query : String) (ttl ttl' : Duration) (reply : Reply)
      (c : CachingSource) (w : World)
      → ltb_ℤ (pos 0) ttl' ≡ true
      → ltb_ℤ ttl (difference (clock w.ticks) (clock c.world.ticks)) ≡ false
      → let c' = record (store clock (cache_key addr query) reply ttl c) { world = w } in
        get clock group source cancelled addr query ttl' c'
        ≡ (reply, record c' { world = (time_now clock w).1 })
  unfolding get load store
  get-hit cancelled addr query ttl ttl' reply c w positive young =
      rw (positive, lookup-insert, eq_refl, after-add_duration, young)

-- A reading or an absent series that a call with a positive TTL fetched, because its key was not in
-- the cache and no flight was shared, answers every later call for the same address and query with
-- a positive TTL of its own, as long as no more than the first call's TTL has passed since it was
-- stored and no other call came between: the same sample with its own time, the same error, no
-- query, and one look at the clock.
pub get-get :
    (clock : Clock) (group : Group) (source : Source) (cancelled cancelled' : Bool)
    (addr query : String) (ttl ttl' : Duration) (c : CachingSource) (w : World)
    → lookup (cache_key addr query) c.entries ≡ none
    → group c.flights (cache_key addr query) ≡ none
    → ltb_ℤ (pos 0) ttl ≡ true
    → ltb_ℤ (pos 0) ttl' ≡ true
    → cacheable (source cancelled addr query c.world).0.1 ≡ true
    → ltb_ℤ ttl (difference (clock w.ticks) (clock (source cancelled addr query c.world).1.ticks))
      ≡ false
    → let c' = (get clock group source cancelled addr query ttl c).1 in
      get clock group source cancelled' addr query ttl' (record c' { world = w })
      ≡ ((source cancelled addr query c.world).0, record c' { world = (time_now clock w).1 })
get-get clock group source x x' addr query ttl ttl' c w absent alone positive positive' ok young =
    rw (get-miss clock group source x addr query ttl c absent alone positive ok)
      (get-hit clock group source x' addr query ttl ttl' _ _ w positive' young)
