-- ===== src/Metrics/Cache/Forward.antt =====
-- A call of `Get` does not take the clock back.
use inference_platform.Prelude.{
  ◌+◌, ◌≤◌, String, Bool, ◌&&◌, Option, none, some, arith, lookup, Bool-cases, Option-cases, inl,
  inr,
}
use inference_platform.Prelude.Int.{pos, ltb_ℤ}
use inference_platform.Go.Time.{Duration, after}
use inference_platform.Metrics.Source.{World, Clock, Source}
use inference_platform.Metrics.Cache.{
  CacheEntry, CachingSource, Group, cache_key, cacheable, load, store, fetch, flight, get,
  after_load, fresh,
}

-- No query of the source takes readings of the clock back.
abbrev pub IsForward : Source → Type 0
IsForward source =
    (x : Bool) (addr query : String) (w : World) → w.ticks ≤ (source x addr query w).1.ticks

module _ (clock : Clock) (group : Group) (source : Source) (forward : IsForward source) (x : Bool)
    (addr query : String) (ttl : Duration) where
  fetch-IsForward :
      (c : CachingSource)
      → c.world.ticks ≤ (fetch clock group source x addr query ttl c).1.world.ticks
  unfolding fetch store
  fetch-IsForward c =
      let later = forward x addr query c.world in
      elim (Bool-cases (ltb_ℤ (pos 0) ttl && cacheable (source x addr query c.world).0.1)) [
        | inl e ↦ rw e (omega (arith, later))
        | inr e ↦ rw e later
      ]

  flight-IsForward :
      (c : CachingSource)
      → c.world.ticks ≤ (flight clock group source x addr query ttl c).1.world.ticks
  unfolding flight
  flight-IsForward c = elim (Option-cases (group c.flights (cache_key addr query))) [
    | inl e ↦ rw e (fetch-IsForward (record c { flights = c.flights + 1 }))
    | inr (r, e) ↦ rw e (omega arith)
  ]

  pub get-IsForward :
      (c : CachingSource)
      → c.world.ticks ≤ (get clock group source x addr query ttl c).1.world.ticks
  unfolding get load
  get-IsForward c = elim (Bool-cases (ltb_ℤ (pos 0) ttl)) [
    | inr p ↦ rw p (flight-IsForward c)
    | inl p ↦ rw p (by_entry (lookup (cache_key addr query) c.entries))
  ]
    where
      by_entry :
          (o : Option CacheEntry)
          → c.world.ticks
            ≤ (after_load clock group source (fresh clock o c) x addr query ttl).1.world.ticks
      by_entry none = flight-IsForward c
      by_entry (some e) =
          let looked : CachingSource = record c {
            world = record c.world { ticks = c.world.ticks + 1 };
          } in
          elim (Bool-cases (after (clock c.world.ticks) e.expires_at)) [
            | inl old ↦ rw old (omega (arith, flight-IsForward looked))
            | inr young ↦ rw young (omega arith)
          ]
