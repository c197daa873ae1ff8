-- ===== src/Metrics/Cache/Entries.antt =====
-- What gets into the cache.
use inference_platform.Prelude.{
  ◌⊎◌, ◌+◌, insert, ◌≡◌, ◌≢◌, refl, String, Bool, true, false, Option, none, some, arith, lookup,
  lookup-insert, str_eq, if◌then◌else◌, eq_iff, Bool-cases, Option-cases, inl, inr,
}
use inference_platform.Prelude.Int.{pos, ltb_ℤ}
use inference_platform.Go.Errors.{Error, is_missing}
use inference_platform.Go.Time.{Time, Duration, after}
use inference_platform.Metrics.Source.{Reply, World, Clock, Source}
use inference_platform.Metrics.Cache.{
  CacheEntry, CachingSource, Group, cache_key, cacheable, load, store, fetch, flight, get,
  after_load, fresh,
}

-- Every entry is a reading or an absent series.
abbrev pub AllCacheable : CachingSource → Type 0
AllCacheable c =
    (key : String) (e : CacheEntry) → lookup key c.entries ≡ some e → cacheable e.error ≡ true

-- What one call may do to the entries: nothing, or add its reply, if `Said` holds of that, it may be
-- cached and the TTL is positive.
pub record Written (Said : Reply → Type 0) (key : String) (reply : Reply) (ttl : Duration)
    (c c' : CachingSource) : Type 0 where
  pub entries :
      (c'.entries ≡ c.entries)
      ⊎ ((t : Time) × (c'.entries
            ≡ insert key (record { sample = reply.0; error = reply.1; expires_at = t }) c.entries)
          × (cacheable reply.1 ≡ true)
          × (ltb_ℤ (pos 0) ttl ≡ true)
          × Said reply)

module _ (clock : Clock) (group : Group) (source : Source) (x : Bool) (addr query : String)
    (ttl : Duration) where
  -- The source gave this reply to the call.
  abbrev pub Said : Reply → Type 0
  Said reply = (w : World) × (reply ≡ (source x addr query w).0)

  fetch-Written :
      (c : CachingSource)
      → let (reply, c') = fetch clock group source x addr query ttl c in
        Written Said (cache_key addr query) reply ttl c c'
  unfolding fetch store
  fetch-Written c = elim (Bool-cases (ltb_ℤ (pos 0) ttl)) [
    | inl p ↦ elim (Bool-cases (cacheable (source x addr query c.world).0.1)) [
      | inl q ↦ record { entries = rw (p, q) (inr (_, refl, q, refl, (c.world, refl))) }
      | inr q ↦ record { entries = rw (p, q) (inl refl) }
    ]
    | inr p ↦ record { entries = rw p (inl refl) }
  ]

  flight-Written :
      (c : CachingSource)
      → let (reply, c') = flight clock group source x addr query ttl c in
        Written Said (cache_key addr query) reply ttl c c'
  unfolding flight
  flight-Written c = elim (Option-cases (group c.flights (cache_key addr query))) [
    | inl e ↦
        rw e (record { entries = (fetch-Written (record c { flights = c.flights + 1 })).entries })
    | inr (r, e) ↦ rw e (record { entries = inl refl })
  ]

  pub get-Written :
      (c : CachingSource)
      → let (reply, c') = get clock group source x addr query ttl c in
        Written Said (cache_key addr query) reply ttl c c'
  unfolding get load
  get-Written c = elim (Bool-cases (ltb_ℤ (pos 0) ttl)) [
    | inr p ↦ rw p (flight-Written c)
    | inl p ↦ rw p (by_entry (lookup (cache_key addr query) c.entries))
  ]
    where
      by_age :
          (b : Bool) (e : CacheEntry) (w : World)
          → let c' = record c { world = w } in
            let (reply, c'') =
              after_load clock group source
                (if b then none else some (e.sample, e.error), c')
                x
                addr
                query
                ttl in
            Written Said (cache_key addr query) reply ttl c c''
      by_age true e w = record { entries = (flight-Written (record c { world = w })).entries }
      by_age false e w = record { entries = inl refl }

      by_entry :
          (o : Option CacheEntry)
          → let (reply, c') = after_load clock group source (fresh clock o c) x addr query ttl in
            Written Said (cache_key addr query) reply ttl c c'
      by_entry none = flight-Written c
      by_entry (some e) = by_age _ e _

module _ {Said : Reply → Type 0} {key : String} {reply : Reply} {ttl : Duration}
    {c c' : CachingSource} (w : Written Said key reply ttl c c') where
  pub Written-AllCacheable : AllCacheable c → AllCacheable c'
  Written-AllCacheable h k e p = elim w.entries [
    | inl same ↦ h k e (rw same at p)
    | inr (t, put, ok, positive, said) ↦
        (let q : (if str_eq key k
                then some (record { sample = reply.0; error = reply.1; expires_at = t })
                else lookup k c.entries)
              ≡ some e =
            rw (put, lookup-insert) at p in
          ground (arith, h k e))
  ]

  pub Written-ne : (k : String) → key ≢ k → lookup k c'.entries ≡ lookup k c.entries
  Written-ne k ne = elim w.entries [
    | inl same ↦ rw same refl
    | inr (t, put, ok, positive, said) ↦ rw (put, lookup-insert) (ground (arith, eq_iff key k))
  ]

  pub Written-transient : cacheable reply.1 ≡ false → c'.entries ≡ c.entries
  Written-transient bad = elim w.entries [
    | inl same ↦ same
    | inr (t, put, ok, positive, said) ↦ cc (ok, bad)
  ]

module _ (clock : Clock) (group : Group) (source : Source) (x : Bool) (addr query : String)
    (ttl : Duration) (c : CachingSource) where
  -- `Get` keeps the invariant that the cache holds only readings and absent series.
  pub get-AllCacheable : AllCacheable c → AllCacheable (get clock group source x addr query ttl c).1
  get-AllCacheable = Written-AllCacheable (get-Written clock group source x addr query ttl c)

  -- A call that ends with an error other than an absent series leaves all entries as they were.
  pub get_transient_error :
      (e : Error)
      → (get clock group source x addr query ttl c).0.1 ≡ some e
      → is_missing e ≡ false
      → (get clock group source x addr query ttl c).1.entries ≡ c.entries
  get_transient_error e failed other =
      Written-transient (get-Written clock group source x addr query ttl c) (rw failed other)

  -- A call for one key leaves the entries of all other keys as they were.
  pub get-lookup_ne :
      (key : String)
      → cache_key addr query ≢ key
      → lookup key (get clock group source x addr query ttl c).1.entries ≡ lookup key c.entries
  get-lookup_ne key ne = Written-ne (get-Written clock group source x addr query ttl c) key ne

-- What a `load` finds, and that it changes no entry.
module _ (clock : Clock) (key : String) where
  fresh-entries :
      (o : Option CacheEntry) (c : CachingSource) → (fresh clock o c).1.entries ≡ c.entries
  fresh-entries none c = refl
  fresh-entries (some e) c = refl

  pub load-entries : (c : CachingSource) → (load clock key c).1.entries ≡ c.entries
  unfolding load
  load-entries c = fresh-entries (lookup key c.entries) c

  fresh-some :
      (o : Option CacheEntry) (c : CachingSource) (reply : Reply)
      → (fresh clock o c).0 ≡ some reply
      → (e : CacheEntry) × (o ≡ some e) × (reply ≡ (e.sample, e.error))
  fresh-some none c reply h = cc
  fresh-some (some e) c reply h = elim (Bool-cases (after (clock c.world.ticks) e.expires_at)) [
    | inl old ↦ absurd (cc (rw old at h))
    | inr young ↦
        (let same : ◌≡◌ {A = Option Reply} (some (e.sample, e.error)) (some reply) =
            rw young at h in
          (e, refl, cc))
  ]

  pub load-some :
      (c : CachingSource) (reply : Reply)
      → (load clock key c).0 ≡ some reply
      → (e : CacheEntry) × (lookup key c.entries ≡ some e) × (reply ≡ (e.sample, e.error))
  unfolding load
  load-some c reply h = fresh-some (lookup key c.entries) c reply h
