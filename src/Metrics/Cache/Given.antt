-- ===== src/Metrics/Cache/Given.antt =====
-- Where the replies of the cache come from, over a backend whose answers change with time.
use mathlib.Core.Path.{ap₂}
use inference_platform.Prelude.{
  ℕ, ◌≡◌, refl, sym, ap, ◌∙◌, String, Bool, true, false, ◌&&◌, Option, none, some, lookup, insert,
  lookup-insert, str_eq, if◌then◌else◌, eq_iff, Bool-cases, Option-cases, inl, inr,
}
use inference_platform.Prelude.Int.{pos, ltb_ℤ}
use inference_platform.Go.Time.{Duration}
use inference_platform.Metrics.Source.{Reply, World, Clock, Source}
use inference_platform.Metrics.Cache.{
  CacheEntry, CachingSource, Group, cache_key, cacheable, load, fetch, flight, get, after_load,
  fresh,
}
use inference_platform.Metrics.Cache.Keys.{NoNul, NoNul-cases, cache_key-inj}
use inference_platform.Metrics.Cache.Entries.{Said, get-Written}

-- The source gives this reply for this address and query, at some state of the clock and the network.
abbrev pub Given : Source → String → String → Reply → Type 0
Given source addr query reply = (x : Bool) × (w : World) × (reply ≡ (source x addr query w).0)

-- Every entry is a reply that the source gives for its address and query.
pub record AllGiven (source : Source) (c : CachingSource) : Type 0 where
  pub given :
      (addr query : String) (e : CacheEntry)
      → NoNul addr
      → lookup (cache_key addr query) c.entries ≡ some e
      → Given source addr query (e.sample, e.error)

-- What calls share with each other are replies of the source for the same address and query. An
-- address with NUL, which is no URL, gets no answer that may be cached.
pub record IsHonest (group : Group) (source : Source) : Type 0 where
  pub shared :
      (n : ℕ) (addr query : String) (r : Reply)
      → NoNul addr
      → group n (cache_key addr query) ≡ some r
      → Given source addr query r
  pub unaddressed :
      (x : Bool) (addr query : String) (w : World)
      → (NoNul addr → ⊥)
      → cacheable (source x addr query w).0.1 ≡ false

entry_reply : (e : CacheEntry) → Reply
entry_reply e = (e.sample, e.error)

module _ {source : Source} (addr query : String) where
  -- An entry that is one for its own address and query may be put in.
  pub put-AllGiven :
      (c c' : CachingSource) (e : CacheEntry)
      → c'.entries ≡ insert (cache_key addr query) e c.entries
      → NoNul addr
      → Given source addr query (e.sample, e.error)
      → AllGiven source c
      → AllGiven source c'
  unfolding entry_reply
  put-AllGiven c c' e put n g v = record {
    given = λ a' q e' m found. elim (Bool-cases (str_eq (cache_key addr query) (cache_key a' q))) [
      | inr other ↦ v.given a' q e' m (rw (put, lookup-insert, other) at found)
      | inl same ↦
          (let entry : some e ≡ some e' = rw (put, lookup-insert, same) at found in
            let one_entry : e ≡ e' = cc in
            let (one_addr, one_query) = cache_key-inj addr a' query q n m ((eq_iff _ _).0 same) in
            let (y, w, said) = g in
            (
              y,
              w,
              ap entry_reply (sym one_entry)
                  ∙ said
                  ∙ ap₂ (λ a b. (source y a b w).0) one_addr one_query,
            ))
    ];
  }

module _ (clock : Clock) {group : Group} {source : Source} (h : IsHonest group source) (x : Bool)
    (addr query : String) (ttl : Duration) where
  fetch-Given :
      (c : CachingSource) → Given source addr query (fetch clock group source x addr query ttl c).0
  unfolding fetch
  fetch-Given c =
      elim (Bool-cases (ltb_ℤ (pos 0) ttl && cacheable (source x addr query c.world).0.1)) [
        | inl e ↦ rw e (x, c.world, refl)
        | inr e ↦ rw e (x, c.world, refl)
      ]

  flight-Given :
      (c : CachingSource)
      → NoNul addr
      → Given source addr query (flight clock group source x addr query ttl c).0
  unfolding flight
  flight-Given c n = elim (Option-cases (group c.flights (cache_key addr query))) [
    | inl e ↦ rw e (fetch-Given _)
    | inr (r, e) ↦ rw e (h.shared c.flights addr query r n e)
  ]

  -- Over a source whose replies change with time, where calls share only replies of the source for
  -- the same address and query: `Get` for an address without NUL returns a reply that the source
  -- gives for exactly this address and query, if every entry of the cache is one for its own.
  pub get-Given :
      (c : CachingSource)
      → NoNul addr
      → AllGiven source c
      → Given source addr query (get clock group source x addr query ttl c).0
  unfolding get load
  get-Given c n v = elim (Bool-cases (ltb_ℤ (pos 0) ttl)) [
    | inr p ↦ rw p (flight-Given c n)
    | inl p ↦ rw p (by_entry (lookup (cache_key addr query) c.entries) refl)
  ]
    where
      by_age :
          (b : Bool) (e : CacheEntry) (w : World)
          → Given source addr query (e.sample, e.error)
          → Given source addr query
              (after_load clock group source
                (if b then none else some (e.sample, e.error), record c { world = w })
                x
                addr
                query
                ttl).0
      by_age true e w g = flight-Given _ n
      by_age false e w g = g

      by_entry :
          (o : Option CacheEntry)
          → lookup (cache_key addr query) c.entries ≡ o
          → Given source addr query
              (after_load clock group source (fresh clock o c) x addr query ttl).0
      by_entry none found = flight-Given c n
      by_entry (some e) found = by_age _ e _ (v.given addr query e n found)

  addressed_of_cacheable :
      (reply : Reply)
      → cacheable reply.1 ≡ true
      → Said clock group source x addr query ttl reply
      → NoNul addr
  addressed_of_cacheable reply ok (w, said) = elim (NoNul-cases addr) [
    | inr bad_char ↦ absurd (cc (said, ok, h.unaddressed x addr query w bad_char))
    | inl n ↦ n
  ]

  -- `Get`, in any context and for any address, keeps every entry a reply that the source gives for the
  -- entry's own address and query.
  pub get-AllGiven :
      (c : CachingSource)
      → AllGiven source c
      → AllGiven source (get clock group source x addr query ttl c).1
  get-AllGiven c v = elim ((get-Written clock group source x addr query ttl c).entries) [
    | inl same ↦ record { given = λ a' q e m found. v.given a' q e m (rw same at found) }
    | inr (t, put, ok, positive, said) ↦
        put-AllGiven addr query c _ _ put (addressed_of_cacheable _ ok said) (x, said.0, said.1) v
  ]
