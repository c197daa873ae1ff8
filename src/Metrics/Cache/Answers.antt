-- ===== src/Metrics/Cache/Answers.antt =====
-- A cache in front of a backend whose answers are a function of address and query.
use mathlib.Core.Path.{ap₂}
use inference_platform.Prelude.{
  ℕ, ◌⊎◌, ◌≡◌, refl, sym, ap, ◌∙◌, String, Bool, true, false, Option, none, some, lookup, insert,
  lookup-insert, str_eq, if◌then◌else◌, eq_iff, Bool-cases, Option-cases, inl, inr, ◌&&◌,
}
use inference_platform.Prelude.Int.{pos, ltb_ℤ}
use inference_platform.Go.Time.{Time, Duration}
use inference_platform.Metrics.Source.{Reply, World, Clock, Source}
use inference_platform.Metrics.Cache.{
  CacheEntry, CachingSource, Group, cache_key, cacheable, load, fetch, flight, get, after_load,
  fresh,
}
use inference_platform.Metrics.Cache.Keys.{NoNul, NoNul-cases, cache_key-inj}
use inference_platform.Metrics.Cache.Entries.{Said, get-Written}

-- Every entry holds the answer to its address and query.
pub record IsConsistent (f : String → String → Reply) (c : CachingSource) : Type 0 where
  pub answers :
      (addr query : String) (e : CacheEntry)
      → NoNul addr
      → lookup (cache_key addr query) c.entries ≡ some e
      → ((e.sample, e.error) ≡ f addr query)

-- A backend that answers by `f` for an address without NUL. What a call shares with another goroutine
-- is such an answer too, so that no leader of a flight is cancelled before its answer. Asked in a
-- cancelled context it answers so too, or with an error that is not cached; so is its answer
-- for an address with NUL, which is no URL.
pub record Answers (f : String → String → Reply) (group : Group) (source : Source) : Type 0 where
  pub backend :
      (addr query : String) (w : World) → NoNul addr → (source false addr query w).0 ≡ f addr query
  pub cancelled :
      (addr query : String) (w : World)
      → NoNul addr
      → ((source true addr query w).0 ≡ f addr query)
        ⊎ (cacheable (source true addr query w).0.1 ≡ false)
  pub unaddressed :
      (x : Bool) (addr query : String) (w : World)
      → (NoNul addr → ⊥)
      → cacheable (source x addr query w).0.1 ≡ false
  pub shared :
      (n : ℕ) (addr query : String) (r : Reply)
      → NoNul addr
      → group n (cache_key addr query) ≡ some r
      → r ≡ f addr query

reply_of_entry :
    (x e : CacheEntry) → some x ≡ some e → ◌≡◌ {A = Reply} (e.sample, e.error) (x.sample, x.error)
reply_of_entry x e p =
    let same : x ≡ e = cc in ap (λ (y : CacheEntry). (y.sample, y.error)) (sym same)

module _ {f : String → String → Reply} (clock : Clock) {group : Group} {source : Source}
    (a : Answers f group source) (addr query : String) (n : NoNul addr) (ttl : Duration) where
  fetch_reply :
      (c : CachingSource) → (fetch clock group source false addr query ttl c).0 ≡ f addr query
  unfolding fetch
  fetch_reply c =
      elim (Bool-cases (ltb_ℤ (pos 0) ttl && cacheable (source false addr query c.world).0.1)) [
        | inl e ↦ rw e (a.backend addr query c.world n)
        | inr e ↦ rw e (a.backend addr query c.world n)
      ]

  flight_reply :
      (c : CachingSource) → (flight clock group source false addr query ttl c).0 ≡ f addr query
  unfolding flight
  flight_reply c = elim (Option-cases (group c.flights (cache_key addr query))) [
    | inl e ↦ rw e (fetch_reply _)
    | inr (r, e) ↦ rw e (a.shared c.flights addr query r n e)
  ]

  get_reply :
      (c : CachingSource)
      → IsConsistent f c
      → (get clock group source false addr query ttl c).0 ≡ f addr query
  unfolding get load
  get_reply c v = elim (Bool-cases (ltb_ℤ (pos 0) ttl)) [
    | inr p ↦ rw p (flight_reply c)
    | inl p ↦ rw p (by_entry (lookup (cache_key addr query) c.entries) refl)
  ]
    where
      by_age :
          (b : Bool) (e : CacheEntry) (w : World)
          → ((e.sample, e.error) ≡ f addr query)
          → (after_load clock group source
              (if b then none else some (e.sample, e.error), record c { world = w })
              false
              addr
              query
              ttl).0
            ≡ f addr query
      by_age true e w h = flight_reply _
      by_age false e w h = h

      by_entry :
          (o : Option CacheEntry)
          → lookup (cache_key addr query) c.entries ≡ o
          → (after_load clock group source (fresh clock o c) false addr query ttl).0 ≡ f addr query
      by_entry none h = flight_reply c
      by_entry (some e) h = by_age _ e _ (v.answers addr query e n h)

  -- Over a backend whose answers are a function of address and query, through a cache that is
  -- consistent with it, a call for an address without NUL and in a context that is not cancelled
  -- gets the backend's answer, whether from the cache, from another goroutine's query or from a
  -- query of its own.
  pub get-Answers :
      (c : CachingSource)
      → IsConsistent f c
      → (get clock group source false addr query ttl c).0 ≡ f addr query
  get-Answers = get_reply

module _ {f : String → String → Reply} (clock : Clock) {group : Group} {source : Source}
    (a : Answers f group source) (x : Bool) (addr query : String) (ttl : Duration) where
  -- a reply of the source that may be cached is the answer, and the address has no NUL
  answer_of_source :
      (reply : Reply)
      → cacheable reply.1 ≡ true
      → Said clock group source x addr query ttl reply
      → NoNul addr × (reply ≡ f addr query)
  answer_of_source reply ok (w, said) = elim (NoNul-cases addr) [
    | inr bad_char ↦ absurd (cc (said, ok, a.unaddressed x addr query w bad_char))
    | inl n ↦ (n, by_context x said n)
  ]
    where
      by_context :
          (x : Bool) → reply ≡ (source x addr query w).0 → NoNul addr → reply ≡ f addr query
      by_context false said n = said ∙ a.backend addr query w n
      by_context true said n = elim (a.cancelled addr query w n) [
        | inl e ↦ said ∙ e
        | inr bad ↦ absurd (cc (said, ok, bad))
      ]

  put-IsConsistent :
      (c c' : CachingSource) (reply : Reply) (t : Time)
      → c'.entries
        ≡ insert
            (cache_key addr query)
            (record { sample = reply.0; error = reply.1; expires_at = t })
            c.entries
      → NoNul addr
      → reply ≡ f addr query
      → IsConsistent f c
      → IsConsistent f c'
  put-IsConsistent c c' reply t put n r v = record {
    answers = λ a' q e m h. elim (Bool-cases (str_eq (cache_key addr query) (cache_key a' q))) [
      | inr other ↦ v.answers a' q e m (rw (put, lookup-insert, other) at h)
      | inl same ↦
          (let entry : some (record { sample = reply.0; error = reply.1; expires_at = t })
                ≡ some e =
              rw (put, lookup-insert, same) at h in
            let (one_addr, one_query) = cache_key-inj addr a' query q n m ((eq_iff _ _).0 same) in
            reply_of_entry _ e entry ∙ r ∙ ap₂ f one_addr one_query)
    ];
  }

  -- Over a backend whose answers are a function of address and query, where the flights of other
  -- goroutines share only those answers, any call, also in a cancelled
  -- context or for an address with NUL, leaves a cache consistent that was consistent before.
  pub get-IsConsistent :
      (c : CachingSource)
      → IsConsistent f c
      → IsConsistent f (get clock group source x addr query ttl c).1
  get-IsConsistent c v = elim ((get-Written clock group source x addr query ttl c).entries) [
    | inl same ↦ record { answers = λ a' q e m h. v.answers a' q e m (rw same at h) }
    | inr (t, put, ok, positive, said) ↦
        (let (n, r) = answer_of_source _ ok said in put-IsConsistent c _ _ t put n r v)
  ]
