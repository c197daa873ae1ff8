-- ===== src/Metrics/Cache/Concurrent/Freshness.antt =====
-- How old an entry may be that the cache serves, however the calls interleave.
use mathlib.Core.Option.{none-ne-some}
use mathlib.Core.Path.{subst}
use inference_platform.Metrics.Cache.Keys.{NoNul, cache_key-inj}
use inference_platform.Prelude.{
  [], ℕ, ◌≡◌, refl, sym, ◌∙◌, String, true, false, Option, none, some, lookup, lookup-insert,
  str_eq, eq_iff, Bool-cases, inl, inr,
}
use inference_platform.Prelude.Int.{ltb_ℤ}
use inference_platform.Go.Time.{Time, after, add_duration, difference}
use inference_platform.Go.Time.Laws.{after-add_duration}
use inference_platform.Metrics.Source.{Reply, Clock, Source}
use inference_platform.Metrics.Cache.{CacheEntry, CachingSource, load, store, fresh}
use inference_platform.Metrics.Cache.Entries.{load-entries}
use inference_platform.Metrics.Cache.Concurrent.{
  Call, key_of, all_keys, Singleflight, Pc, fetched, landed, System, update, may_store, at_start,
  Step, Move, uncached, hit, miss, lead, join, ask, put, keep, land, share, moved, drifted, Steps,
  still, after_step,
}

module _ (clock : Clock) (key : String) where
  fresh-young :
      (o : Option CacheEntry) (c : CachingSource) (reply : Reply)
      → (fresh clock o c).0 ≡ some reply
      → (e : CacheEntry) × (o ≡ some e)
        × (after (clock c.world.ticks) e.expires_at ≡ false)
        × ((e.sample, e.error) ≡ reply)
  fresh-young none c reply h = cc
  fresh-young (some e) c reply h = elim (Bool-cases (after (clock c.world.ticks) e.expires_at)) [
    | inl old ↦ absurd (cc (rw old at h))
    | inr young ↦
        (let same : some (e.sample, e.error) ≡ some reply = rw young at h in (e, refl, young, cc))
  ]

  load-young :
      (c : CachingSource) (reply : Reply)
      → (load clock key c).0 ≡ some reply
      → (e : CacheEntry) × (lookup key c.entries ≡ some e)
        × (after (clock c.world.ticks) e.expires_at ≡ false)
        × ((e.sample, e.error) ≡ reply)
  unfolding load
  load-young c reply h = fresh-young (lookup key c.entries) c reply h

some_eq : (a e : CacheEntry) → some a ≡ some e → e ≡ a
some_eq a e h = let same : a ≡ e = cc in sym same

module _ (clock : Clock) (source : Source) (calls : ℕ → Call)
    (group : Singleflight (all_keys calls)) (begin : System) where
  -- In the run from `begin` to `s`, the call `k` stored this reply: the run leads to `before`, where
  -- the call has the reply and may store it, and goes on after the step that stores it.
  pub record StoredBy (k : ℕ) (reply : Reply) (s : System) : Type 1 where
    pub before : System
    pub led : Steps clock source calls group begin before
    pub has_reply : before.pc k ≡ fetched reply
    pub allowed : may_store clock source calls group k reply ≡ true
    pub since :
        Steps clock source calls group
          (record {
            mem = store clock (key_of (calls k)) reply (calls k).ttl before.mem;
            pc = update before.pc k (landed reply);
          })
          s

  -- The reading of the clock at which it was stored.
  abbrev pub stored_at : {k : ℕ} {reply : Reply} {s : System} → StoredBy k reply s → Time
  stored_at p = clock p.before.mem.world.ticks

  abbrev later :
      {k : ℕ} {reply : Reply} {s t : System}
      → Step clock source calls group s t
      → StoredBy k reply s
      → StoredBy k reply t
  later st p = record {
    before = p.before;
    led = p.led;
    has_reply = p.has_reply;
    allowed = p.allowed;
    since = after_step p.since st;
  }

  -- A call for this key stored the entry in the run, with its own TTL from then.
  abbrev FromStore : System → String → CacheEntry → Type 1
  FromStore s key e =
      (k : ℕ) × (all_keys calls k ≡ key)
      × (p : StoredBy k (e.sample, e.error) s) × (e.expires_at
          ≡ add_duration (stored_at p) (calls k).ttl)

  -- Every entry of the cache is from a store of the run to `s`.
  record AllStored (c : CachingSource) (s : System) : Type 1 where
    stored : (key : String) (e : CacheEntry) → lookup key c.entries ≡ some e → FromStore s key e

  same-AllStored :
      (c c' : CachingSource) (s t : System)
      → Step clock source calls group s t
      → c'.entries ≡ c.entries
      → AllStored c s
      → AllStored c' t
  same-AllStored c c' s t st same v = record {
    stored = λ key e found.
        let (k, one, p, expires) = v.stored key e (rw same at found) in
        (k, one, later st p, expires);
  }

  module _ (s : System) (r : Steps clock source calls group begin s) (v : AllStored s.mem s) where
    new_entry : ℕ → Reply → CacheEntry
    new_entry i reply = record {
      sample = reply.0;
      error = reply.1;
      expires_at = add_duration (clock s.mem.world.ticks) (calls i).ttl;
    }

    abbrev stored_now : ℕ → Reply → System
    stored_now i reply = record {
      mem = store clock (key_of (calls i)) reply (calls i).ttl s.mem;
      pc = update s.pc i (landed reply);
    }

    put_now :
        (i : ℕ) (reply : Reply) {key : String}
        → s.pc i ≡ fetched reply
        → may_store clock source calls group i reply ≡ true
        → all_keys calls i ≡ key
        → FromStore (stored_now i reply) key (new_entry i reply)
    unfolding new_entry
    put_now i reply has fit same = (
      i,
      same,
      record { before = s; led = r; has_reply = has; allowed = fit; since = still },
      refl,
    )

    put-AllStored :
        (i : ℕ) (reply : Reply)
        → s.pc i ≡ fetched reply
        → may_store clock source calls group i reply ≡ true
        → AllStored (stored_now i reply).mem (stored_now i reply)
    unfolding store new_entry
    put-AllStored i reply has fit = record {
      stored = λ key e found. elim (Bool-cases (str_eq (key_of (calls i)) key)) [
        | inr other ↦
            (let (k, one, p, expires) = v.stored key e (rw (lookup-insert, other) at found) in
              (k, one, later (moved i (put has fit)) p, expires))
        | inl same ↦
            (let this : e ≡ new_entry i reply =
                some_eq (new_entry i reply) e (rw (lookup-insert, same) at found) in
              subst (FromStore (stored_now i reply) key) (sym this)
                (put_now i reply has fit ((eq_iff _ _).0 same)))
      ];
    }

    loaded-AllStored :
        (i : ℕ) (o : Option Reply) (c : CachingSource) (t : System)
        → Step clock source calls group s t
        → load clock (key_of (calls i)) s.mem ≡ (o, c)
        → AllStored c t
    loaded-AllStored i o c t st found =
        same-AllStored s.mem c s t st
          (let same = load-entries clock (key_of (calls i)) s.mem in rw found at same) v

    Move-AllStored :
        (i : ℕ) {c : CachingSource} {p : Pc}
        → Move clock source calls group s i c p
        → AllStored c (record { mem = c; pc = update s.pc i p })
    Move-AllStored i (uncached e off) = same-AllStored s.mem _ s _ (moved i (uncached e off)) refl v
    Move-AllStored i (hit e on found) = loaded-AllStored i _ _ _ (moved i (hit e on found)) found
    Move-AllStored i (miss e on found) = loaded-AllStored i _ _ _ (moved i (miss e on found)) found
    Move-AllStored i (lead e may) = same-AllStored s.mem _ s _ (moved i (lead e may)) refl v
    Move-AllStored i (join j e may) = same-AllStored s.mem _ s _ (moved i (join j e may)) refl v
    Move-AllStored i (ask e said) = same-AllStored s.mem _ s _ (moved i (ask e said)) refl v
    Move-AllStored i (put e fit) = put-AllStored i _ e fit
    Move-AllStored i (keep e unfit) = same-AllStored s.mem _ s _ (moved i (keep e unfit)) refl v
    Move-AllStored i (land e) = same-AllStored s.mem _ s _ (moved i (land e)) refl v
    Move-AllStored i (share e there) = same-AllStored s.mem _ s _ (moved i (share e there)) refl v

  Steps-AllStored :
      {t : System}
      → Steps clock source calls group begin t
      → AllStored begin.mem begin
      → AllStored t.mem t
  Steps-AllStored still v = v
  Steps-AllStored (after_step r (moved i m)) v = Move-AllStored _ r (Steps-AllStored r v) i m
  Steps-AllStored (after_step r (drifted w)) v =
      same-AllStored _ _ _ _ (drifted w) refl (Steps-AllStored r v)

module _ (clock : Clock) (source : Source) (calls : ℕ → Call)
    (group : Singleflight (all_keys calls)) where
  -- The call `k`, for the address and the query of the call `i`, stored the reply in the run to `s`,
  -- and no more than its TTL has passed since.
  abbrev pub FreshStore : CachingSource → System → ℕ → Reply → Type 1
  FreshStore c s i reply =
      (k : ℕ) × ((calls k).addr ≡ (calls i).addr)
      × ((calls k).query ≡ (calls i).query)
      × (p : StoredBy clock source calls group (at_start c) k reply s) × (ltb_ℤ (calls k).ttl (
            difference (clock s.mem.world.ticks)
              (stored_at clock source calls group (at_start c) p))
          ≡ false)

  -- However the calls of `Get` interleave, for addresses without NUL and from a cache without entries:
  -- the reply that the cache gives to a call is one that a call for the same address and query had
  -- and stored in a step of the run, and no more than that call's TTL has passed since that step.
  pub load_fresh :
      (c : CachingSource) (s : System) (i : ℕ) (reply : Reply)
      → ((j : ℕ) → NoNul (calls j).addr)
      → c.entries ≡ []
      → Steps clock source calls group (at_start c) s
      → (load clock (key_of (calls i)) s.mem).0 ≡ some reply
      → FreshStore c s i reply
  unfolding lookup
  load_fresh c s i reply addressed none_there r found =
      let (e, there, young, given) = load-young clock (key_of (calls i)) s.mem reply found in
      let (k, same, p, expires) =
        (Steps-AllStored clock source calls group (at_start c) r
            (record { stored = λ key e' q. absurd (none-ne-some e' (rw none_there at q)) })).stored
          (key_of (calls i)) e there in
      let (one_addr, one_query) =
        cache_key-inj (calls k).addr (calls i).addr (calls k).query (calls i).query (addressed k)
          (addressed i) same in
      let passed : after (clock s.mem.world.ticks)
            (add_duration (stored_at clock source calls group (at_start c) p) (calls k).ttl)
          ≡ false =
        rw expires at young in
      subst (FreshStore c s i) given
        (k, one_addr, one_query, p, sym (after-add_duration _ _ (calls k).ttl) ∙ passed)
