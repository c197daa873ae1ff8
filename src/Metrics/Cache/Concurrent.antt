-- ===== src/Metrics/Cache/Concurrent.antt =====
-- internal/metrics/cache.go with the calls of many goroutines at once: one step is a section of the
-- mutex, a query of the source, or a passage in or out of singleflight's `Do`.
pub mod Invariant
pub mod Safety
pub mod Sequential
pub mod Freshness
use inference_platform.Prelude.{
  ◌≤◌, ◌⊎◌, ℕ, ◌+◌, ◌==◌, ◌≡◌, ◌≢◌, String, Bool, true, false, ◌&&◌, Option, none, some,
  if◌then◌else◌,
}
use inference_platform.Prelude.Int.{pos, ltb_ℤ}
use inference_platform.Go.Time.{Duration}
use inference_platform.Metrics.Source.{Reply, World, Clock, Source}
use inference_platform.Metrics.Cache.{CachingSource, cache_key, cacheable, load, store}

-- The arguments of one `Get`, with whether its context is cancelled when the source is asked.
pub record Call : Type 0 where
  pub cancelled : Bool
  pub addr : String
  pub query : String
  pub ttl : Duration

abbrev pub key_of : Call → String
key_of c = cache_key c.addr c.query

-- Where a call stands.
pub data Pc : Type 0 where
  entered : Pc
  missed : Pc  -- before `c.group.Do`
  flying : Pc  -- in the function of `Do`, before `c.Source.Instant`
  fetched : Reply → Pc  -- before the test whether to store
  landed : Reply → Pc  -- the function has returned, the flight is still registered
  waiting : ℕ → Pc  -- in `Do`, for the function of another call
  returned : Reply → Pc

abbrev pub is_in_flight : Pc → Bool
is_in_flight flying = true
is_in_flight (fetched r) = true
is_in_flight (landed r) = true
is_in_flight _ = false

-- What the calls that wait for this one get, once its function has returned.
abbrev pub result_of : Pc → Option Reply
result_of (landed r) = some r
result_of (returned r) = some r
result_of _ = none

-- No call in flight has a number from `n` on.
abbrev pub FlightsBelow : ℕ → (ℕ → Pc) → Type 0
FlightsBelow n pc = (j : ℕ) → n ≤ j → is_in_flight (pc j) ≡ false

-- singleflight.Group, as its documentation says: of the calls of `Do` for one key only one runs its
-- function at a time; a call that comes meanwhile waits for that one and gets its results; and a
-- call does one or the other, of the finitely many that there are.
pub record Singleflight (key : ℕ → String) : Type 1 where
  pub MayLead : (ℕ → Pc) → ℕ → Type 0
  pub MayJoin : (ℕ → Pc) → ℕ → ℕ → Type 0
  pub alone :
      (pc : ℕ → Pc) (i : ℕ) → MayLead pc i → (j : ℕ) → is_in_flight (pc j) ≡ true → key j ≢ key i
  pub same_key :
      (pc : ℕ → Pc) (i j : ℕ) → MayJoin pc i j → (is_in_flight (pc j) ≡ true) × (key i ≡ key j)
  pub decides :
      (pc : ℕ → Pc) (i n : ℕ) → FlightsBelow n pc → MayLead pc i ⊎ ((j : ℕ) × MayJoin pc i j)

-- The shared cache, and the calls by number.
pub record System : Type 0 where
  pub mem : CachingSource
  pub pc : ℕ → Pc

abbrev pub update : (ℕ → Pc) → ℕ → Pc → ℕ → Pc
update f i p j = if i == j then p else f j

abbrev pub at_start : CachingSource → System
at_start c = record { mem = c; pc = λ i. entered }

abbrev pub all_keys : (ℕ → Call) → ℕ → String
all_keys calls i = key_of (calls i)

module _ (clock : Clock) (source : Source) (calls : ℕ → Call)
    (group : Singleflight (all_keys calls)) where
  abbrev pub may_store : ℕ → Reply → Bool
  may_store i reply = ltb_ℤ (pos 0) (calls i).ttl && cacheable reply.1

  -- A step of the call `i`, with the cache and the place that it leads to.
  pub data Move (s : System) (i : ℕ) : CachingSource → Pc → Type 0 where
    uncached : s.pc i ≡ entered → ltb_ℤ (pos 0) (calls i).ttl ≡ false → Move s i s.mem missed
    hit :
        {reply : Reply} {c : CachingSource}
        → s.pc i ≡ entered
        → ltb_ℤ (pos 0) (calls i).ttl ≡ true
        → load clock (key_of (calls i)) s.mem ≡ (some reply, c)
        → Move s i c (returned reply)
    miss :
        {c : CachingSource}
        → s.pc i ≡ entered
        → ltb_ℤ (pos 0) (calls i).ttl ≡ true
        → load clock (key_of (calls i)) s.mem ≡ (none, c)
        → Move s i c missed
    lead :
        s.pc i ≡ missed
        → group.MayLead s.pc i
        → Move s i (record s.mem { flights = s.mem.flights + 1 }) flying
    join :
        (j : ℕ)
        → s.pc i ≡ missed
        → group.MayJoin s.pc i j
        → Move s i (record s.mem { flights = s.mem.flights + 1 }) (waiting j)
    ask :
        {reply : Reply} {w : World}
        → s.pc i ≡ flying
        → source (calls i).cancelled (calls i).addr (calls i).query s.mem.world ≡ (reply, w)
        → Move s i (record s.mem { world = w }) (fetched reply)
    put :
        {reply : Reply}
        → s.pc i ≡ fetched reply
        → may_store i reply ≡ true
        → Move s i (store clock (key_of (calls i)) reply (calls i).ttl s.mem) (landed reply)
    keep :
        {reply : Reply}
        → s.pc i ≡ fetched reply
        → may_store i reply ≡ false
        → Move s i s.mem (landed reply)
    land : {reply : Reply} → s.pc i ≡ landed reply → Move s i s.mem (returned reply)
    share :
        {j : ℕ} {reply : Reply}
        → s.pc i ≡ waiting j
        → result_of (s.pc j) ≡ some reply
        → Move s i s.mem (returned reply)

  -- A step of some call, or other goroutines that read the clock and use the network.
  pub data Step (s : System) : System → Type 0 where
    moved :
        {c : CachingSource} {p : Pc} (i : ℕ)
        → Move s i c p
        → Step s (record { mem = c; pc = update s.pc i p })
    drifted : (w : World) → Step s (record s { mem = record s.mem { world = w } })

  pub data Steps (s : System) : System → Type 0 where
    still : Steps s s
    after_step : {t u : System} → Steps s t → Step t u → Steps s u
