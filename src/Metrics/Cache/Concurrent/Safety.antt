-- ===== src/Metrics/Cache/Concurrent/Safety.antt =====
-- What callers may rely on, however the calls interleave.
use inference_platform.Prelude.{ℕ, ◌≡◌, inl, inr, refl, true, false, ◌≢◌, Bool-cases}
use inference_platform.Metrics.Source.{Reply, Clock, Source}
use inference_platform.Metrics.Cache.{CachingSource}
use inference_platform.Metrics.Cache.Keys.{NoNul}
use inference_platform.Metrics.Cache.Given.{Given, AllGiven}
use inference_platform.Metrics.Cache.Concurrent.{
  Call, all_keys, returned, is_in_flight, Singleflight, System, at_start, Steps,
}
use inference_platform.Metrics.Cache.Concurrent.Invariant.{Steps-Inv, start-Inv}

module _ (clock : Clock) (source : Source) (calls : ℕ → Call)
    (group : Singleflight (all_keys calls)) (addressed : (i : ℕ) → NoNul (calls i).addr)
    (c : CachingSource) (v : AllGiven source c) (s : System)
    (r : Steps clock source calls group (at_start c) s) where
  -- Many calls of `Get` at once, for addresses without NUL, with the sections of the mutex, the
  -- queries of the source and the passages through singleflight interleaved in any order, from a
  -- cache whose every entry is a reply of the source for its own address and query: each call
  -- that returns gives a reply that the source gives for exactly this call's address and query.
  pub returned-Given :
      (i : ℕ) (reply : Reply)
      → s.pc i ≡ returned reply
      → Given source (calls i).addr (calls i).query reply
  returned-Given i reply e =
      let inv =
        Steps-Inv clock source calls group addressed r
          (start-Inv clock source calls group addressed c v) in
      let here = inv.fine i in rw e at here

  -- However the calls of `Get` interleave, for addresses without NUL and from a cache whose every
  -- entry is a reply of the source for its own address and query: while one call is in its flight,
  -- no other call for the same address and query is in one of its own.
  pub one_query_at_once :
      (i j : ℕ)
      → i ≢ j
      → is_in_flight (s.pc i) ≡ true
      → (calls i).addr ≡ (calls j).addr
      → (calls i).query ≡ (calls j).query
      → is_in_flight (s.pc j) ≡ false
  one_query_at_once i j other up one_addr one_query = elim (Bool-cases (is_in_flight (s.pc j))) [
    | inl up' ↦ absurd (
        other (
          (Steps-Inv clock source calls group addressed r
              (start-Inv clock source calls group addressed c v)).one_flight
            i j up up' (rw (one_addr, one_query) refl)))
    | inr down ↦ down
  ]
