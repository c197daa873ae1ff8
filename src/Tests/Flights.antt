-- ===== src/Tests/Flights.antt =====
-- Two calls of `Get` for one query at once, over a singleflight that looks through the calls.
use inference_platform.Prelude.{
  insert, ℕ, zero, suc, ◌*◌, ◌<◌, ◌==◌, ◌≡◌, ◌≢◌, ◌⊎◌, inl, inr, refl, sym, ltb, ltb→lt, String,
  true, false, ◌&&◌, [], str_eq, eq_iff, Bool-cases, arith, lookup,
}
use inference_platform.Prelude.Int.{pos, ◌-ℤ◌, ◌+ℤ◌}
use inference_platform.Config.{default_queue_query}
use inference_platform.Go.Errors.{is_missing}
use inference_platform.Go.Float64.{fin, one_units}
use inference_platform.Go.Time.{second, difference, after, add_duration}
use inference_platform.Metrics.Source.{Reply, Source}
use inference_platform.Metrics.Cache.{CachingSource, new_caching_source, load, store, cache_key}
use inference_platform.Metrics.Cache.Given.{Given, AllGiven}
use inference_platform.Metrics.Cache.Concurrent.{
  Call, key_of, all_keys, Pc, entered, missed, flying, fetched, landed, waiting, returned,
  is_in_flight, Singleflight, System, update, at_start, miss, lead, join, ask, put, land, share,
  moved, Steps, still, after_step,
}
use inference_platform.Metrics.Cache.Concurrent.Safety.{returned-Given, one_query_at_once}
use inference_platform.Metrics.Cache.Concurrent.Freshness.{FreshStore, load_fresh}
use inference_platform.Tests.Data.{address, address-NoNul, world, ticking, answer_with, answering}

module _ (key : ℕ → String) where
  Alone : (ℕ → Pc) → ℕ → Type 0
  Alone pc i = (j : ℕ) → is_in_flight (pc j) ≡ true → key j ≢ key i

  Joins : (ℕ → Pc) → ℕ → ℕ → Type 0
  Joins pc i j = (is_in_flight (pc j) ≡ true) × (key i ≡ key j)

  not_last :
      (pc : ℕ → Pc) (i n j : ℕ)
      → (is_in_flight (pc n) && str_eq (key i) (key n)) ≡ false
      → is_in_flight (pc j) ≡ true
      → key j ≡ key i
      → j ≡ n
      → ⊥
  not_last pc i n j e up same last =
      let equal : str_eq (key i) (key n) ≡ true =
        (eq_iff (key i) (key n)).1 (rw last at (sym same)) in
      cc (rw (rw last at up, equal) at e)

  -- Among the calls below `n`.
  found_below :
      (pc : ℕ → Pc) (i n : ℕ)
      → ((j : ℕ) × Joins pc i j) ⊎ ((j : ℕ) → j < n → is_in_flight (pc j) ≡ true → key j ≢ key i)
  unfolding Joins
  found_below pc i zero = inr (λ j low. absurd (omega arith))
  found_below pc i (suc n) = elim (found_below pc i n) [
    | inl found ↦ inl found
    | inr lower ↦ elim (Bool-cases (is_in_flight (pc n) && str_eq (key i) (key n))) [
      | inl e ↦ inl (n, (ground (arith, e), (eq_iff (key i) (key n)).0 (ground (arith, e))))
      | inr e ↦ inr (λ j low up same. elim (Bool-cases (j == n)) [
        | inl last ↦ absurd (not_last pc i n j e up same (ground arith))
        | inr before ↦ lower j (ground arith) up same
      ])
    ]
  ]

  looking : Singleflight key
  unfolding Alone Joins
  looking = record {
    MayLead = Alone;
    MayJoin = Joins;
    alone = λ pc i may j up. may j up;
    same_key = λ pc i j may. may;
    decides = λ pc i n below. elim (found_below pc i n) [
      | inl found ↦ inr found
      | inr lower ↦ inl (λ j up. elim (Bool-cases (ltb j n)) [
        | inl low ↦ lower j (ltb→lt j n low) up
        | inr high ↦ absurd (cc (below j (ground arith), up))
      ])
    ];
  }

abbrev source : Source
source = answering (answer_with (fin false (6 * one_units)))

abbrev one_call : Call
one_call = record {
  cancelled = false;
  addr = address;
  query = default_queue_query;
  ttl = pos (15 * second);
}

abbrev group : Singleflight (all_keys (λ i. one_call))
group = looking (all_keys (λ i. one_call))

abbrev empty : CachingSource
empty = new_caching_source world

empty-AllGiven : AllGiven source empty
unfolding lookup
empty-AllGiven = record { given = λ addr query e n found. cc }

abbrev Run : System → Type 0
Run s = Steps ticking source (λ i. one_call) group (at_start empty) s

abbrev queue_reply : Reply
queue_reply = answer_with (fin false (6 * one_units)) address default_queue_query

-- Call 0 takes off, and call 1 joins it.
abbrev taken_off : System
taken_off = record {
  mem = record { world = record { ticks = 0; requests = 0 }; flights = 2; entries = [] };
  pc = update (update (update (update (λ i. entered) 0 missed) 1 missed) 0 flying) 1 (waiting 0);
}

none_up : (j : ℕ) → is_in_flight (update (update (λ i. entered) 0 missed) 1 missed j) ≡ false
none_up j = ground arith

first_flies : Alone (all_keys (λ i. one_call)) (update (update (λ i. entered) 0 missed) 1 missed) 0
unfolding Alone
first_flies j up = absurd (cc (none_up j, up))

run_off : Run taken_off
unfolding load lookup looking
run_off =
    after_step
      (after_step
        (after_step (after_step still (moved 0 (miss refl refl refl)))
          (moved 1 (miss refl refl refl)))
        (moved 0 (lead refl first_flies)))
      (moved 1 (join 0 refl (refl, refl)))

-- Call 0 has the answer of the source, which it stores and returns; call 1 shares it.
abbrev shared : System
shared = record {
  mem =
      store ticking (key_of one_call) queue_reply (pos (15 * second))
        (record taken_off.mem { world = record { ticks = 0; requests = 1 } });
  pc =
      update
        (update (update (update taken_off.pc 0 (fetched queue_reply)) 0 (landed queue_reply)) 0
          (returned queue_reply))
        1 (returned queue_reply);
}

run_shared : Run shared
unfolding is_missing
run_shared =
    after_step
      (after_step
        (after_step (after_step run_off (moved 0 (ask refl refl))) (moved 0 (put refl refl)))
        (moved 0 (land refl)))
      (moved 1 (share {j = 0} refl refl))

returned-Given_example : Given source address default_queue_query queue_reply
returned-Given_example =
    returned-Given ticking source (λ i. one_call) group (λ i. address-NoNul) empty empty-AllGiven
      shared run_shared 1 queue_reply refl

one_query_at_once_example : is_in_flight (taken_off.pc 1) ≡ false
one_query_at_once_example =
    one_query_at_once ticking source (λ i. one_call) group (λ i. address-NoNul) empty empty-AllGiven
      taken_off run_off 0 1 (λ e. absurd (ground arith)) refl refl refl

load_fresh_example : FreshStore ticking source (λ i. one_call) group empty shared 5 queue_reply
unfolding load store lookup cache_key after difference insert ◌-ℤ◌ add_duration ◌+ℤ◌
load_fresh_example =
    load_fresh ticking source (λ i. one_call) group empty shared 5 queue_reply (λ j. address-NoNul)
      refl run_shared refl
