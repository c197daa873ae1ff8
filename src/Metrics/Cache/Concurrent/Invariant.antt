-- ===== src/Metrics/Cache/Concurrent/Invariant.antt =====
-- What holds however the calls interleave.
use inference_platform.Prelude.{
  ℕ, ◌==◌, ◌≡◌, ◌≢◌, ◌⊎◌, inl, inr, refl, sym, ap, ◌∙◌, true, ◌≢◌, Option, some, Bool-cases, arith,
}
use inference_platform.Metrics.Source.{Reply, World, Clock, Source}
use inference_platform.Metrics.Cache.{CachingSource, load, store}
use inference_platform.Metrics.Cache.Keys.{NoNul, cache_key-inj}
use inference_platform.Metrics.Cache.Entries.{load-entries, load-some}
use inference_platform.Metrics.Cache.Given.{Given, AllGiven, put-AllGiven}
use inference_platform.Metrics.Cache.Concurrent.{
  Call, key_of, all_keys, Pc, entered, missed, flying, fetched, landed, waiting, returned,
  is_in_flight, result_of, Singleflight, System, update, at_start, Move, uncached, hit, miss, lead,
  join, ask, put, keep, land, share, Step, moved, drifted, Steps, still, after_step,
}

module _ (clock : Clock) (source : Source) (calls : ℕ → Call)
    (group : Singleflight (all_keys calls)) (addressed : (i : ℕ) → NoNul (calls i).addr) where
  -- What the call `i` gets is a reply of the source for its own address and query.
  abbrev pub Own : ℕ → Reply → Type 0
  Own i reply = Given source (calls i).addr (calls i).query reply

  abbrev Fine : ℕ → Pc → Type 0
  Fine i (fetched r) = Own i r
  Fine i (landed r) = Own i r
  Fine i (returned r) = Own i r
  Fine i (waiting j) = all_keys calls i ≡ all_keys calls j
  Fine i _ = Unit {0}

  result-Own : (j : ℕ) (p : Pc) (r : Reply) → Fine j p → result_of p ≡ some r → Own j r
  result-Own j (landed q) r f h = let same : q ≡ r = cc in rw same at f
  result-Own j (returned q) r f h = let same : q ≡ r = cc in rw same at f
  result-Own j entered r f h = cc
  result-Own j missed r f h = cc
  result-Own j flying r f h = cc
  result-Own j (fetched q) r f h = cc
  result-Own j (waiting k) r f h = cc

  shared-Own : (i j : ℕ) (r : Reply) → all_keys calls i ≡ all_keys calls j → Own j r → Own i r
  shared-Own i j r same (x, w, said) =
      let (one_addr, one_query) =
        cache_key-inj (calls i).addr (calls j).addr (calls i).query (calls j).query (addressed i)
          (addressed j) same in
      (x, w, rw (one_addr, one_query) said)

  -- Every entry of the cache and every result of a call is one for its own address and query, and of
  -- the calls in flight no two have one key.
  pub record Inv (s : System) : Type 0 where
    pub cached : AllGiven source s.mem
    pub fine : (i : ℕ) → Fine i (s.pc i)
    pub one_flight :
        (i j : ℕ)
        → is_in_flight (s.pc i) ≡ true
        → is_in_flight (s.pc j) ≡ true
        → all_keys calls i ≡ all_keys calls j
        → i ≡ j

  same_entries-AllGiven :
      (c c' : CachingSource) → c'.entries ≡ c.entries → AllGiven source c → AllGiven source c'
  same_entries-AllGiven c c' same v = record {
    given = λ addr query e n found. v.given addr query e n (rw same at found);
  }

  module _ (s : System) (inv : Inv s) (i : ℕ) where
    stands : (p : Pc) → s.pc i ≡ p → Fine i p
    stands p e = let here = inv.fine i in rw e at here

    hit-Own :
        (c : CachingSource) (reply : Reply)
        → load clock (key_of (calls i)) s.mem ≡ (some reply, c)
        → Own i reply
    hit-Own c reply found =
        let (e, there, same) = load-some clock (key_of (calls i)) s.mem reply (rw found refl) in
        rw same (inv.cached.given (calls i).addr (calls i).query e (addressed i) there)

    loaded-AllGiven :
        (c : CachingSource) (o : Option Reply)
        → load clock (key_of (calls i)) s.mem ≡ (o, c)
        → AllGiven source c
    loaded-AllGiven c o found =
        same_entries-AllGiven s.mem c
          (let same = load-entries clock (key_of (calls i)) s.mem in rw found at same) inv.cached

    put-cached :
        (reply : Reply)
        → Own i reply
        → AllGiven source (store clock (key_of (calls i)) reply (calls i).ttl s.mem)
    unfolding store
    put-cached reply own =
        put-AllGiven (calls i).addr (calls i).query s.mem _ _ refl (addressed i) own inv.cached

    Move-cached :
        {c : CachingSource} {p : Pc} → Move clock source calls group s i c p → AllGiven source c
    Move-cached (uncached at_entry off) = inv.cached
    Move-cached (hit at_entry on found) = loaded-AllGiven _ _ found
    Move-cached (miss at_entry on found) = loaded-AllGiven _ _ found
    Move-cached (lead at_do may) = same_entries-AllGiven s.mem _ refl inv.cached
    Move-cached (join j at_do may) = same_entries-AllGiven s.mem _ refl inv.cached
    Move-cached (ask at_source said) = same_entries-AllGiven s.mem _ refl inv.cached
    Move-cached (put at_test ok) = put-cached _ (stands _ at_test)
    Move-cached (keep at_test unfit) = inv.cached
    Move-cached (land at_end) = inv.cached
    Move-cached (share in_do there) = inv.cached

    Move-Fine : {c : CachingSource} {p : Pc} → Move clock source calls group s i c p → Fine i p
    Move-Fine (uncached at_entry off) = tt
    Move-Fine (hit at_entry on found) = hit-Own _ _ found
    Move-Fine (miss at_entry on found) = tt
    Move-Fine (lead at_do may) = tt
    Move-Fine (join j at_do may) = (group.same_key s.pc i j may).1
    Move-Fine (ask at_source said) =
        ((calls i).cancelled, s.mem.world, sym (ap (λ (x : Reply × World). x.0) said))
    Move-Fine (put at_test ok) = stands _ at_test
    Move-Fine (keep at_test unfit) = stands _ at_test
    Move-Fine (land at_end) = stands _ at_end
    Move-Fine (share {j} in_do there) =
        shared-Own i j _ (stands _ in_do) (result-Own j (s.pc j) _ (inv.fine j) there)

    -- A call in flight was in flight before the step, or takes off alone.
    Flies : Pc → Type 0
    Flies p =
        is_in_flight p ≡ true
        → (is_in_flight (s.pc i) ≡ true)
          ⊎ ((j : ℕ) → is_in_flight (s.pc j) ≡ true → all_keys calls j ≢ all_keys calls i)

    Move-Flies : {c : CachingSource} {p : Pc} → Move clock source calls group s i c p → Flies p
    unfolding Flies
    Move-Flies (uncached at_entry off) up = cc
    Move-Flies (hit at_entry on found) up = cc
    Move-Flies (miss at_entry on found) up = cc
    Move-Flies (lead at_do may) up = inr (group.alone s.pc i may)
    Move-Flies (join j at_do may) up = cc
    Move-Flies (ask at_source said) up = inl (rw at_source refl)
    Move-Flies (put at_test ok) up = inl (rw at_test refl)
    Move-Flies (keep at_test unfit) up = inl (rw at_test refl)
    Move-Flies (land at_end) up = cc
    Move-Flies (share in_do there) up = cc

    update-Fine : (p : Pc) → Fine i p → (j : ℕ) → Fine j (update s.pc i p j)
    update-Fine p f j = elim (Bool-cases (i == j)) [
      | inl e ↦ (let same : i ≡ j = ground arith in rw e (rw same at f))
      | inr e ↦ rw e (inv.fine j)
    ]

    one_beside :
        (p : Pc) (j : ℕ)
        → Flies p
        → is_in_flight p ≡ true
        → is_in_flight (s.pc j) ≡ true
        → all_keys calls i ≡ all_keys calls j
        → i ≡ j
    unfolding Flies
    one_beside p j flies up other same = elim (flies up) [
      | inl before ↦ inv.one_flight i j before other same
      | inr alone ↦ absurd (alone j other (sym same))
    ]

    update-one :
        (p : Pc)
        → Flies p
        → (a b : ℕ) → is_in_flight (update s.pc i p a) ≡ true
        → is_in_flight (update s.pc i p b) ≡ true
        → all_keys calls a ≡ all_keys calls b
        → a ≡ b
    update-one p flies a b = elim (Bool-cases (i == a)) [
      | inl ea ↦ elim (Bool-cases (i == b)) [
        | inl eb ↦ (λ up up' same. ground arith)
        | inr eb ↦
            (let at_a : i ≡ a = ground arith in
              rw (ea, eb) (λ up up' same. sym at_a ∙ one_beside p b flies up up' (rw at_a same)))
      ]
      | inr ea ↦ elim (Bool-cases (i == b)) [
        | inl eb ↦
            (let at_b : i ≡ b = ground arith in
              rw (ea, eb)
                (λ up up' same. sym (one_beside p a flies up' up (rw at_b (sym same))) ∙ at_b))
        | inr eb ↦ rw (ea, eb) (λ up up' same. inv.one_flight a b up up' same)
      ]
    ]

  Step-Inv : {s t : System} → Step clock source calls group s t → Inv s → Inv t
  Step-Inv (moved i m) inv = record {
    cached = Move-cached _ inv i m;
    fine = update-Fine _ inv i _ (Move-Fine _ inv i m);
    one_flight = update-one _ inv i _ (Move-Flies _ inv i m);
  }
  Step-Inv (drifted w) inv = record {
    cached = same_entries-AllGiven _ _ refl inv.cached;
    fine = inv.fine;
    one_flight = inv.one_flight;
  }

  pub Steps-Inv : {s t : System} → Steps clock source calls group s t → Inv s → Inv t
  Steps-Inv still inv = inv
  Steps-Inv (after_step r step) inv = Step-Inv step (Steps-Inv r inv)

  pub start-Inv : (c : CachingSource) → AllGiven source c → Inv (at_start c)
  start-Inv c v = record { cached = v; fine = λ i. tt; one_flight = λ i j up up' same. cc }
