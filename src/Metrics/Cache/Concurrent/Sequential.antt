-- ===== src/Metrics/Cache/Concurrent/Sequential.antt =====
-- A call of `Get` that nothing interrupts is one of the interleavings.
use inference_platform.Prelude.{
  ℕ, ◌==◌, ◌≡◌, ◌≢◌, refl, sym, true, false, Option, none, some, if◌then◌else◌, Bool-cases, inl,
  inr, arith,
}
use inference_platform.Prelude.Int.{pos, ltb_ℤ}
use inference_platform.Metrics.Source.{Reply, World, Clock, Source}
use inference_platform.Metrics.Cache.{
  CachingSource, Group, load, after_load, store, get, flight, fetch,
}
use inference_platform.Metrics.Cache.Concurrent.{
  Call, key_of, all_keys, Pc, entered, missed, flying, fetched, landed, returned, is_in_flight,
  FlightsBelow, Singleflight, System, update, may_store, uncached, hit, miss, lead, ask, put, keep,
  land, moved, Steps, still, after_step,
}

-- No other call shares its flight.
abbrev pub alone_group : Group
alone_group n key = none

update_self : (f : ℕ → Pc) (i : ℕ) (p : Pc) → update f i p i ≡ p
update_self f i p = ground arith

module _ (clock : Clock) (source : Source) (calls : ℕ → Call)
    (group : Singleflight (all_keys calls)) (i : ℕ) where
  -- No call in flight has the key of the call `i`.
  Quiet : (ℕ → Pc) → Type 0
  Quiet pc = (j : ℕ) → is_in_flight (pc j) ≡ true → all_keys calls j ≢ all_keys calls i

  update-Quiet : (f : ℕ → Pc) (p : Pc) → is_in_flight p ≡ false → Quiet f → Quiet (update f i p)
  unfolding Quiet
  update-Quiet f p down q j = elim (Bool-cases (i == j)) [
    | inl e ↦ rw e (λ up. absurd (cc))
    | inr e ↦ rw e (q j)
  ]

  update-FlightsBelow :
      (f : ℕ → Pc) (p : Pc) (n : ℕ)
      → is_in_flight p ≡ false
      → FlightsBelow n f
      → FlightsBelow n (update f i p)
  update-FlightsBelow f p n down below j far = elim (Bool-cases (i == j)) [
    | inl e ↦ rw e down
    | inr e ↦ rw e (below j far)
  ]

  Quiet-leads : (pc : ℕ → Pc) (n : ℕ) → FlightsBelow n pc → Quiet pc → group.MayLead pc i
  unfolding Quiet
  Quiet-leads pc n below q = elim (group.decides pc i n below) [
    | inl may ↦ may
    | inr (j, may) ↦ (let (up, same) = group.same_key pc i j may in absurd (q j up (sym same)))
  ]

  -- From `s`, which steps lead to from `start`, further ones lead to where the call has returned
  -- this reply and left this cache.
  Returns : System → Reply × CachingSource → Type 0
  Returns start (reply, c) =
      (t : System) × Steps clock source calls group start t
      × (t.pc i ≡ returned reply)
      × (t.mem ≡ c)

  abbrev asked : CachingSource → Reply × World
  asked c = source (calls i).cancelled (calls i).addr (calls i).query c.world

  module _ (start s : System) (r : Steps clock source calls group start s) where
    landed-Returns :
        (reply : Reply) (c : CachingSource)
        → s.pc i ≡ landed reply
        → s.mem ≡ c
        → Returns start (reply, c)
    unfolding Returns
    landed-Returns reply c there same =
        (_, after_step r (moved i (land there)), update_self s.pc i (returned reply), same)

  module _ (start : System) where
    fetched-Returns :
        (s : System) (reply : Reply)
        → Steps clock source calls group start s
        → s.pc i ≡ fetched reply
        → Returns start (
          reply,
          if may_store clock source calls group i reply
              then store clock (key_of (calls i)) reply (calls i).ttl s.mem
              else s.mem,
        )
    fetched-Returns s reply r there =
        elim (Bool-cases (may_store clock source calls group i reply)) [
          | inl fit ↦ rw fit (
              landed-Returns start _ (after_step r (moved i (put there fit))) reply _
                (update_self s.pc i (landed reply)) refl)
          | inr unfit ↦ rw unfit (
              landed-Returns start _ (after_step r (moved i (keep there unfit))) reply _
                (update_self s.pc i (landed reply)) refl)
        ]

    flight-Returns :
        (s : System)
        → Steps clock source calls group start s
        → s.pc i ≡ missed
        → (n : ℕ) → FlightsBelow n s.pc
        → Quiet s.pc
        → Returns start (
            flight clock alone_group source
              (calls i).cancelled
              (calls i).addr
              (calls i).query
              (calls i).ttl
              s.mem)
    unfolding flight fetch Quiet
    flight-Returns s r there n below quiet =
        let off = after_step r (moved i (lead there (Quiet-leads s.pc n below quiet))) in
        let said = after_step off (moved i (ask (update_self s.pc i flying) refl)) in
        let done =
          fetched-Returns _ (asked s.mem).0 said (update_self (update s.pc i flying) i _) in
        elim (Bool-cases (may_store clock source calls group i (asked s.mem).0)) [
          | inl fit ↦ rw fit (rw fit at done)
          | inr unfit ↦ rw unfit (rw unfit at done)
        ]

    loaded-Returns :
        (s : System)
        → Steps clock source calls group start s
        → s.pc i ≡ entered
        → (n : ℕ) → FlightsBelow n s.pc
        → Quiet s.pc
        → ltb_ℤ (pos 0) (calls i).ttl ≡ true
        → (l : Option Reply × CachingSource) → load clock (key_of (calls i)) s.mem ≡ l
        → Returns start (
            after_load clock alone_group source l
              (calls i).cancelled
              (calls i).addr
              (calls i).query
              (calls i).ttl)
    unfolding Returns
    loaded-Returns s r there n below quiet on (some reply, c) found =
        (_, after_step r (moved i (hit there on found)), update_self s.pc i (returned reply), refl)
    loaded-Returns s r there n below quiet on (none, c) found =
        flight-Returns _ (after_step r (moved i (miss there on found))) (update_self s.pc i missed)
          n (update-FlightsBelow s.pc missed n refl below) (update-Quiet s.pc missed refl quiet)

    entered-Returns :
        (s : System)
        → Steps clock source calls group start s
        → s.pc i ≡ entered
        → (n : ℕ) → FlightsBelow n s.pc
        → Quiet s.pc
        → Returns start (
            get clock alone_group source
              (calls i).cancelled
              (calls i).addr
              (calls i).query
              (calls i).ttl
              s.mem)
    unfolding get
    entered-Returns s r there n below quiet = elim (Bool-cases (ltb_ℤ (pos 0) (calls i).ttl)) [
      | inr off ↦ rw off (
          flight-Returns _ (after_step r (moved i (uncached there off))) (update_self s.pc i missed)
            n (update-FlightsBelow s.pc missed n refl below) (update-Quiet s.pc missed refl quiet))
      | inl on ↦
          rw on
            (loaded-Returns s r there n below quiet on (load clock (key_of (calls i)) s.mem) refl)
    ]

-- A call of `Get` that starts while finitely many calls are in flight and none of them has its key,
-- and that no other call
-- interrupts, is one of the interleavings: steps lead from its start to a state where it has
-- returned the reply of `Get` without a shared flight, and has left the cache as `Get` leaves it.
pub get-Steps :
    (clock : Clock) (source : Source) (calls : ℕ → Call) (group : Singleflight (all_keys calls))
    (i n : ℕ) (s : System)
    → s.pc i ≡ entered
    → FlightsBelow n s.pc
    → ((j : ℕ) → is_in_flight (s.pc j) ≡ true → all_keys calls j ≢ all_keys calls i)
    → let (reply, c) =
        get clock alone_group source
          (calls i).cancelled
          (calls i).addr
          (calls i).query
          (calls i).ttl
          s.mem in
      (t : System) × Steps clock source calls group s t × (t.pc i ≡ returned reply) × (t.mem ≡ c)
unfolding Returns Quiet
get-Steps clock source calls group i n s there below quiet =
    entered-Returns clock source calls group i s s still there n below quiet
