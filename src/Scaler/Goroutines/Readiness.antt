-- ===== src/Scaler/Goroutines/Readiness.antt =====
-- What the readiness tells of Prometheus, while many handlers query it.
use inference_platform.Prelude.{
  ℕ, ◌≡◌, refl, ◌⊎◌, true, false, Bool, List, [], ◌∷◌, ◌++◌, some, Bool-cases, inl, inr, ◌∙◌, sym,
  ap,
}
use inference_platform.Prelude.Int.{ltb_ℤ}
use inference_platform.Config.{Config}
use inference_platform.Go.Time.{Time, sub}
use inference_platform.Metrics.Source.{Reply}
use inference_platform.Metrics.Cache.{cacheable}
use inference_platform.Metrics.Cache.Keys.{NoNul}
use inference_platform.Metrics.Cache.Given.{AllGiven, Given, IsHonest}
use inference_platform.Observability.Health.{Health, ready, record_success}
use inference_platform.Scaler.{Env, Scaler, on_metrics}
use inference_platform.Scaler.Interleaved.{counted, Round}
use inference_platform.Scaler.Interleaved.Replies.{BothStand}
use inference_platform.Scaler.Goroutines.{
  Occurrence, turn, elsewhere, none_begun, happen, happen_all,
}
use inference_platform.Scaler.Goroutines.Rounds.{AllStand, happen-AllStand}
use inference_platform.Scaler.Goroutines.Marks.{task_of, query_of, Marks, round_step-Marks}

module _ (env : Env) (configs : ℕ → Config) where
  -- One of the events is the step of a goroutine that has a reply of the source for its own query, a
  -- reading or an absent series, and marks a success at the time `last`.
  pub record MarkedBy (es : List Occurrence) (rounds : ℕ → Round) (s : Scaler) (last : Time)
      : Type 0 where
    pub before : List Occurrence
    pub since : List Occurrence
    pub round : ℕ
    pub of_kv : Bool
    pub cancelled : Bool
    pub reply : Reply
    pub split : es ≡ before ++ turn round (of_kv, cancelled) ∷ since
    pub has_reply : task_of of_kv ((happen_all env configs before rounds s).0 round) ≡ counted reply
    pub answered : cacheable reply.1 ≡ true
    pub given : Given env.source (configs round).prom_addr (query_of of_kv (configs round)) reply
    pub time : last ≡ env.clock (happen_all env configs before rounds s).1.cache.world.ticks

  later :
      (e : Occurrence) (es : List Occurrence) (rounds : ℕ → Round) (s : Scaler) (last : Time)
      → MarkedBy es (happen env configs e rounds s).0 (happen env configs e rounds s).1 last
      → MarkedBy (e ∷ es) rounds s last
  unfolding happen_all
  later e es rounds s last m = record {
    before = e ∷ m.before;
    since = m.since;
    round = m.round;
    of_kv = m.of_kv;
    cancelled = m.cancelled;
    reply = m.reply;
    split = ap (λ l. e ∷ l) m.split;
    has_reply = m.has_reply;
    answered = m.answered;
    given = m.given;
    time = m.time;
  }

  -- Between `hl` and `hl'` there was no success in these events, or the last is at `hl'.last_ok`.
  abbrev Since : List Occurrence → (ℕ → Round) → Scaler → Health → Health → Type 0
  Since es rounds s hl hl' =
      (hl'.started_at ≡ hl.started_at)
      × (hl'.window ≡ hl.window)
      × ((hl' ≡ hl) ⊎ MarkedBy es rounds s hl'.last_ok)

  module _ (h : IsHonest env.group env.source)
      (addressed : (n : ℕ) → NoNul (configs n).prom_addr) where
    counted-Given :
        (n : ℕ) (of_kv : Bool) (r : Round) (reply : Reply)
        → BothStand env h (configs n) (addressed n) r
        → task_of of_kv r ≡ counted reply
        → Given env.source (configs n).prom_addr (query_of of_kv (configs n)) reply
    counted-Given n true r reply (q, k) e = rw e at k
    counted-Given n false r reply (q, k) e = rw e at q

    module _ (es : List Occurrence) (rounds : ℕ → Round) (s : Scaler) (hl : Health)
        (st : AllStand env h configs addressed rounds) (there : s.health ≡ some hl) where
      -- The events from a scaler with this readiness end with one, since which all is told.
      abbrev Tells : Occurrence → Type 0
      Tells e =
          (hl' : Health) × ((happen_all env configs (e ∷ es) rounds s).1.health ≡ some hl')
          × Since (e ∷ es) rounds s hl hl'

      abbrev Next : Occurrence → Type 0
      Next e =
          (hl1 : Health)
          → (happen env configs e rounds s).1.health ≡ some hl1
          → (hl' : Health) × ((happen_all env configs (e ∷ es) rounds s).1.health ≡ some hl')
            × Since es (happen env configs e rounds s).0 (happen env configs e rounds s).1 hl1 hl'

      unmarked-Tells :
          (e : Occurrence) → (happen env configs e rounds s).1.health ≡ s.health → Next e → Tells e
      unmarked-Tells e same next =
          let (hl', there', (started, window, since)) = next hl (same ∙ there) in
          (
            hl',
            there',
            (
              started,
              window,
              elim since [ inl kept ↦ inl kept | inr m ↦ inr (later e es rounds s hl'.last_ok m) ],
            ),
          )

      turn-Tells :
          (n : ℕ) (of_kv x : Bool)
          → Marks env
              (task_of of_kv (rounds n))
              s
              (happen env configs (turn n (of_kv, x)) rounds s).1
          → Next (turn n (of_kv, x))
          → Tells (turn n (of_kv, x))
      unfolding Marks record_success happen_all
      turn-Tells n of_kv x (inl same) next = unmarked-Tells (turn n (of_kv, x)) same next
      turn-Tells n of_kv x (inr (r, has, fit, marked)) next =
          let now = env.clock s.cache.world.ticks in
          let (hl', there', (started, window, since)) =
            next (record hl { last_ok = now; has_ok = true })
              (marked ∙ ap (record_success now) there) in
          (
            hl',
            there',
            (
              started,
              window,
              elim since [
                | inr m ↦ inr (later (turn n (of_kv, x)) es rounds s hl'.last_ok m)
                | inl kept ↦ inr (record {
                  before = [];
                  since = es;
                  round = n;
                  of_kv = of_kv;
                  cancelled = x;
                  reply = r;
                  split = refl;
                  has_reply = has;
                  answered = fit;
                  given = counted-Given n of_kv (rounds n) r (st n) has;
                  time = ap (λ (y : Health). y.last_ok) kept;
                })
              ],
            ),
          )

    happen_all-Since :
        (es : List Occurrence) (rounds : ℕ → Round) (s : Scaler) (hl : Health)
        → AllStand env h configs addressed rounds
        → AllGiven env.source s.cache
        → s.health ≡ some hl
        → (hl' : Health) × ((happen_all env configs es rounds s).1.health ≡ some hl')
          × Since es rounds s hl hl'
    unfolding happen_all happen on_metrics
    happen_all-Since [] rounds s hl st v there = (hl, there, (refl, refl, inl refl))
    happen_all-Since (elsewhere f ∷ es) rounds s hl st v there =
        unmarked-Tells es rounds s hl st there (elsewhere f) refl
          (λ hl1 there1. happen_all-Since es rounds (on_metrics f s).1 hl1 st v there1)
    happen_all-Since (turn n (of_kv, x) ∷ es) rounds s hl st v there =
        let (st', v') = happen-AllStand env h configs addressed (turn n (of_kv, x)) rounds s st v in
        turn-Tells es rounds s hl st there n of_kv x
          (round_step-Marks env (configs n) of_kv x (rounds n) s)
          (λ hl1 there1. happen_all-Since es _ _ hl1 st' v' there1)

ready_by_success :
    (hl : Health) (now : Time)
    → ready now (some hl) ≡ true
    → ltb_ℤ (sub now hl.started_at) hl.window ≡ false
    → (hl.has_ok ≡ true) × (ltb_ℤ (sub now hl.last_ok) hl.window ≡ true)
unfolding ready
ready_by_success hl now is_ready old = elim (Bool-cases hl.has_ok) [
  | inl m ↦ (m, rw m at is_ready)
  | inr m ↦
      (let young : ltb_ℤ (sub now hl.started_at) hl.window ≡ true = rw m at is_ready in absurd cc)
]

-- Over a source whose flights share only its replies for their address and query, for addresses
-- without NUL, from a cache whose every entry is a reply of the source for its own address and query
-- and a readiness without a success: however the goroutines of any number of rounds interleave, if
-- the scaler is then ready at a time not within the window from the start, one of these steps was
-- that of a goroutine with a reading or an absent series that is a reply of the source for its own
-- query, and the time of that step is less than the window ago.
pub happen_all-Answered :
    (env : Env) (h : IsHonest env.group env.source) (configs : ℕ → Config)
    (addressed : (n : ℕ) → NoNul (configs n).prom_addr) (es : List Occurrence) (s : Scaler)
    (hl : Health) (now : Time)
    → AllGiven env.source s.cache
    → s.health ≡ some hl
    → hl.has_ok ≡ false
    → ltb_ℤ (sub now hl.started_at) hl.window ≡ false
    → ready now (happen_all env configs es none_begun s).1.health ≡ true
    → (last : Time) × MarkedBy env configs es none_begun s last
      × (ltb_ℤ (sub now last) hl.window ≡ true)
happen_all-Answered env h configs addressed es s hl now v e unmarked old is_ready =
    let (hl', e', (started, window, since)) =
      happen_all-Since env configs h addressed es none_begun s hl (λ n. (tt, tt)) v e in
    let (marked, young) =
      ready_by_success hl' now (ap (ready now) (sym e') ∙ is_ready) (rw (started, window) old) in
    elim since [
      | inl kept ↦ absurd (cc (marked, unmarked, ap (λ (y : Health). y.has_ok) kept))
      | inr m ↦ (hl'.last_ok, m, rw window at young)
    ]
