-- ===== src/Stream/Limits.antt =====
-- What `StreamIsActive` promises: bounded waits, and an end after the limit of failures in a row.
use inference_platform.Prelude.{
  ℕ, suc, ◌+◌, ◌*◌, ◌≤◌, ◌≡◌, refl, arith, Bool, List, [], ◌∷◌, Option, none, some, length, inl,
  inr, Bool-cases,
}
use inference_platform.Prelude.Int.{pos, leb_ℤ, ◌≤ℤ◌, ◌<ℤ◌}
use inference_platform.Go.Int64.{Fits64, add64}
use inference_platform.Config.{Config, parse}
use inference_platform.Config.Bounds.{IsValid, parse-IsValid}
use inference_platform.Go.Errors.{Error, too_many_failures}
use inference_platform.Scaler.{Env, Scaler, ScaledObjectRef, err, is_active, on_metrics, M}
use inference_platform.Observability.Instruments.{
  inc_grpc_request, increment_grpc_request, increment_stream_error,
}
use inference_platform.Scaler.Keeps.{is_active-Keeps}
use inference_platform.Stream.Keeps.{IsKeptByStreams}
use inference_platform.Stream.{
  Event, done, fired, Loop, Return, start, iteration, react, loop, go_on, with_config,
  stream_is_active, on_failure,
}
use inference_platform.Stream.Invariant.{
  Outcome, SendFailed, IsPolled, count_exact, start-IsRunning,
}
use inference_platform.Stream.Outcomes.{loop-Outcome}

IsValid-IsPolled :
    (c : Config) (b : ℕ)
    → IsValid c
    → c.stream_poll_interval ≡ pos b
    → 16 * b ≤ 9223372036854775807
    → IsPolled c b
IsValid-IsPolled c b v e small = record {
  interval = e;
  small = small;
  limit_fits = v.failures_fit;
  limit_positive = ground (arith, v.failures_positive);
}

with_config-Outcome :
    (env : Env) (ref : ScaledObjectRef) (evs : List Event) (s : Scaler) (b : ℕ) (c : Config)
    (e : Option Error)
    → IsPolled c b
    → e ≡ none
    → let ((o, r), s') = with_config env ref evs (c, e) s in
      (l : Loop) × (o ≡ some l) × Outcome ref c b (SendFailed env ref c evs (start c) s) l r
with_config-Outcome env ref evs s b c none v p =
    (_, refl, loop-Outcome ref c b v env evs (start c) s (start-IsRunning ref c b v))
with_config-Outcome env ref evs s b c (some e) v p = cc

-- The scaler when the stream has counted its request.
abbrev pub requested : Scaler → Scaler
requested s = (on_metrics (increment_grpc_request "StreamIsActive") s).1

-- A stream whose metadata parse, with a poll interval of which 16 fit an int64, whatever the
-- events, the polls and the sends: every wait between polls is from one to eight poll intervals;
-- while it goes on, its failures in a row are below the limit and the backoff is the poll interval
-- doubled for each of them, up to eightfold; and it ends with an error only with exactly as many
-- failures in a row as the limit and the error that counts them, or with none and the error that
-- `Send` returned, at one of the events, up to which it went on and whose poll succeeded.
pub stream_is_active-Outcome :
    (env : Env) (ref : ScaledObjectRef) (evs : List Event) (s : Scaler) (b : ℕ)
    → (parse ref.scaler_metadata).1 ≡ none
    → (parse ref.scaler_metadata).0.stream_poll_interval ≡ pos b
    → 16 * b ≤ 9223372036854775807
    → let ((o, r), s') = stream_is_active env ref evs s in
      let c = (parse ref.scaler_metadata).0 in
      (l : Loop) × (o ≡ some l)
      × Outcome ref c b (SendFailed env ref c evs (start c) (requested s)) l r
unfolding stream_is_active on_metrics
stream_is_active-Outcome env ref evs s b parsed interval small =
    with_config-Outcome env ref evs _ b _ _
      (IsValid-IsPolled _ b (parse-IsValid ref.scaler_metadata parsed) interval small) parsed

-- The timer fires each time.
abbrev pub AllFired : List Event → Type 0
AllFired [] = Unit {0}
AllFired (done ∷ evs) = ⊥
AllFired (fired x send ∷ evs) = AllFired evs

-- In every state that `P` holds of, a poll fails; and every step keeps `P`.
pub record PollsFail (env : Env) (ref : ScaledObjectRef) (P : Scaler → Type 0) : Type 0 where
  pub kept : IsKeptByStreams env P
  pub fails :
      (cancelled : Bool) (s : Scaler)
      → P s
      → (e : Error) × ((is_active env cancelled ref s).0 ≡ err e)

-- The loop gave up: after as many failures in a row as the limit says.
abbrev GaveUp : {A : Type 0} → ScaledObjectRef → Config → A × Return → Type 0
GaveUp ref c lr =
    (cause : Error) × (lr.1
      ≡ some
          (some (too_many_failures ref.namespace ref.name c.stream_max_consecutive_failures cause)))

module _ (env : Env) (ref : ScaledObjectRef) {P : Scaler → Type 0} (f : PollsFail env ref P)
    (c : Config) (fits : Fits64 c.stream_max_consecutive_failures) where
  go_on-GaveUp :
      (rest : Loop → M (Loop × Return)) (e : Error) (l : Loop) (s : Scaler) (k : ℕ)
      → l.consecutive_failures ≡ pos k
      → pos k <ℤ c.stream_max_consecutive_failures
      → ((l' : Loop)
          → l'.consecutive_failures ≡ pos (suc k)
          → pos (suc k) <ℤ c.stream_max_consecutive_failures
          → GaveUp ref c (rest l' s).0)
      → GaveUp ref c (go_on env rest (on_failure ref c e l) s).0
  unfolding on_failure
  go_on-GaveUp rest e l s k counted below next =
      let count : add64 l.consecutive_failures (pos 1) ≡ pos (suc k) =
        rw counted (count_exact k _ fits below) in
      elim (Bool-cases (leb_ℤ c.stream_max_consecutive_failures (pos (suc k)))) [
        | inl t ↦
            (let limit : pos (suc k) ≡ c.stream_max_consecutive_failures = ground arith in
              rw (count, t) (e, rw limit refl))
        | inr t ↦ rw (count, t) (next _ refl (ground arith))
      ]

  loop-GaveUp :
      (evs : List Event) (l : Loop) (s : Scaler) (k : ℕ)
      → P s
      → l.consecutive_failures ≡ pos k
      → pos k <ℤ c.stream_max_consecutive_failures
      → AllFired evs
      → c.stream_max_consecutive_failures ≤ℤ pos (k + length evs)
      → GaveUp ref c (loop env ref c evs l s).0
  unfolding loop iteration react on_metrics increment_stream_error
  loop-GaveUp [] l s k holds counted below all long = absurd (omega arith)
  loop-GaveUp (done ∷ evs) l s k holds counted below all long = absurd all
  loop-GaveUp (fired x send ∷ evs) l s k holds counted below all long =
      let (e, failed) = f.fails x s holds in
      let after = f.kept.failed _ (is_active-Keeps f.kept.unary x ref s holds) in
      rw failed (
        go_on-GaveUp (loop env ref c evs) e l _ k counted below (λ l' counted' below'.
          loop-GaveUp evs l' _ (suc k) after counted' below' all (omega arith)))

  with_config-GaveUp :
      (evs : List Event) (s : Scaler) (e : Option Error)
      → P s
      → e ≡ none
      → pos 0 <ℤ c.stream_max_consecutive_failures
      → AllFired evs
      → c.stream_max_consecutive_failures ≤ℤ pos (length evs)
      → GaveUp ref c (with_config env ref evs (c, e) s).0
  unfolding start
  with_config-GaveUp evs s none holds parsed positive all long =
      loop-GaveUp evs (start c) s 0 holds refl positive all (ground (arith, long))
  with_config-GaveUp evs s (some e) holds parsed positive all long = cc

-- A stream whose metadata parse, whose timer fires each time, at least as often as the failure
-- limit says, and whose every poll fails, in all states of a kind that holds at the start and that
-- every step keeps, ends with the error that counts exactly as many failures in a row as the limit.
pub stream_gives_up :
    (env : Env) (ref : ScaledObjectRef) (P : Scaler → Type 0) (evs : List Event) (s : Scaler)
    → (parse ref.scaler_metadata).1 ≡ none
    → PollsFail env ref P
    → P s
    → AllFired evs
    → (parse ref.scaler_metadata).0.stream_max_consecutive_failures ≤ℤ pos (length evs)
    → let c = (parse ref.scaler_metadata).0 in
      (cause : Error) × ((stream_is_active env ref evs s).0.1
        ≡ some (
            some
              (too_many_failures ref.namespace ref.name c.stream_max_consecutive_failures cause)))
unfolding stream_is_active on_metrics increment_grpc_request
stream_gives_up env ref P evs s parsed f holds all long =
    let v = parse-IsValid ref.scaler_metadata parsed in
    with_config-GaveUp env ref f _ v.failures_fit evs _ _
      (f.kept.unary.counted (inc_grpc_request "StreamIsActive") s (λ e. cc) holds) parsed
      (ground (arith, v.failures_positive)) all long
