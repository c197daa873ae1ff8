-- ===== src/Stream/Invariant.antt =====
-- What holds of the polling loop, whatever the events and the polls' results.
use inference_platform.Prelude.{
  zero, Bool-cases, ℕ, suc, ◌*◌, ◌≤◌, ◌≡◌, ◌⊎◌, inl, inr, refl, sym, arith, Bool, true, false, List,
  [], ◌∷◌, ◌++◌, Option, none, some,
}
use inference_platform.Prelude.Int.{ℤ, pos, ◌+ℤ◌, ◌≤ℤ◌, ◌<ℤ◌, leb_ℤ}
use inference_platform.Go.Int64.{Fits64, add64, wrap64}
use inference_platform.Go.Errors.{Error, too_many_failures}
use inference_platform.Config.{Config}
use inference_platform.Scaler.{Env, Scaler, ScaledObjectRef, ok, is_active}
use inference_platform.Stream.{
  Event, fired, Loop, Return, start, on_failure, on_success, loop, next_stream_backoff,
}
use inference_platform.Stream.Backoff.{multiplier, next_stream_backoff_exact}

-- Every wait is from one poll interval to eight.
abbrev pub WithinBackoff : ℕ → List ℤ → Type 0
WithinBackoff b [] = Unit {0}
WithinBackoff b (w ∷ ws) = (pos b ≤ℤ w) × (w ≤ℤ pos (8 * b)) × WithinBackoff b ws

-- A configuration with a poll interval of `b` nanoseconds, of which 16 fit an int64, and a failure
-- limit that is an int.
pub record IsPolled (c : Config) (b : ℕ) : Type 0 where
  pub interval : c.stream_poll_interval ≡ pos b
  pub small : 16 * b ≤ 9223372036854775807
  pub limit_fits : Fits64 c.stream_max_consecutive_failures
  pub limit_positive : pos 0 <ℤ c.stream_max_consecutive_failures

-- Between two events: fewer failures in a row than the limit, and the backoff that they call for.
pub record IsRunning (c : Config) (b : ℕ) (l : Loop) : Type 0 where
  pub failures : ℕ
  pub counted : l.consecutive_failures ≡ pos failures
  pub below_limit : pos failures <ℤ c.stream_max_consecutive_failures
  pub backed_off : l.backoff ≡ pos (multiplier failures * b)
  pub bounded : WithinBackoff b l.waits

-- How the loop stands after some events: it goes on, or it returned nil, or it gave up with exactly
-- the limit of failures in a row, or with an error of which `Broken` tells.
abbrev pub Outcome : ScaledObjectRef → Config → ℕ → (Error → Type 0) → Loop → Return → Type 0
Outcome ref c b Broken l none = IsRunning c b l
Outcome ref c b Broken l (some none) = WithinBackoff b l.waits
Outcome ref c b Broken l (some (some e)) =
    WithinBackoff b l.waits
    × (((l.consecutive_failures ≡ c.stream_max_consecutive_failures)
          × ((cause : Error) × (e
                ≡ too_many_failures ref.namespace ref.name c.stream_max_consecutive_failures
                    cause)))
        ⊎ ((l.consecutive_failures ≡ pos 0) × Broken e))

-- One of the events is the last: before it the loop went on, its poll succeeded, and `Send` then
-- returned this error.
pub record SendFailed (env : Env) (ref : ScaledObjectRef) (c : Config) (evs : List Event) (l : Loop)
    (s : Scaler) (e : Error) : Type 0 where
  pub before : List Event
  pub since : List Event
  pub cancelled : Bool
  pub active : Bool
  pub split : evs ≡ before ++ fired cancelled (some e) ∷ since
  pub went_on : (loop env ref c before l s).0.1 ≡ none
  pub polled : (is_active env cancelled ref (loop env ref c before l s).1).0 ≡ ok active

pub Outcome-map :
    (ref : ScaledObjectRef) (c : Config) (b : ℕ) (B B' : Error → Type 0)
    → ((e : Error) → B e → B' e)
    → (l : Loop) (r : Return) → Outcome ref c b B l r
    → Outcome ref c b B' l r
Outcome-map ref c b B B' f l none o = o
Outcome-map ref c b B B' f l (some none) o = o
Outcome-map ref c b B B' f l (some (some e)) (w, inl gave_up) = (w, inl gave_up)
Outcome-map ref c b B B' f l (some (some e)) (w, inr (count, broken)) = (w, inr (count, f e broken))

multiplier_bounds : (k b : ℕ) → (b ≤ multiplier k * b) × (multiplier k * b ≤ 8 * b)
multiplier_bounds zero b = omega arith
multiplier_bounds (suc zero) b = omega arith
multiplier_bounds (suc (suc zero)) b = omega arith
multiplier_bounds (suc (suc (suc k))) b = omega arith

pub count_exact :
    (k : ℕ) (limit : ℤ) → Fits64 limit → pos k <ℤ limit → add64 (pos k) (pos 1) ≡ pos (suc k)
unfolding add64 wrap64 ◌+ℤ◌
count_exact k limit f h = ground arith

module _ (ref : ScaledObjectRef) (c : Config) (b : ℕ) (v : IsPolled c b) where
  interval_within : WithinBackoff b (c.stream_poll_interval ∷ [])
  interval_within = rw v.interval (omega arith)

  one_interval : pos b ≡ pos (1 * b)
  one_interval = ground arith

  pub start-IsRunning : IsRunning c b (start c)
  unfolding start
  start-IsRunning = record {
    failures = 0;
    counted = refl;
    below_limit = v.limit_positive;
    backed_off = rw v.interval one_interval;
    bounded = interval_within;
  }

  module _ (Broken : Error → Type 0) (e : Error) (l : Loop) (h : IsRunning c b l) where
    counted_next : add64 l.consecutive_failures (pos 1) ≡ pos (suc h.failures)
    counted_next = rw h.counted (count_exact h.failures _ v.limit_fits h.below_limit)

    backoff_next :
        next_stream_backoff l.backoff c.stream_poll_interval ≡ pos (multiplier (suc h.failures) * b)
    backoff_next = rw (h.backed_off, v.interval) (next_stream_backoff_exact b h.failures v.small)

    abbrev given_up : Loop
    given_up = record l { consecutive_failures = pos (suc h.failures) }

    abbrev retried : Loop
    retried = record l {
      consecutive_failures = pos (suc h.failures);
      backoff = pos (multiplier (suc h.failures) * b);
      waits = pos (multiplier (suc h.failures) * b) ∷ l.waits;
    }

    abbrev last_error : Error
    last_error = too_many_failures ref.namespace ref.name (pos (suc h.failures)) e

    waits_next : WithinBackoff b retried.waits
    waits_next =
        let (low, high) = multiplier_bounds (suc h.failures) b in
        (omega arith, omega arith, h.bounded)

    given_up-Outcome :
        leb_ℤ c.stream_max_consecutive_failures (pos (suc h.failures)) ≡ true
        → Outcome ref c b Broken given_up (some (some last_error))
    given_up-Outcome reached = (h.bounded, inl (sym limit, (e, cc limit)))
      where
        limit : c.stream_max_consecutive_failures ≡ pos (suc h.failures)
        limit = ground (arith, h.below_limit)

    retried-Outcome :
        leb_ℤ c.stream_max_consecutive_failures (pos (suc h.failures)) ≡ false
        → Outcome ref c b Broken retried none
    retried-Outcome missed = record {
      failures = suc h.failures;
      counted = refl;
      below_limit = ground arith;
      backed_off = refl;
      bounded = waits_next;
    }

  pub on_failure-Outcome :
      (Broken : Error → Type 0) (e : Error) (l : Loop)
      → IsRunning c b l
      → let (l', r) = on_failure ref c e l in Outcome ref c b Broken l' r
  unfolding on_failure
  on_failure-Outcome B e l h =
      elim (Bool-cases (leb_ℤ c.stream_max_consecutive_failures (pos (suc h.failures)))) [
        | inl t ↦ rw (counted_next B e l h, t) (given_up-Outcome B e l h t)
        | inr t ↦ rw (counted_next B e l h, backoff_next B e l h, t) (retried-Outcome B e l h t)
      ]

  pub on_success-Outcome :
      (Broken : Error → Type 0) (active : Bool) (send : Option Error) (l : Loop)
      → ((e : Error) → send ≡ some e → Broken e)
      → IsRunning c b l
      → let (l', r) = on_success c active send l in Outcome ref c b Broken l' r
  unfolding on_success
  on_success-Outcome B active none l broken h = record {
    failures = 0;
    counted = refl;
    below_limit = v.limit_positive;
    backed_off = rw v.interval one_interval;
    bounded = (interval_within.0, interval_within.1, h.bounded);
  }
  on_success-Outcome B active (some e) l broken h = (h.bounded, inr (refl, broken e refl))
