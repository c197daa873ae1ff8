-- ===== src/Stream.antt =====
-- main.go: the polling loop of `StreamIsActive`.
pub mod Backoff
pub mod Invariant
pub mod Outcomes
pub mod Limits
pub mod Keeps
pub mod Counters
pub mod Requests
pub mod Progress
use inference_platform.Prelude.{Bool, true, false, List, [], ◌∷◌, Option, none, some, if◌then◌else◌}
use inference_platform.Prelude.Int.{ℤ, pos, ltb_ℤ, leb_ℤ}
use inference_platform.Config.{Config, parse}
use inference_platform.Go.Errors.{Error, too_many_failures}
use inference_platform.Go.Int64.{add64, mul64}
use inference_platform.Go.Time.{Duration}
use inference_platform.Observability.Instruments.{increment_grpc_request, increment_stream_error}
use inference_platform.Scaler.{
  Env, M, ◌>>=◌, ◌>>◌, pure, on_metrics, ScaledObjectRef, Result, ok, err, is_active,
}

abbrev pub max_stream_backoff_multiplier : ℤ
max_stream_backoff_multiplier = pos 8

unfoldable pub next_stream_backoff : Duration → Duration → Duration
unfolding mul64
next_stream_backoff current base =
    let next = mul64 current (pos 2) in
    let capped = mul64 base max_stream_backoff_multiplier in
    if ltb_ℤ capped next then capped else next

-- One outcome of the `select`: the stream's context is done, or the timer fires. A poll then has the
-- stream's context, cancelled or not; the last part is what `Send` returns if it is reached.
pub data Event : Type 0 where
  done : Event
  fired : Bool → Option Error → Event

-- The variables of the loop, with the durations that the timer was set to and the messages sent, the
-- latest first.
pub record Loop : Type 0 where
  pub backoff : Duration
  pub consecutive_failures : ℤ
  pub waits : List Duration
  pub sent : List Bool

-- `none` if the loop goes on, and else what `StreamIsActive` returns.
abbrev pub Return : Type 0
Return = Option (Option Error)

unfoldable pub start : Config → Loop
start c = record {
  backoff = c.stream_poll_interval;
  consecutive_failures = pos 0;
  waits = c.stream_poll_interval ∷ [];
  sent = [];
}

-- The branch of a failed poll.
unfoldable pub on_failure : ScaledObjectRef → Config → Error → Loop → Loop × Return
on_failure ref c e l =
    let failures = add64 l.consecutive_failures (pos 1) in
    let backoff = next_stream_backoff l.backoff c.stream_poll_interval in
    if leb_ℤ c.stream_max_consecutive_failures failures
    then (
      record l { consecutive_failures = failures },
      some (some (too_many_failures ref.namespace ref.name failures e)),
    )
    else (
      record l { consecutive_failures = failures; backoff = backoff; waits = backoff ∷ l.waits },
      none,
    )

-- The branch of a poll that succeeded, with what `Send` returns.
unfoldable pub on_success : Config → Bool → Option Error → Loop → Loop × Return
on_success c active (some e) l =
    (record l { consecutive_failures = pos 0; backoff = c.stream_poll_interval }, some (some e))
on_success c active none l = (
  record l {
    consecutive_failures = pos 0;
    backoff = c.stream_poll_interval;
    waits = c.stream_poll_interval ∷ l.waits;
    sent = active ∷ l.sent;
  },
  none,
)

unfoldable pub react :
    ScaledObjectRef → Config → Option Error → Loop → Result Bool → M (Loop × Return)
react ref c send l (err e) = do on_metrics increment_stream_error; pure (on_failure ref c e l)
react ref c send l (ok active) = pure (on_success c active send l)

module _ (env : Env) where
  unfoldable pub iteration : ScaledObjectRef → Config → Loop → Event → M (Loop × Return)
  iteration ref c l done = pure (l, some none)
  iteration ref c l (fired cancelled send) = do
    r ← is_active env cancelled ref
    react ref c send l r

  abbrev go_on : (Loop → M (Loop × Return)) → Loop × Return → M (Loop × Return)
  go_on rest (l, some r) = pure (l, some r)
  go_on rest (l, none) = rest l

  -- The loop, for the events that the environment makes.
  unfoldable pub loop : ScaledObjectRef → Config → List Event → Loop → M (Loop × Return)
  loop ref c [] l = pure (l, none)
  loop ref c (ev ∷ evs) l = do r ← iteration ref c l ev; go_on (loop ref c evs) r

  abbrev with_config :
      ScaledObjectRef → List Event → Config × Option Error → M (Option Loop × Return)
  with_config ref evs (c, some e) = pure (none, some (some e))
  with_config ref evs (c, none) = do r ← loop ref c evs (start c); pure (some r.0, r.1)

  unfoldable pub stream_is_active : ScaledObjectRef → List Event → M (Option Loop × Return)
  stream_is_active ref evs = do
    on_metrics (increment_grpc_request "StreamIsActive")
    with_config ref evs (parse ref.scaler_metadata)
