-- ===== src/Scaler/Interleaved/Replies.antt =====
-- What the goroutines of a round rest on, a step at a time.
use inference_platform.Prelude.{
  ◌≡◌, String, Bool, true, false, Option, none, some, Bool-cases, inl, inr,
}
use inference_platform.Config.{Config}
use inference_platform.Go.Errors.{Error, is_missing}
use inference_platform.Metrics.Cache.Keys.{NoNul}
use inference_platform.Metrics.Cache.Given.{Given, IsHonest, get-Given}
use inference_platform.Scaler.{
  Env, Scaler, on_metrics, get_cached, Result, scored, wait_for, SaturationResult,
}
use inference_platform.Scaler.Keeps.{Keeps, tick-Keeps, success-Keeps, errors-Keeps, settle-Keeps}
use inference_platform.Scaler.Decisions.{settle-value, score_part}
use inference_platform.Scaler.Sources.{GivenCache, kept, From, FromReplies, From-FromReplies}
use inference_platform.Scaler.Interleaved.{
  Task, begun, timed, replied, stopped, measured, counted, booked, ended, Dimension, queue_of,
  kv_of, count_error, mark_success, task_step, Round, round_step, waited, outcome,
}

module _ (env : Env) (h : IsHonest env.group env.source) (c : Config)
    (addressed : NoNul c.prom_addr) where
  -- The reply of a goroutine is one of the source for its address and query.
  abbrev pub Stands : Dimension → Task → Type 0
  Stands d (replied t r) = Given env.source c.prom_addr d.query r
  Stands d (stopped t r) = Given env.source c.prom_addr d.query r
  Stands d (measured r) = Given env.source c.prom_addr d.query r
  Stands d (counted r) = Given env.source c.prom_addr d.query r
  Stands d (booked r) = Given env.source c.prom_addr d.query r
  Stands d (ended r) = From env h c addressed d.prefix d.query r
  Stands d _ = Unit {0}

  abbrev Cache : Scaler → Type 0
  Cache s = GivenCache env h c addressed s

  count_error-Keeps : (name : String) (e : Option Error) → Keeps Cache (count_error env name e)
  count_error-Keeps name none s v = v
  count_error-Keeps name (some e) s v = errors-Keeps (kept env h c addressed) name s v

  mark_success-Keeps : (e : Option Error) → Keeps Cache (mark_success env e)
  mark_success-Keeps none s v = success-Keeps (kept env h c addressed) s v
  mark_success-Keeps (some e) s v = elim (Bool-cases (is_missing e)) [
    | inl m ↦ rw m (success-Keeps (kept env h c addressed) s v)
    | inr m ↦ rw m v
  ]

  task_step-Stands :
      (d : Dimension) (x : Bool) (t : Task) (s : Scaler)
      → Stands d t
      → Cache s
      → Stands d (task_step env c d x t s).0 × Cache (task_step env c d x t s).1
  unfolding task_step get_cached on_metrics
  task_step-Stands d x begun s st v = (tt, tick-Keeps (kept env h c addressed) s v)
  task_step-Stands d x (timed start) s st v = (
    get-Given env.clock h x c.prom_addr d.query c.cache_ttl s.cache addressed v,
    (kept env h c addressed).got x c.prom_addr d.query c.cache_ttl s v,
  )
  task_step-Stands d x (replied start r) s st v = (st, tick-Keeps (kept env h c addressed) s v)
  task_step-Stands d x (stopped took r) s st v = (st, v)
  task_step-Stands d x (measured r) s st v = (st, count_error-Keeps d.name r.1 s v)
  task_step-Stands d x (counted r) s st v = (st, mark_success-Keeps r.1 s v)
  task_step-Stands d x (booked r) s st v = (
    (r, st, settle-value env c d.prefix r s),
    settle-Keeps (kept env h c addressed) c d.prefix r s v,
  )
  task_step-Stands d x (ended r) s st v = (st, v)

  -- Both goroutines stand on replies of the source.
  abbrev pub BothStand : Round → Type 0
  BothStand r = Stands (queue_of c) r.queue × Stands (kv_of c) r.kv

  pub round_step-Stand :
      (e : Bool × Bool) (r : Round) (s : Scaler)
      → BothStand r
      → Cache s
      → BothStand (round_step env c e r s).0 × Cache (round_step env c e r s).1
  unfolding round_step
  round_step-Stand (true, x) r s (q, k) v =
      let (k', v') = task_step-Stands (kv_of c) x r.kv s k v in ((q, k'), v')
  round_step-Stand (false, x) r s (q, k) v =
      let (q', v') = task_step-Stands (queue_of c) x r.queue s q v in ((q', k), v')

  waited-FromReplies :
      (first : Bool) (q k : Task) (res : Result SaturationResult)
      → Stands (queue_of c) q
      → Stands (kv_of c) k
      → waited c first q k ≡ some res
      → FromReplies env h c addressed first (score_part res)
  waited-FromReplies first (ended q) (ended k) res sq sk e =
      let same : scored c (wait_for first q k) ≡ res = cc in
      rw same at (From-FromReplies env h c addressed first q k sq sk)
  waited-FromReplies first (ended q) begun res sq sk e = cc
  waited-FromReplies first (ended q) (timed t) res sq sk e = cc
  waited-FromReplies first (ended q) (replied t r) res sq sk e = cc
  waited-FromReplies first (ended q) (stopped t r) res sq sk e = cc
  waited-FromReplies first (ended q) (measured r) res sq sk e = cc
  waited-FromReplies first (ended q) (counted r) res sq sk e = cc
  waited-FromReplies first (ended q) (booked r) res sq sk e = cc
  waited-FromReplies first begun k res sq sk e = cc
  waited-FromReplies first (timed t) k res sq sk e = cc
  waited-FromReplies first (replied t r) k res sq sk e = cc
  waited-FromReplies first (stopped t r) k res sq sk e = cc
  waited-FromReplies first (measured r) k res sq sk e = cc
  waited-FromReplies first (counted r) k res sq sk e = cc
  waited-FromReplies first (booked r) k res sq sk e = cc

  -- A round that has ended stands on two replies, or on an error of theirs.
  pub outcome-FromReplies :
      (r : Round) (res : Result SaturationResult)
      → BothStand r
      → outcome c r ≡ some res
      → FromReplies env h c addressed r.kv_first (score_part res)
  outcome-FromReplies r res (q, k) e = waited-FromReplies _ _ _ res q k e
