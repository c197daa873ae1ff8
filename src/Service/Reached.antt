-- ===== src/Service/Reached.antt =====
-- What holds in every state that calls of the service lead to.
use mathlib.Core.Option.{none-ne-some}
use inference_platform.Prelude.{
  ◌≡◌, sym, ap, String, Bool, false, List, [], Option, none, some, lookup,
}
use inference_platform.Config.{Config, Metadata, parse}
use inference_platform.Go.Errors.{Error}
use inference_platform.Go.Float64.{gtb}
use inference_platform.Metrics.Source.{Source, Reply, World}
use inference_platform.Metrics.Cache.{CacheEntry, CachingSource}
use inference_platform.Metrics.Cache.Keys.{NoNul}
use inference_platform.Metrics.Cache.Entries.{AllCacheable}
use inference_platform.Metrics.Cache.Answers.{Answers, IsConsistent}
use inference_platform.Scaler.{saturation_for, Env, Scaler, ScaledObjectRef, is_active}
use inference_platform.Scaler.Keeps.{is_active-Keeps, get_metric_spec-Keeps, get_metrics-Keeps}
use inference_platform.Scaler.Invariants.{AllGiven-IsKept, AllCacheable-IsKept, IsConsistent-IsKept}
use inference_platform.Scaler.Decisions.{score_part, map_result, expected_score}
use inference_platform.Metrics.Cache.Given.{IsHonest, AllGiven}
use inference_platform.Scaler.Sources.{FromReplies, saturation_for-FromReplies}
use inference_platform.Scaler.Methods.{when_parsed, is_active-expected}
use inference_platform.Stream.Keeps.{IsKeptByStreams, stream_is_active-Keeps}
use inference_platform.Service.{
  Step, is_active_called, get_metric_spec_called, get_metrics_called, stream_is_active_called,
  Reachable, started, called, Process, launch,
}

module _ {env : Env} {P : Scaler → Type 0} (k : IsKeptByStreams env P) where
  step-IsKept : {s s' : Scaler} → Step env s s' → P s → P s'
  step-IsKept (is_active_called x ref s) h = is_active-Keeps k.unary x ref s h
  step-IsKept (get_metric_spec_called s) h = get_metric_spec-Keeps k.unary s h
  step-IsKept (get_metrics_called x ref s) h = get_metrics-Keeps k.unary x (some ref) s h
  step-IsKept (stream_is_active_called ref evs s) h = stream_is_active-Keeps k ref evs s h

  reachable-IsKept : {start s : Scaler} → Reachable env start s → P start → P s
  reachable-IsKept started h = h
  reachable-IsKept (called r step) h = step-IsKept step (reachable-IsKept r h)

entries_of : Option Process → List (String × CacheEntry)
entries_of none = []
entries_of (some p) = p.scaler.cache.entries

launched_entries :
    (env : Env) (vars : Metadata) (e : Option Error) (w : World) (p : Process)
    → launch env.clock vars e w ≡ some p
    → p.scaler.cache.entries ≡ []
unfolding launch entries_of
launched_entries env vars none w p h = sym (ap entries_of h)
launched_entries env vars (some e) w p h = cc

empty-AllCacheable : (c : CachingSource) → c.entries ≡ [] → AllCacheable c
unfolding lookup
empty-AllCacheable c none_there key e found = absurd (none-ne-some e (rw none_there at found))

empty-IsConsistent :
    (f : String → String → Reply) (c : CachingSource) → c.entries ≡ [] → IsConsistent f c
unfolding lookup
empty-IsConsistent f c none_there = record {
  answers = λ addr query e n found. absurd (none-ne-some e (rw none_there at found));
}

empty-AllGiven : (source : Source) (c : CachingSource) → c.entries ≡ [] → AllGiven source c
unfolding lookup
empty-AllGiven source c none_there = record {
  given = λ addr query e n found. absurd (none-ne-some e (rw none_there at found));
}

module _ (env : Env) (vars : Metadata) (listened : Option Error) (w : World) (p : Process)
    (h : launch env.clock vars listened w ≡ some p) where
  -- Whatever calls of the service came before, in whatever order and with whatever answers of the
  -- backend: the cache holds only readings and absent series, and no other error.
  pub reachable-AllCacheable : (s : Scaler) → Reachable env p.scaler s → AllCacheable s.cache
  reachable-AllCacheable s r =
      reachable-IsKept (record { unary = AllCacheable-IsKept env; failed = λ s h. h }) r
        (empty-AllCacheable p.scaler.cache (launched_entries env vars listened w p h))

  -- With a backend whose answers are a function of address and query, and where the flights of other
  -- goroutines share only those answers, no leader's cancellation: after whatever calls of the
  -- service, in whatever order, `IsActive` for an address without NUL and in a context that is not
  -- cancelled returns the parse error, or the error of a dimension that fails, or whether the score of
  -- the backend's two answers is above the activation threshold.
  pub reachable-is_active :
      (f : String → String → Reply) (s : Scaler) (ref : ScaledObjectRef)
      → Answers f env.group env.source
      → Reachable env p.scaler s
      → NoNul (parse ref.scaler_metadata).0.prom_addr
      → (is_active env false ref s).0
        ≡ when_parsed
            (parse ref.scaler_metadata)
            (λ c. map_result (λ x. gtb x c.activation) (expected_score (env.kv_first s.rounds) c f))
  reachable-is_active f s ref a r n = is_active-expected env ref f a s n (
      reachable-IsKept (record { unary = IsConsistent-IsKept env a; failed = λ s v. v }) r
        (empty-IsConsistent f p.scaler.cache (launched_entries env vars listened w p h)))

  -- Over a backend whose answers change with time, where calls share only its replies for the same
  -- address and query: after whatever calls of the service, in whatever order, `saturationFor` for
  -- an address without NUL, in any context, gives the score of two replies that the backend gives
  -- for the configuration's address, one for each of its two queries, or the error of the one that
  -- ends first among those that fail.
  pub reachable-FromReplies :
      (s : Scaler) (c : Config) (cancelled : Bool)
      → (honest : IsHonest env.group env.source) → Reachable env p.scaler s
      → (n : NoNul c.prom_addr)
      → FromReplies env honest c n
          (env.kv_first s.rounds)
          (score_part (saturation_for env c cancelled s).0)
  reachable-FromReplies s c cancelled honest r n =
      saturation_for-FromReplies env honest c n cancelled s (
        reachable-IsKept (record { unary = AllGiven-IsKept env honest; failed = λ s v. v }) r
          (empty-AllGiven env.source p.scaler.cache (launched_entries env vars listened w p h)))
