-- ===== src/Scaler/Decisions.antt =====
-- The decisions of `IsActive` and `GetMetrics`, as a function of what the backend answers.
use inference_platform.Prelude.{
  ◌≡◌, refl, ap, ◌∙◌, String, Bool, true, false, not, ◌&&◌, none, some, if◌then◌else◌, Bool-cases,
  inl, inr,
}
use inference_platform.Config.{Config}
use inference_platform.Go.Errors.{Error, is_missing, wrap}
use inference_platform.Go.Float64.{Float64, fin}
use inference_platform.Metrics.Source.{Reply}
use inference_platform.Metrics.Cache.Keys.{NoNul}
use inference_platform.Metrics.Cache.Answers.{Answers, IsConsistent, get-Answers}
use inference_platform.Saturation.{score}
use inference_platform.Scaler.Keeps.{
  IsKeptWith, OfQuery, by_queries, by_answers, Keeps, tick-Keeps, query_instant-Keeps, settle-Keeps,
}
use inference_platform.Scaler.Invariants.{IsConsistent-IsKept}
use inference_platform.Scaler.{
  Env, Scaler, query_instant, settle, queue_task, kv_task, wait_for, scored, both_tasks,
  saturation_for, Reading, SaturationResult, Result, ok, err, has_failed, next_round, tick,
  get_cached,
}

abbrev pub map_result : {A B : Type 0} → (A → B) → Result A → Result B
map_result f (ok a) = ok (f a)
map_result f (err e) = err e

-- What an answer of the backend counts for: its value, 0 for an absent series unless that is an
-- error, or the error with its dimension named.
abbrev pub value_of : Config → String → Reply → Result Float64
value_of c prefix (sample, none) = ok sample.value
value_of c prefix (sample, some e) =
    if is_missing e && not c.treat_missing_as_error then ok (fin false 0) else err (wrap prefix e)

-- The score of two values, or the error of the dimension that ends first among those that fail.
abbrev pub combined : Bool → Config → Result Float64 → Result Float64 → Result Float64
combined kv_first c (ok q) (ok k) = ok (score q c.queue_threshold k c.kv_threshold)
combined kv_first c (ok q) (err e) = err e
combined kv_first c (err e) (ok k) = err e
combined kv_first c (err e) (err e') = err (if kv_first then e' else e)

abbrev pub expected_score : Bool → Config → (String → String → Reply) → Result Float64
expected_score kv_first c f =
    combined kv_first c (value_of c "queue query: " (f c.prom_addr c.queue_query))
      (value_of c "kv-cache query: " (f c.prom_addr c.kv_query))

abbrev pub value_part : Result Reading → Result Float64
value_part r = map_result (λ (x : Reading). x.value) r

abbrev pub score_part : Result SaturationResult → Result Float64
score_part r = map_result (λ (x : SaturationResult). x.score) r

pub settle-value :
    (env : Env) (c : Config) (prefix : String) (r : Reply) (s : Scaler)
    → value_part (settle env c prefix r s).0 ≡ value_of c prefix r
unfolding settle
settle-value env c prefix (sample, none) s = refl
settle-value env c prefix (sample, some e) s =
    elim (Bool-cases (is_missing e && not c.treat_missing_as_error)) [
      | inl t ↦ rw t refl
      | inr t ↦ rw t refl
    ]

pub both-value :
    (first : Bool) (c : Config) (q k : Result Reading)
    → score_part (scored c (wait_for first q k)) ≡ combined first c (value_part q) (value_part k)
both-value first c (ok q) (ok k) = refl
both-value first c (ok q) (err e) = refl
both-value first c (err e) (ok k) = refl
both-value first c (err e) (err e') = refl

-- After an error of the one that ends first, the result of the other does not matter.
combined_queue_failed :
    (c : Config) (q : Error) (k k' : Result Float64)
    → combined false c (err q) k ≡ combined false c (err q) k'
combined_queue_failed c q (ok k) (ok k') = refl
combined_queue_failed c q (ok k) (err e) = refl
combined_queue_failed c q (err e) (ok k') = refl
combined_queue_failed c q (err e) (err e') = refl

combined_kv_failed :
    (c : Config) (k : Error) (q q' : Result Float64)
    → combined true c q (err k) ≡ combined true c q' (err k)
combined_kv_failed c k (ok q) (ok q') = refl
combined_kv_failed c k (ok q) (err e) = refl
combined_kv_failed c k (err e) (ok q') = refl
combined_kv_failed c k (err e) (err e') = refl

module _ (env : Env) (f : String → String → Reply) (a : Answers f env.group env.source) where
  abbrev pub Consistent : Scaler → Type 0
  Consistent s = IsConsistent f s.cache

  kept : IsKeptWith env OfQuery Consistent
  kept = by_queries (by_answers (IsConsistent-IsKept env a))

  module _ (c : Config) (addressed : NoNul c.prom_addr) where
    query_reply :
        (d query : String) (s : Scaler)
        → Consistent s
        → (query_instant env false d c.prom_addr query c.cache_ttl s).0 ≡ f c.prom_addr query
    unfolding query_instant get_cached
    query_reply d query s v =
        get-Answers env.clock a c.prom_addr query addressed c.cache_ttl (tick env s).1.cache
          (tick-Keeps kept s v)

    abbrev answer : String → String → Result Float64
    answer prefix query = value_of c prefix (f c.prom_addr query)

    queue_task-value :
        (s : Scaler)
        → Consistent s
        → value_part (queue_task env c false s).0 ≡ answer "queue query: " c.queue_query
    unfolding queue_task
    queue_task-value s v =
        settle-value env c _ _ _
        ∙ ap (value_of c "queue query: ") (query_reply "queue" c.queue_query s v)

    kv_task-value :
        (s : Scaler)
        → Consistent s
        → value_part (kv_task env c false s).0 ≡ answer "kv-cache query: " c.kv_query
    unfolding kv_task
    kv_task-value s v =
        settle-value env c _ _ _
        ∙ ap (value_of c "kv-cache query: ") (query_reply "kv" c.kv_query s v)

    queue_task-Keeps : Keeps Consistent (queue_task env c false)
    unfolding queue_task
    queue_task-Keeps s v = settle-Keeps kept c _ _ _ (query_instant-Keeps kept _ _ _ _ _ s v)

    kv_task-Keeps : Keeps Consistent (kv_task env c false)
    unfolding kv_task
    kv_task-Keeps s v = settle-Keeps kept c _ _ _ (query_instant-Keeps kept _ _ _ _ _ s v)

    after_kv :
        (cancels : Bool) (k : Result Reading) (s : Scaler)
        → Consistent s
        → score_part (scored c (wait_for true (queue_task env c (has_failed k && cancels) s).0 k))
          ≡ combined true c (answer "queue query: " c.queue_query) (value_part k)
    after_kv cancels (ok r) s v =
        both-value true c _ (ok r)
        ∙ ap (λ (q : Result Float64). combined true c q (ok r.value)) (queue_task-value s v)
    after_kv cancels (err e) s v = both-value true c _ (err e) ∙ combined_kv_failed c e _ _

    after_queue :
        (cancels : Bool) (q : Result Reading) (s : Scaler)
        → Consistent s
        → score_part (scored c (wait_for false q (kv_task env c (has_failed q && cancels) s).0))
          ≡ combined false c (value_part q) (answer "kv-cache query: " c.kv_query)
    after_queue cancels (ok r) s v =
        both-value false c (ok r) _
        ∙ ap (λ (k : Result Float64). combined false c (ok r.value) k) (kv_task-value s v)
    after_queue cancels (err e) s v = both-value false c (err e) _ ∙ combined_queue_failed c e _ _

    both_tasks-score :
        (cancels first : Bool) (s : Scaler)
        → Consistent s
        → score_part (scored c (both_tasks env c false cancels first s).0)
          ≡ expected_score first c f
    unfolding both_tasks
    both_tasks-score cancels true s v =
        after_kv cancels _ _ (kv_task-Keeps s v)
        ∙ ap (λ (k : Result Float64). combined true c (answer "queue query: " c.queue_query) k)
            (kv_task-value s v)
    both_tasks-score cancels false s v =
        after_queue cancels _ _ (queue_task-Keeps s v)
        ∙ ap (λ (q : Result Float64). combined false c q (answer "kv-cache query: " c.kv_query))
            (queue_task-value s v)

    -- For an address without NUL, in a context that is not cancelled, over a backend whose answers
    -- are a function of address and query and from a cache that is consistent with it: the score of
    -- `saturationFor` is that of the backend's two answers, 0 for an absent series unless the
    -- configuration says otherwise; or its error is that of the dimension that ends first among
    -- those that fail.
    pub saturation_for-score :
        (s : Scaler)
        → Consistent s
        → score_part (saturation_for env c false s).0 ≡ expected_score (env.kv_first s.rounds) c f
    unfolding saturation_for next_round
    saturation_for-score s v = both_tasks-score (env.cancels s.rounds) (env.kv_first s.rounds) _ v
