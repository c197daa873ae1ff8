-- ===== src/Scaler/Interleaved/Sequential.antt =====
-- A goroutine of `saturationFor` that runs to its end before the other starts.
use inference_platform.Prelude.{
  ◌≡◌, refl, String, Bool, true, false, not, ◌||◌, ◌&&◌, List, [], ◌∷◌, ◌++◌, Option, none, some,
  Bool-cases, inl, inr,
}
use inference_platform.Config.{Config}
use inference_platform.Go.Errors.{Error, is_missing}
use inference_platform.Scaler.{
  Env, Scaler, ◌>>=◌, ◌>>◌, Result, ok, err, Reading, keep_books, query_instant, queue_task,
  kv_task, both_tasks, scored, wait_for, has_failed,
}
use inference_platform.Scaler.Interleaved.{
  Task, begun, ended, count_error, mark_success, task_step, Round, at_begin, round_step, interleave,
  outcome,
}

module _ (env : Env) where
  keep_books_lem :
      (name : String) (e : Option Error) (s : Scaler)
      → (count_error env name e >> mark_success env e) s ≡ keep_books env name e s
  unfolding keep_books
  keep_books_lem name none s = refl
  keep_books_lem name (some e) s = elim (Bool-cases (is_missing e)) [
    | inl m ↦ rw m refl
    | inr m ↦ rw m refl
  ]

  -- Seven steps of one goroutine.
  abbrev turns : Bool → Bool → List (Bool × Bool)
  turns of_kv x =
      (of_kv, x) ∷ (of_kv, x) ∷ (of_kv, x) ∷ (of_kv, x) ∷ (of_kv, x) ∷ (of_kv, x) ∷ (of_kv, x) ∷ []

  queue_turns :
      (c : Config) (x first : Bool) (k : Task) (s : Scaler)
      → interleave env c (turns false x) (record { queue = begun; kv = k; kv_first = first }) s ≡ (
        record { queue = ended (queue_task env c x s).0; kv = k; kv_first = first },
        (queue_task env c x s).1,
      )
  unfolding interleave round_step task_step queue_task query_instant
  queue_turns c x first k s = rw (keep_books_lem) refl

  -- What the queue's goroutine has done before the KV cache's starts: nothing or all.
  before : Option (Result Reading) → Task
  before none = begun
  before (some q) = ended q

  kv_is_first : Option (Result Reading) → Result Reading → Bool
  kv_is_first none k = has_failed k
  kv_is_first (some q) k = not (has_failed q) && has_failed k

  kv_turns :
      (c : Config) (x : Bool) (q : Option (Result Reading)) (s : Scaler)
      → interleave env c
          (turns true x)
          (record { queue = before q; kv = begun; kv_first = false })
          s
        ≡ (
          record {
            queue = before q;
            kv = ended (kv_task env c x s).0;
            kv_first = kv_is_first q (kv_task env c x s).0;
          },
          (kv_task env c x s).1,
        )
  unfolding interleave round_step task_step kv_task query_instant before kv_is_first
  kv_turns c x none s = rw (keep_books_lem) refl
  kv_turns c x (some (ok q)) s = rw (keep_books_lem) refl
  kv_turns c x (some (err q)) s = rw (keep_books_lem) refl

  queue_failed_first :
      (q k : Result Reading) → wait_for (kv_is_first (some q) k) q k ≡ wait_for false q k
  unfolding kv_is_first
  queue_failed_first (ok q) (ok k) = refl
  queue_failed_first (ok q) (err k) = refl
  queue_failed_first (err q) (ok k) = refl
  queue_failed_first (err q) (err k) = refl

  kv_failed_first : (q k : Result Reading) → wait_for (kv_is_first none k) q k ≡ wait_for true q k
  unfolding kv_is_first
  kv_failed_first (ok q) (ok k) = refl
  kv_failed_first (ok q) (err k) = refl
  kv_failed_first (err q) (ok k) = refl
  kv_failed_first (err q) (err k) = refl

  interleave-append :
      (c : Config) (es fs : List (Bool × Bool)) (r : Round) (s : Scaler)
      → interleave env c (es ++ fs) r s ≡ (interleave env c es r >>= interleave env c fs) s
  unfolding interleave
  interleave-append c [] fs r s = refl
  interleave-append c (e ∷ es) fs r s = interleave-append c es fs _ _

  -- The steps of one goroutine and then of the other, whose context the failure of the first cancels
  -- if `cancels` says so.
  unfoldable pub one_after_other : Config → Bool → Bool → Bool → Scaler → List (Bool × Bool)
  one_after_other c x cancels true s =
      turns true x ++ turns false (x || has_failed (kv_task env c x s).0 && cancels)
  one_after_other c x cancels false s =
      turns false x ++ turns true (x || has_failed (queue_task env c x s).0 && cancels)

  -- Running one goroutine to its end and then the other, in either order, is one of the
  -- interleavings of their steps: it gives the result and the state of the round.
  pub both_tasks-interleave :
      (c : Config) (x cancels first : Bool) (s : Scaler)
      → (outcome c (interleave env c (one_after_other c x cancels first s) at_begin s).0
          ≡ some (scored c (both_tasks env c x cancels first s).0))
        × ((interleave env c (one_after_other c x cancels first s) at_begin s).1
            ≡ (both_tasks env c x cancels first s).1)
  unfolding one_after_other both_tasks before
  both_tasks-interleave c x cancels true s =
      let k = kv_task env c x s in
      let y = x || has_failed k.0 && cancels in
      let run = interleave-append c (turns true x) (turns false y) at_begin s in
      rw (run, kv_turns c x none s, queue_turns c y (kv_is_first none k.0) (ended k.0) k.1)
        (rw (kv_failed_first) refl, refl)
  both_tasks-interleave c x cancels false s =
      let q = queue_task env c x s in
      let y = x || has_failed q.0 && cancels in
      let run = interleave-append c (turns false x) (turns true y) at_begin s in
      rw (run, queue_turns c x false begun s, kv_turns c y (some q.0) q.1)
        (rw (queue_failed_first) refl, refl)
