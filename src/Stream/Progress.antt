-- ===== src/Stream/Progress.antt =====
-- A stream that goes on sends messages, in every stretch of events as long as its failure limit.
use native.Mathlib.Nat.{lt_of_mul-lt-mul_right}
use inference_platform.Prelude.{
  ℕ, suc, ◌+◌, ◌*◌, ◌<◌, ◌≤◌, ◌≡◌, refl, sym, ap, ◌∙◌, arith, List, [], ◌∷◌, ◌++◌, Bool, Option,
  none, some, length, inl, inr, Bool-cases,
}
use inference_platform.Prelude.Int.{pos, leb_ℤ, ◌<ℤ◌}
use inference_platform.Go.Int64.{Fits64, add64}
use inference_platform.Config.{Config, parse}
use inference_platform.Config.Bounds.{parse-IsValid}
use inference_platform.Go.Errors.{Error}
use inference_platform.Scaler.{Env, Scaler, ScaledObjectRef, Result, ok, err, on_metrics, M}
use inference_platform.Stream.{
  Event, done, fired, Loop, Return, start, iteration, react, loop, go_on, with_config,
  stream_is_active, on_failure, on_success,
}
use inference_platform.Stream.Invariant.{count_exact}

module _ (env : Env) (ref : ScaledObjectRef) (c : Config) (m : ℕ)
    (limit : c.stream_max_consecutive_failures ≡ pos m) (fits : Fits64 (pos m)) where
  abbrev credit : Loop → ℕ → ℕ
  credit l k = length l.sent * m + k

  -- If the loop goes on, `n` events after a state with this credit, it counts fewer failures than the
  -- limit, and has sent enough since.
  Progresses : ℕ → ℕ → Loop × Return → Type 0
  Progresses n before (l, r) =
      r ≡ none → (k : ℕ) × (l.consecutive_failures ≡ pos k) × (k < m) × (n + before ≤ credit l k)

  -- From every state of the loop that counts fewer failures than the limit, `rest` progresses.
  Continues : ℕ → (Loop → M (Loop × Return)) → Type 0
  Continues n rest =
      (l : Loop) (k : ℕ) (s : Scaler)
      → l.consecutive_failures ≡ pos k
      → k < m
      → Progresses n (credit l k) (rest l s).0

  module _ (rest : Loop → M (Loop × Return)) (n k : ℕ) (l : Loop) (s : Scaler) (below : k < m)
      (next : Continues n rest) where
    failure-Progresses :
        (e : Error)
        → l.consecutive_failures ≡ pos k
        → Progresses (suc n) (credit l k) (go_on env rest (on_failure ref c e l) s).0
    unfolding on_failure Progresses Continues
    failure-Progresses e counted =
        let count : add64 l.consecutive_failures (pos 1) ≡ pos (suc k) =
          rw counted (count_exact k _ fits (omega arith)) in
        elim (Bool-cases (leb_ℤ (pos m) (pos (suc k)))) [
          | inl t ↦ rw (limit, count, t) (λ going. absurd (cc))
          | inr t ↦
              rw (limit, count, t)
                (λ going.
                  let (k', count', below', enough) = next _ (suc k) s refl (ground arith) going in
                  (k', count', below', omega (arith, enough)))
        ]

    success-Progresses :
        (active : Bool) (send : Option Error)
        → Progresses (suc n) (credit l k) (go_on env rest (on_success c active send l) s).0
    unfolding on_success Progresses Continues
    success-Progresses active (some e) going = absurd (cc)
    success-Progresses active none going =
        let (k', count', below', enough) = next _ 0 s refl (omega (arith, below)) going in
        (k', count', below', omega (arith, enough, below))

  react-Progresses :
      (rest : Loop → M (Loop × Return)) (n k : ℕ) (l : Loop) (s : Scaler) (send : Option Error)
      (r : Result Bool)
      → k < m
      → Continues n rest
      → l.consecutive_failures ≡ pos k
      → let (lr, s') = react ref c send l r s in
        Progresses (suc n) (credit l k) (go_on env rest lr s').0
  unfolding react on_metrics
  react-Progresses rest n k l s send (ok active) below next counted =
      success-Progresses rest n k l _ below next active send
  react-Progresses rest n k l s send (err e) below next counted =
      failure-Progresses rest n k l _ below next e counted

  loop-Continues : (evs : List Event) → Continues (length evs) (loop env ref c evs)
  unfolding loop iteration Progresses Continues
  loop-Continues [] l k s counted below going = (k, counted, below, omega arith)
  loop-Continues (done ∷ evs) l k s counted below going = absurd (cc)
  loop-Continues (fired x send ∷ evs) l k s counted below going =
      react-Progresses (loop env ref c evs) (length evs) k l _ send _ below (loop-Continues evs)
        counted going

  went_on-append :
      (window : List Event) (evs : List Event) (lr : Loop × Return) (s : Scaler)
      → (go_on env (loop env ref c evs) lr s).0.1 ≡ none
      → ((l : Loop) (s : Scaler)
          → (loop env ref c evs l s).0.1 ≡ none
          → loop env ref c (evs ++ window) l s
            ≡ loop env ref c window (loop env ref c evs l s).0.0 (loop env ref c evs l s).1)
      → let r = go_on env (loop env ref c evs) lr s in
        go_on env (loop env ref c (evs ++ window)) lr s ≡ loop env ref c window r.0.0 r.1
  went_on-append window evs (l, none) s going next = next l s going
  went_on-append window evs (l, some r) s going next = absurd (cc)

  loop-append :
      (window evs : List Event) (l : Loop) (s : Scaler)
      → (loop env ref c evs l s).0.1 ≡ none
      → loop env ref c (evs ++ window) l s
        ≡ loop env ref c window (loop env ref c evs l s).0.0 (loop env ref c evs l s).1
  unfolding loop
  loop-append window [] l s going = refl
  loop-append window (ev ∷ evs) l s going =
      went_on-append window evs (iteration env ref c l ev s).0 (iteration env ref c l ev s).1 going
        (loop-append window evs)

  with_config-progress :
      (evs window : List Event) (l l' : Loop) (e : Option Error) (s : Scaler)
      → e ≡ none
      → 0 < m
      → (with_config env ref evs (c, e) s).0 ≡ (some l, none)
      → (with_config env ref (evs ++ window) (c, e) s).0 ≡ (some l', none)
      → m ≤ length window
      → length l.sent < length l'.sent
  unfolding start Progresses Continues
  with_config-progress evs window l l' (some e) s parsed positive going going' long = cc
  with_config-progress evs window l l' none s parsed positive going going' long =
      let r = loop env ref c evs (start c) s in
      let last : r.0.1 ≡ none = ap (λ x. x.1) going in
      let same : r.0.0 ≡ l = cc in
      let (k, counted, below, e) = loop-Continues evs (start c) 0 s refl positive last in
      let w = loop env ref c window r.0.0 r.1 in
      let joined = loop-append window evs (start c) s last in
      let last' : w.0.1 ≡ none =
        ap (λ (x : (Loop × Return) × Scaler). x.0.1) (sym joined) ∙ ap (λ x. x.1) going' in
      let ends : (loop env ref c (evs ++ window) (start c) s).0.0 ≡ l' = cc in
      let same' : w.0.0 ≡ l' = ap (λ (x : (Loop × Return) × Scaler). x.0.0) (sym joined) ∙ ends in
      let (k', counted', below', enough) = loop-Continues window r.0.0 k r.1 counted below last' in
      let more : length r.0.0.sent * m < length w.0.0.sent * m =
        omega (arith, enough, below', long) in
      rw (sym same, sym same') (lt_of_mul-lt-mul_right m more)

-- A stream whose metadata parse, with a failure limit of `m`, whatever the polls and the sends gave:
-- if it still goes on after some events, and after `m` or more events that come next, it has sent a
-- message at one of these.
pub stream_progress :
    (env : Env) (ref : ScaledObjectRef) (evs window : List Event) (s : Scaler) (m : ℕ) (l l' : Loop)
    → (parse ref.scaler_metadata).1 ≡ none
    → (parse ref.scaler_metadata).0.stream_max_consecutive_failures ≡ pos m
    → (stream_is_active env ref evs s).0 ≡ (some l, none)
    → (stream_is_active env ref (evs ++ window) s).0 ≡ (some l', none)
    → m ≤ length window
    → length l.sent < length l'.sent
unfolding stream_is_active on_metrics
stream_progress env ref evs window s m l l' parsed limit going going' long =
    let v = parse-IsValid ref.scaler_metadata parsed in
    with_config-progress env ref _ m limit (rw limit at v.failures_fit) evs window l l' _ _ parsed
      (let positive : pos 0 <ℤ pos m = rw limit at v.failures_positive in omega arith) going going'
      long
