-- ===== src/Service/Main/Ends.antt =====
-- How `main` ends, and which states its scaler goes through.
use inference_platform.Prelude.{
  ◌≡◌, refl, Bool-cases, Bool, true, false, ◌||◌, List, [], ◌∷◌, Option, none, some, Option-cases,
  inl, inr,
}
use inference_platform.Go.Errors.{Error}
use inference_platform.Metrics.Source.{World}
use inference_platform.Scaler.{Env, Scaler, get_metrics}
use inference_platform.Service.{
  Process, launch, Reachable, started, called, is_active_called, get_metric_spec_called,
  get_metrics_called, stream_is_active_called, Step,
}
use inference_platform.Service.Main.{
  Request, is_active_request, get_metric_spec_request, get_metrics_request, stream_request,
  serve_one, serve_all, Served, Outside, serving, stopped, Exit, running, returned, exited,
  panicked, exit_of, after_serving, after_launch, run_main,
}

-- A request for metrics that names no ScaledObject.
abbrev pub names_none : Request → Bool
names_none (get_metrics_request x none) = true
names_none r = false

abbrev pub any_names_none : List Request → Bool
any_names_none [] = false
any_names_none (r ∷ rs) = names_none r || any_names_none rs

serve_one-Step :
    (env : Env) (r : Request) (s : Scaler)
    → names_none r ≡ false
    → (s' : Scaler) × (serve_one env r s ≡ some s') × Step env s s'
unfolding serve_one get_metrics
serve_one-Step env (is_active_request x ref) s h = (_, refl, is_active_called x ref s)
serve_one-Step env get_metric_spec_request s h = (_, refl, get_metric_spec_called s)
serve_one-Step env (get_metrics_request x none) s h = cc
serve_one-Step env (get_metrics_request x (some ref)) s h = (_, refl, get_metrics_called x ref s)
serve_one-Step env (stream_request ref evs) s h = (_, refl, stream_is_active_called ref evs s)

serve_one-none :
    (env : Env) (r : Request) (s : Scaler) → names_none r ≡ true → serve_one env r s ≡ none
unfolding serve_one get_metrics
serve_one-none env (get_metrics_request x none) s h = refl
serve_one-none env (get_metrics_request x (some ref)) s h = cc
serve_one-none env (is_active_request x ref) s h = cc
serve_one-none env get_metric_spec_request s h = cc
serve_one-none env (stream_request ref evs) s h = cc

serve_all-ends :
    (env : Env) (rs : List Request) (start s : Scaler)
    → Reachable env start s
    → any_names_none rs ≡ false
    → (s' : Scaler) × (serve_all env rs s ≡ some s') × Reachable env start s'
unfolding serve_all
serve_all-ends env [] start s r h = (s, refl, r)
serve_all-ends env (q ∷ rs) start s r h = elim (Bool-cases (names_none q)) [
  | inl bad ↦ absurd (cc (rw bad at h))
  | inr good ↦
      (let (s', e, step) = serve_one-Step env q s good in
        rw e (serve_all-ends env rs start s' (called r step) (rw good at h)))
]

serve_all-none :
    (env : Env) (rs : List Request) (s : Scaler)
    → any_names_none rs ≡ true
    → serve_all env rs s ≡ none
unfolding serve_all
serve_all-none env [] s h = cc
serve_all-none env (q ∷ rs) s h = elim (Bool-cases (names_none q)) [
  | inl bad ↦ rw (serve_one-none env q s bad) refl
  | inr good ↦
      (let (s', e, step) = serve_one-Step env q s good in
        rw e (serve_all-none env rs s' (rw good at h)))
]

-- How the process is to end: by what `net.Listen` gives, whether a request names no ScaledObject,
-- and whether the loop of grpc has returned, and with what.
abbrev pub exit_for : Option Error → Bool → Served → Exit
exit_for (some e) bare served = exited 1
exit_for none true served = panicked
exit_for none false serving = running
exit_for none false (stopped none) = returned
exit_for none false (stopped (some e)) = exited 1

served-exit : (served : Served) → exit_of served ≡ exit_for none false served
served-exit serving = refl
served-exit (stopped none) = refl
served-exit (stopped (some e)) = refl

module _ (o : Outside) where
  after_serving-exit :
      (p : Process)
      → (after_serving o p (serve_all o.env o.requests p.scaler)).exit
        ≡ exit_for none (any_names_none o.requests) o.served
  unfolding after_serving
  after_serving-exit p = elim (Bool-cases (any_names_none o.requests)) [
    | inl bare ↦ rw (bare, serve_all-none o.env o.requests p.scaler bare) refl
    | inr named ↦
        (let (s, e, r) = serve_all-ends o.env o.requests p.scaler p.scaler started named in
          rw (named, e) (served-exit o.served))
  ]

  after_launch-exit :
      (e : Option Error) (w : World)
      → (after_launch o (launch o.env.clock o.vars e w)).exit
        ≡ exit_for e (any_names_none o.requests) o.served
  unfolding after_launch launch
  after_launch-exit (some e) w = refl
  after_launch-exit none w = after_serving-exit _

  -- `main` exits with status 1 when the listen fails; else the process panics exactly when some call
  -- of `GetMetrics` names no ScaledObject, which is the only request that its handler has a panic
  -- for; else it runs as long as grpc's Serve, and when that returns, it exits with status 1 after an
  -- error and returns without one. Nothing else has a part in it: neither the environment, nor the
  -- state and the answers of the scaler, nor how the HTTP server ends.
  pub run_main-exit :
      (w : World)
      → (run_main o w).exit ≡ exit_for o.listen_error (any_names_none o.requests) o.served
  unfolding run_main
  run_main-exit w = after_launch-exit o.listen_error w

  after_serving-Reachable :
      (p : Process) (s : Scaler)
      → (after_serving o p (serve_all o.env o.requests p.scaler)).scaler ≡ some s
      → Reachable o.env p.scaler s
  unfolding after_serving
  after_serving-Reachable p s h = elim (Bool-cases (any_names_none o.requests)) [
    | inl bare ↦ absurd (cc (rw (serve_all-none o.env o.requests p.scaler bare) at h))
    | inr named ↦
        (let (s', e, r) = serve_all-ends o.env o.requests p.scaler p.scaler started named in
          let same : some s' ≡ some s = rw e at h in let one : s' ≡ s = cc in rw one at r)
  ]

  -- The scaler at the end of a run, if the process lives to have one, is one that calls of the
  -- service lead to from the launch.
  pub run_main-Reachable :
      (w : World) (s : Scaler)
      → (run_main o w).scaler ≡ some s
      → (p : Process) × (launch o.env.clock o.vars o.listen_error w ≡ some p)
        × Reachable o.env p.scaler s
  unfolding run_main after_launch
  run_main-Reachable w s h = elim (Option-cases (launch o.env.clock o.vars o.listen_error w)) [
    | inl gone ↦ absurd (cc (rw gone at h))
    | inr (p, e) ↦ (p, e, after_serving-Reachable p s (rw e at h))
  ]
