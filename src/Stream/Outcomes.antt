-- ===== src/Stream/Outcomes.antt =====
-- How the polling loop stands after any events.
use inference_platform.Prelude.{ℕ, ◌≡◌, refl, Bool, List, [], ◌∷◌, ap, Option, none, some}
use inference_platform.Go.Errors.{Error}
use inference_platform.Config.{Config}
use inference_platform.Scaler.{Env, Scaler, ScaledObjectRef, Result, ok, err, is_active, on_metrics}
use inference_platform.Stream.{Event, done, fired, Loop, Return, react, iteration, loop, go_on}
use inference_platform.Stream.Invariant.{
  Outcome, Outcome-map, SendFailed, IsRunning, IsPolled, on_failure-Outcome, on_success-Outcome,
}

module _ (ref : ScaledObjectRef) (c : Config) (b : ℕ) (v : IsPolled c b) where
  module _ (env : Env) where
    react-Outcome :
        (evs : List Event) (l : Loop) (s s' : Scaler) (x : Bool) (send : Option Error)
        (res : Result Bool)
        → (is_active env x ref s).0 ≡ res
        → IsRunning c b l
        → let ((l', r), s'') = react ref c send l res s' in
          Outcome ref c b (SendFailed env ref c (fired x send ∷ evs) l s) l' r
    unfolding react on_metrics loop
    react-Outcome evs l s s' x send (ok a) answered h =
        on_success-Outcome ref c b v _ a send l
          (λ e sent. record {
            before = [];
            since = evs;
            cancelled = x;
            active = a;
            split = ap (λ o. fired x o ∷ evs) sent;
            went_on = refl;
            polled = answered;
          })
          h
    react-Outcome evs l s s' x send (err e) answered h = on_failure-Outcome ref c b v _ e l h

    step-Outcome :
        (evs : List Event) (l : Loop) (ev : Event) (s : Scaler)
        → IsRunning c b l
        → let ((l', r), s') = iteration env ref c l ev s in
          Outcome ref c b (SendFailed env ref c (ev ∷ evs) l s) l' r
    unfolding iteration
    step-Outcome evs l done s h = h.bounded
    step-Outcome evs l (fired x send) s h = react-Outcome evs l s _ x send _ refl h

    SendFailed-later :
        (ev : Event) (evs : List Event) (l l' : Loop) (s s' : Scaler)
        → iteration env ref c l ev s ≡ ((l', none), s')
        → (e : Error) → SendFailed env ref c evs l' s' e
        → SendFailed env ref c (ev ∷ evs) l s e
    unfolding loop
    SendFailed-later ev evs l l' s s' went e f = record {
      before = ev ∷ f.before;
      since = f.since;
      cancelled = f.cancelled;
      active = f.active;
      split = ap (λ (es : List Event). ev ∷ es) f.split;
      went_on = rw went f.went_on;
      polled = rw went f.polled;
    }

    continued :
        (ev : Event) (evs : List Event) (l l' : Loop) (r : Return) (s s' : Scaler)
        → iteration env ref c l ev s ≡ ((l', r), s')
        → ((l : Loop) (s : Scaler)
            → IsRunning c b l
            → let ((l', r), s') = loop env ref c evs l s in
              Outcome ref c b (SendFailed env ref c evs l s) l' r)
        → Outcome ref c b (SendFailed env ref c (ev ∷ evs) l s) l' r
        → let ((l'', r'), s'') = go_on env (loop env ref c evs) (l', r) s' in
          Outcome ref c b (SendFailed env ref c (ev ∷ evs) l s) l'' r'
    continued ev evs l l' none s s' went rest o =
        Outcome-map ref c b _ _ (SendFailed-later ev evs l l' s s' went)
          (loop env ref c evs l' s').0.0 (loop env ref c evs l' s').0.1 (rest l' s' o)
    continued ev evs l l' (some r) s s' went rest o = o

    pub loop-Outcome :
        (evs : List Event) (l : Loop) (s : Scaler)
        → IsRunning c b l
        → let ((l', r), s') = loop env ref c evs l s in
          Outcome ref c b (SendFailed env ref c evs l s) l' r
    unfolding loop
    loop-Outcome [] l s h = h
    loop-Outcome (ev ∷ evs) l s h =
        let i = iteration env ref c l ev s in
        continued ev evs l i.0.0 i.0.1 s i.1 refl (loop-Outcome evs) (step-Outcome evs l ev s h)
