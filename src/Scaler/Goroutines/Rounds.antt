-- ===== src/Scaler/Goroutines/Rounds.antt =====
-- What the rounds of many handlers rest on.
use inference_platform.Prelude.{ℕ, ◌==◌, ◌≡◌, List, [], ◌∷◌, some, Bool-cases, inl, inr, arith}
use inference_platform.Config.{Config}
use inference_platform.Metrics.Cache.Keys.{NoNul}
use inference_platform.Metrics.Cache.Given.{AllGiven, IsHonest}
use inference_platform.Scaler.{Env, Scaler, Result, SaturationResult, on_metrics}
use inference_platform.Scaler.Decisions.{score_part}
use inference_platform.Scaler.Sources.{FromReplies}
use inference_platform.Scaler.Interleaved.{Round, outcome}
use inference_platform.Scaler.Interleaved.Replies.{BothStand, round_step-Stand, outcome-FromReplies}
use inference_platform.Scaler.Goroutines.{
  Occurrence, turn, elsewhere, update, none_begun, happen, happen_all,
}

module _ (env : Env) (h : IsHonest env.group env.source) (configs : ℕ → Config)
    (addressed : (n : ℕ) → NoNul (configs n).prom_addr) where
  abbrev pub AllStand : (ℕ → Round) → Type 0
  AllStand rounds = (n : ℕ) → BothStand env h (configs n) (addressed n) (rounds n)

  update-AllStand :
      (rounds : ℕ → Round) (n : ℕ) (r : Round)
      → AllStand rounds
      → BothStand env h (configs n) (addressed n) r
      → AllStand (update rounds n r)
  update-AllStand rounds n r st b m = elim (Bool-cases (n == m)) [
    | inl e ↦ (let same : n ≡ m = ground arith in rw e (rw same at b))
    | inr e ↦ rw e (st m)
  ]

  pub happen-AllStand :
      (e : Occurrence) (rounds : ℕ → Round) (s : Scaler)
      → AllStand rounds
      → AllGiven env.source s.cache
      → AllStand (happen env configs e rounds s).0
        × AllGiven env.source (happen env configs e rounds s).1.cache
  unfolding happen on_metrics
  happen-AllStand (turn n e) rounds s st v =
      let (b, v') = round_step-Stand env h (configs n) (addressed n) e (rounds n) s (st n) v in
      (update-AllStand rounds n _ st b, v')
  happen-AllStand (elsewhere f) rounds s st v = (st, v)

  pub happen_all-AllStand :
      (es : List Occurrence) (rounds : ℕ → Round) (s : Scaler)
      → AllStand rounds
      → AllGiven env.source s.cache
      → AllStand (happen_all env configs es rounds s).0
  unfolding happen_all
  happen_all-AllStand [] rounds s st v = st
  happen_all-AllStand (e ∷ es) rounds s st v =
      let (st', v') = happen-AllStand e rounds s st v in happen_all-AllStand es _ _ st' v'

  -- Over a source whose flights share only its replies for their address and query, for addresses
  -- without NUL: however the goroutines of any number of rounds interleave, from a cache whose every
  -- entry is a reply of the source for its own address and query, a round that ends has the score of
  -- two replies of the source, one for each query of its own configuration, or an error of theirs.
  pub rounds-FromReplies :
      (es : List Occurrence) (s : Scaler) (n : ℕ) (res : Result SaturationResult)
      → AllGiven env.source s.cache
      → outcome (configs n) ((happen_all env configs es none_begun s).0 n) ≡ some res
      → FromReplies env h
          (configs n)
          (addressed n)
          ((happen_all env configs es none_begun s).0 n).kv_first
          (score_part res)
  rounds-FromReplies es s n res v e =
      outcome-FromReplies env h (configs n) (addressed n) _ res
        (happen_all-AllStand es none_begun s (λ m. (tt, tt)) v n) e
