-- ===== src/Scaler/Invariants.antt =====
-- The invariants of the cache are the scaler's.
use inference_platform.Prelude.{String}
use inference_platform.Metrics.Source.{Reply}
use inference_platform.Metrics.Cache.Answers.{Answers, IsConsistent, get-IsConsistent}
use inference_platform.Metrics.Cache.Given.{IsHonest, AllGiven, get-AllGiven}
use inference_platform.Metrics.Cache.Entries.{AllCacheable, get-AllCacheable}
use inference_platform.Scaler.{Env}
use inference_platform.Scaler.Keeps.{IsKept}

pub AllCacheable-IsKept : (env : Env) → IsKept env (λ s. AllCacheable s.cache)
AllCacheable-IsKept env = record {
  moved = λ s w h. h;
  got = λ x addr query ttl s h.
      get-AllCacheable env.clock env.group env.source x addr query ttl s.cache h;
  counted = λ c s ne h. h;
  seen = λ t s h. h;
  advanced = λ s h. h;
}

pub IsConsistent-IsKept :
    {f : String → String → Reply} (env : Env)
    → Answers f env.group env.source
    → IsKept env (λ s. IsConsistent f s.cache)
IsConsistent-IsKept env a = record {
  moved = λ s w v. record { answers = v.answers };
  got = λ x addr query ttl s v. get-IsConsistent env.clock a x addr query ttl s.cache v;
  counted = λ c s ne v. v;
  seen = λ t s v. v;
  advanced = λ s v. v;
}

pub AllGiven-IsKept :
    (env : Env) → IsHonest env.group env.source → IsKept env (λ s. AllGiven env.source s.cache)
AllGiven-IsKept env h = record {
  moved = λ s w v. record { given = v.given };
  got = λ x addr query ttl s v. get-AllGiven env.clock h x addr query ttl s.cache v;
  counted = λ c s ne v. v;
  seen = λ t s v. v;
  advanced = λ s v. v;
}
