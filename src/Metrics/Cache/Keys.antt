-- ===== src/Metrics/Cache/Keys.antt =====
-- Cache keys tell (address, query) pairs apart.

use Prim.Native.String.{◌++◌}
use Prim.Native.Char.{Char, code}
use text.Mathlib.TextLemmas.{append_cancel_left, cons-append, nil-append}
use inference_platform.Prelude.{
  ◌⊎◌, inl, inr, Bool-cases, ◌==◌, ◌≡◌, ◌≢◌, refl, sym, ap, ◌∙◌, String, arith,
}
use inference_platform.Metrics.Cache.{cache_key}

-- No character of the text is NUL.
abbrev pub NoNul : String → Type 0
NoNul String.[] = Unit {0}
NoNul (String.◌∷◌ c s) = (code c ≢ 0) × NoNul s

pub NoNul-cases : (s : String) → NoNul s ⊎ (NoNul s → ⊥)
NoNul-cases String.[] = inl tt
NoNul-cases (String.◌∷◌ c s) = elim (NoNul-cases s) [
  | inl n ↦ elim (Bool-cases (code c == 0)) [
    | inl e ↦ inr (λ (m, _). m (ground arith))
    | inr e ↦ inl (ground arith, n)
  ]
  | inr bad_char ↦ inr (λ (_, m). bad_char m)
]

abbrev nul : Char
nul = "\0"

nul-append : (q : String) → "\0" ++ q ≡ String.◌∷◌ nul q
nul-append q = cons-append nul String.[] q ∙ ap (λ (t : String). String.◌∷◌ nul t) (nil-append q)

-- Two pairs of an address without NUL and a query have one key only if they are one pair.
pub cache_key-inj :
    (addr addr' query query' : String)
    → NoNul addr
    → NoNul addr'
    → cache_key addr query ≡ cache_key addr' query'
    → (addr ≡ addr') × (query ≡ query')
unfolding cache_key
cache_key-inj String.[] String.[] q q' n n' h =
    (refl, append_cancel_left "\0" q q' (simp nil-append at h))
cache_key-inj String.[] (String.◌∷◌ d t) q q' n n' h =
    let k : String.◌∷◌ nul q ≡ String.◌∷◌ d (t ++ String.◌∷◌ nul q') =
      simp (nil-append, nul-append, cons-append) at h in
    let e : nul ≡ d = cc in absurd (n'.0 (sym (ap code e)))
cache_key-inj (String.◌∷◌ c s) String.[] q q' n n' h =
    let k : String.◌∷◌ c (s ++ String.◌∷◌ nul q) ≡ String.◌∷◌ nul q' =
      simp (nil-append, nul-append, cons-append) at h in
    let e : c ≡ nul = cc in absurd (n.0 (ap code e))
cache_key-inj (String.◌∷◌ c s) (String.◌∷◌ d t) q q' n n' h =
    let k : String.◌∷◌ c (cache_key s q) ≡ String.◌∷◌ d (cache_key t q') = simp cons-append at h in
    ground (arith, cache_key-inj s t q q' n.1 n'.1)
