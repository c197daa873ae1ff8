-- ===== src/Config/Bounds.antt =====
-- What every parsed configuration satisfies, whatever the metadata.
use inference_platform.Prelude.{
  ℕ, ◌≤◌, ◌≡◌, ◌≢◌, ◌↔◌, arith, none, String, eq_iff, str_eq, inl, inr, Bool-cases, Option-cases,
}
use inference_platform.Prelude.Int.{ℤ, pos, ◌≤ℤ◌, ◌<ℤ◌}
use inference_platform.Go.Int64.{Fits64}
use inference_platform.Go.Strconv.{atoi, atoi-Fits64}
use inference_platform.Go.Time.{parse_duration, parse_duration-Fits64}
use inference_platform.Config.{
  Config, Metadata, at_key, parse, duration_or, positive_duration_or, positive_int_or, overridden,
  defaults,
}

pub record IsValid (c : Config) : Type 0 where
  pub addressed : c.prom_addr ≢ ""
  pub interval_positive : pos 0 <ℤ c.stream_poll_interval
  pub interval_fits : Fits64 c.stream_poll_interval
  pub failures_positive : pos 1 ≤ℤ c.stream_max_consecutive_failures
  pub failures_fit : Fits64 c.stream_max_consecutive_failures
  pub ttl_fits : Fits64 c.cache_ttl

duration_or-Fits64 : (s : String) (d : ℤ) → Fits64 d → Fits64 (duration_or s d)
unfolding duration_or
duration_or-Fits64 s d f = elim (Option-cases (parse_duration s)) [
  | inl e ↦ ground arith
  | inr (v, e) ↦ ground (arith, parse_duration-Fits64 s v e)
]

positive_duration_or-Fits64 : (s : String) (d : ℤ) → Fits64 d → Fits64 (positive_duration_or s d)
unfolding positive_duration_or
positive_duration_or-Fits64 s d f = ground (arith, duration_or-Fits64 s d f)

positive_duration_or-pos : (s : String) (d : ℤ) → pos 0 <ℤ d → pos 0 <ℤ positive_duration_or s d
unfolding positive_duration_or
positive_duration_or-pos s d h = ground arith

positive_int_or-pos : (s : String) (d : ℤ) → pos 1 ≤ℤ d → pos 1 ≤ℤ positive_int_or s d
unfolding positive_int_or
positive_int_or-pos s d h = ground arith

positive_int_or-Fits64 : (s : String) (d : ℤ) → Fits64 d → Fits64 (positive_int_or s d)
unfolding positive_int_or
positive_int_or-Fits64 s d f = elim (Option-cases (atoi s)) [
  | inl e ↦ ground arith
  | inr (v, e) ↦ ground (arith, atoi-Fits64 s v e)
]

int_fits : (n : ℕ) → n ≤ 9223372036854775807 → Fits64 (pos n)
int_fits n h = ground arith

module _ (m : Metadata) where
  overridden-IsValid : (addr : String) → addr ≢ "" → IsValid (overridden m (defaults addr))
  unfolding overridden defaults
  overridden-IsValid addr h = record {
    addressed = h;
    interval_positive = positive_duration_or-pos _ _ (omega arith);
    interval_fits = positive_duration_or-Fits64 _ _ (int_fits _ (omega arith));
    failures_positive = positive_int_or-pos _ _ (omega arith);
    failures_fit = positive_int_or-Fits64 _ _ (int_fits _ (omega arith));
    ttl_fits = duration_or-Fits64 _ _ (int_fits _ (omega arith));
  }

  -- A configuration that `Parse` returns without an error has an address; its poll interval and its
  -- failure limit are positive, and they and the TTL fit their 64 bits.
  pub parse-IsValid : (parse m).1 ≡ none → IsValid (parse m).0
  unfolding parse
  parse-IsValid h = elim (Bool-cases (str_eq (at_key m "prometheusAddress") "")) [
    | inl e ↦ ground arith
    | inr e ↦ rw e (overridden-IsValid _ (λ p. cc (e, (eq_iff _ _).1 p)))
  ]

  -- `Parse` fails exactly when the metadata give no Prometheus address, or an empty one.
  pub parse_error_iff : ((parse m).1 ≢ none) ↔ (at_key m "prometheusAddress" ≡ "")
  unfolding parse
  parse_error_iff =
      (λ h. ground (arith, eq_iff (at_key m "prometheusAddress") ""), λ e. rw e (λ p. cc))
