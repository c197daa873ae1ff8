-- ===== src/Go/Float64/Rounding.antt =====
-- Rounding keeps the order, and keeps what needs no rounding.
use native.Mathlib.Nat.{
  add-zero, add-suc, lt_of_mul-lt-mul_left, lt_of_mul-lt-mul_right, mul-lt-mul_of_pos_right,
  lt_of_le_of_lt, div-lt_iff_lt-mul, le-div_iff_mul-le, mul-le-mul_right, mul-le-mul_left, mul-pos,
  mul-div_cancel, mul-mod_left, pow-suc, pow-le-pow_right, le_trans, one-le-pow, div-mul-le_self,
  div-add-mod,
}
use native.Mathlib.Decide.{dec_lt}
use inference_platform.Prelude.{
  ℕ, zero, suc, ◌+◌, ◌-◌, ◌*◌, ◌/◌, ◌^◌, ◌≤◌, ◌<◌, ◌≡◌, ◌⊎◌, refl, ap, ◌∙◌, arith, ltb, Bool-cases,
  inl, inr, ltb→lt,
}
use inference_platform.Go.Float64.Defs.{precision, shift, round_even, rounded}

-- A number below 2^n * d is below it at the exponent that `shift` finds, whatever the fuel.
pub lt_pow : (n : ℕ) → n < 2 ^ n
lt_pow zero = omega arith
lt_pow (suc n) = omega (arith, lt_pow n, pow-suc 2 n)

twice_pow : (den k : ℕ) → den * 2 ^ suc k ≡ den * 2 * 2 ^ k
twice_pow den k = ap (λ (t : ℕ). den * t) (pow-suc 2 k) ∙ omega arith

div_mono : (a b den : ℕ) → a ≤ b → 0 < den → a / den ≤ b / den
div_mono a b den h p = (le-div_iff_mul-le p).1 (le_trans (div-mul-le_self a den) h)

shift-fits :
    (fuel num den : ℕ)
    → num < precision * (den * 2 ^ fuel)
    → num < precision * (den * 2 ^ shift fuel num den)
unfolding shift
shift-fits zero num den h = h
shift-fits (suc f) num den h = elim (Bool-cases (ltb num (precision * den))) [
  | inl e ↦ rw (e, shift) (omega (arith, ltb→lt num (precision * den) e))
  | inr e ↦
      rw (e, shift) (rw twice_pow (shift-fits f num (den * 2) (omega (arith, twice_pow den f))))
]

shift-least : (fuel num den k : ℕ) → shift fuel num den ≡ suc k → precision * (den * 2 ^ k) ≤ num
unfolding shift
shift-least zero num den k h = ground arith
shift-least (suc f) num den zero h = ground arith
shift-least (suc f) num den (suc k) h = elim (Bool-cases (ltb num (precision * den))) [
  | inl e ↦ ground arith
  | inr e ↦ rw twice_pow (shift-least f num (den * 2) k (ground arith))
]

shift_mono :
    (f g a b den : ℕ)
    → a < precision * (den * 2 ^ f)
    → b < precision * (den * 2 ^ g)
    → a ≤ b
    → shift f a den ≤ shift g b den
unfolding shift
shift_mono zero g a b den p q h = omega arith
shift_mono (suc f) zero a b den p q h = ground (arith)
shift_mono (suc f) (suc g) a b den p q h =
    ground (arith, shift_mono f g a b (den * 2), twice_pow den f, twice_pow den g)

round_even_mono : (a b den : ℕ) → a ≤ b → 0 < den → round_even a den ≤ round_even b den
unfolding round_even
round_even_mono a b den h p =
    ground (arith, div_mono a b den h p, div-add-mod a den, div-add-mod b den)

round_even-le : (num den n : ℕ) → 0 < den → num < n * den → round_even num den ≤ n
unfolding round_even
round_even-le num den n p h = ground (arith, (div-lt_iff_lt-mul p).1 h)

le-round_even : (num den n : ℕ) → 0 < den → n * den ≤ num → n ≤ round_even num den
unfolding round_even
le-round_even num den n p h = ground (arith, (le-div_iff_mul-le p).1 h)

round_even_exact : (n den : ℕ) → 0 < den → round_even (n * den) den ≡ n
unfolding round_even
round_even_exact n den p = ground (arith, mul-div_cancel n p, mul-mod_left n den)

fuel_fits : (num den : ℕ) → 0 < den → num < precision * (den * 2 ^ num)
fuel_fits num den p = omega (arith, lt_pow num, mul-le-mul_right (2 ^ num) p)

pow-pos : (k : ℕ) → 0 < 2 ^ k
pow-pos k = one-le-pow k 2 (omega arith)

scaled-pos : (den k : ℕ) → 0 < den → 0 < den * 2 ^ k
scaled-pos den k p = mul-pos p (pow-pos k)

ℕ-cases : (n : ℕ) → (n ≡ 0) ⊎ ((k : ℕ) × (n ≡ suc k))
ℕ-cases zero = inl refl
ℕ-cases (suc k) = inr (k, refl)

-- the exponent of the last digit kept
exponent : ℕ → ℕ → ℕ
exponent num den = shift num num den

module _ (num den : ℕ) (p : 0 < den) where
  rounded-le : rounded num den ≤ precision * 2 ^ exponent num den
  unfolding rounded exponent
  rounded-le = mul-le-mul_right (2 ^ shift num num den) (
      round_even-le num _ precision (scaled-pos den _ p)
        (shift-fits num num den (fuel_fits num den p)))

  half_digits : (j : ℕ) → exponent num den ≡ suc j → 4503599627370496 * (den * 2 ^ suc j) ≤ num
  unfolding exponent
  half_digits j e =
      omega (arith, shift-least num num den j e, ap (λ (t : ℕ). den * t) (pow-suc 2 j))

  le-rounded : (j : ℕ) → exponent num den ≡ suc j → precision * 2 ^ j ≤ rounded num den
  unfolding rounded exponent
  le-rounded j e = rw e (
      omega (
        arith,
        pow-suc 2 j,
        mul-le-mul_right (2 ^ suc j) (
            le-round_even num (den * 2 ^ suc j) 4503599627370496 (scaled-pos den (suc j) p)
              (half_digits j e)),
      ))

exponent_mono : (a b den : ℕ) → a ≤ b → 0 < den → exponent a den ≤ exponent b den
unfolding exponent
exponent_mono a b den h p = shift_mono a b a b den (fuel_fits a den p) (fuel_fits b den p) h

same_exponent :
    (a b den : ℕ)
    → a ≤ b
    → 0 < den
    → exponent a den ≡ exponent b den
    → rounded a den ≤ rounded b den
unfolding rounded exponent
same_exponent a b den h p e = rw e (
    mul-le-mul_right (2 ^ shift b b den)
      (round_even_mono a b (den * 2 ^ shift b b den) h (scaled-pos den _ p)))

smaller_exponent :
    (a b den j : ℕ)
    → 0 < den
    → exponent b den ≡ suc j
    → exponent a den ≤ j
    → rounded a den ≤ rounded b den
smaller_exponent a b den j p e h = le_trans (rounded-le a den p) (
    le_trans (mul-le-mul_left precision (pow-le-pow_right (omega arith) h))
      (le-rounded b den p j e))

pub rounded_mono : (a b den : ℕ) → a ≤ b → 0 < den → rounded a den ≤ rounded b den
rounded_mono a b den h p = elim (dec_lt (exponent a den) (exponent b den)) [
  | yes lt ↦ smaller_exponent a b den (exponent b den - 1) p (omega arith) (omega arith)
  | no ge ↦ same_exponent a b den h p (omega (arith, exponent_mono a b den h p))
]

pow-add : (i k : ℕ) → 2 ^ (i + k) ≡ 2 ^ i * 2 ^ k
pow-add i zero = simp (add-zero) (omega arith)
pow-add i (suc k) =
    rw (add-suc, pow-suc)
      (omega (
        arith,
        pow-suc 2 k,
        ap (λ (t : ℕ). t * 2) (pow-add i k),
        ap (λ (t : ℕ). 2 ^ i * t) (pow-suc 2 k),
      ))

lt_of_pow-lt : (i j : ℕ) → 2 ^ i < 2 ^ j → i < j
lt_of_pow-lt i j h = elim (dec_lt i j) [
  | yes lt ↦ lt
  | no ge ↦
      absurd (omega (arith, pow-le-pow_right {n = 2} (omega arith) {i = j} {j = i} (omega arith)))
]

-- what has 53 digits above place j needs no exponent above j
exponent-le : (m j den k : ℕ) → m < precision → 0 < den → exponent (m * 2 ^ j * den) den ≡ k → k ≤ j
unfolding exponent
exponent-le m j den zero h p e = omega arith
exponent-le m j den (suc t) h p e = lt_of_pow-lt t j (
    lt_of_mul-lt-mul_left precision (
      lt_of_mul-lt-mul_right den (
        lt_of_le_of_lt (omega (arith, shift-least (m * 2 ^ j * den) (m * 2 ^ j * den) den t e))
          (mul-lt-mul_of_pos_right (mul-lt-mul_of_pos_right h (pow-pos j)) p))))

exact_at :
    (m i k den : ℕ)
    → 0 < den
    → round_even (m * 2 ^ (i + k) * den) (den * 2 ^ k) * 2 ^ k ≡ m * 2 ^ (i + k)
exact_at m i k den p =
    rw pow-add
      (rw (regroup, round_even_exact (m * 2 ^ i) (den * 2 ^ k) (scaled-pos den k p)) (omega arith))
  where
    regroup : m * (2 ^ i * 2 ^ k) * den ≡ m * 2 ^ i * (den * 2 ^ k)
    regroup = omega arith

exact_below :
    (m j k den : ℕ)
    → 0 < den
    → k ≤ j
    → round_even (m * 2 ^ j * den) (den * 2 ^ k) * 2 ^ k ≡ m * 2 ^ j
exact_below m j k den p h =
    let split : j - k + k ≡ j = omega arith in rw split at (exact_at m (j - k) k den p)

-- A number of 53 digits is its own rounding.
pub rounded_exact :
    (m j den : ℕ) → m < precision → 0 < den → rounded (m * 2 ^ j * den) den ≡ m * 2 ^ j
unfolding rounded exponent
rounded_exact m j den h p = exact_below m j _ den p (exponent-le m j den _ h p refl)
