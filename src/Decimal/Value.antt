-- ===== src/Decimal/Value.antt =====
-- lib/rates/decimal.ts: the value that an exact decimal stands for, and what the operations do to it.
use stellar_core.Prelude.{
  ℕ, zero, suc, ◌+◌, ◌*◌, ◌/◌, ◌%◌, ◌<◌, ◌≡◌, refl, ◌≢◌, ◌⊎◌, inl, inr, arith, ◌==◌, Bool-cases, ap,
  ◌↔◌, ==_iff, ◌-◌, ◌∙◌,
}
use native.Mathlib.Decide.{dec_le}
use native.Mathlib.Nat.{add-zero, le_of_mul-le-mul_right, le_antisymm, add-suc}
use stellar_core.Decimal.{ExactDecimal, power_of_ten, normalize_decimal, normalize_loop}

-- `d` has the value n / 10 ^ k.
abbrev pub HasValue : ExactDecimal → ℕ → ℕ → Type 0
HasValue d n k = d.coefficient * power_of_ten k ≡ n * power_of_ten d.scale

abbrev pub SameValue : ExactDecimal → ExactDecimal → Type 0
SameValue d e = HasValue d e.coefficient e.scale

-- No trailing zero in the fraction.
abbrev pub IsNormal : ExactDecimal → Type 0
IsNormal d = (d.scale ≡ 0) ⊎ (d.coefficient % 10 ≢ 0)

pub power_of_ten-add : (a b : ℕ) → power_of_ten (a + b) ≡ power_of_ten a * power_of_ten b
unfolding power_of_ten
power_of_ten-add a zero = rw add-zero (omega arith)
power_of_ten-add a (suc b) =
    rw add-suc (omega (arith, ap (λ (t : ℕ). t * 10) (power_of_ten-add a b)))

pub power_of_ten-pos : (a : ℕ) → 0 < power_of_ten a
unfolding power_of_ten
power_of_ten-pos zero = omega arith
power_of_ten-pos (suc a) = omega (arith, power_of_ten-pos a)

-- A trailing zero may be dropped from the numerator together with one power.
tenfold :
    (c s : ℕ) (d : ExactDecimal)
    → HasValue d (c / 10) s
    → c % 10 ≡ 0
    → d.coefficient * (power_of_ten s * 10) ≡ c * power_of_ten d.scale
tenfold c s d h z =
    let e : c ≡ 10 * (c / 10) = omega arith in
    omega (arith, h, ap (λ (t : ℕ). t * power_of_ten d.scale) e)

normalize_loop-HasValue : (c s : ℕ) → HasValue (normalize_loop c s) c s
unfolding normalize_loop power_of_ten
normalize_loop-HasValue c zero = refl
normalize_loop-HasValue c (suc s) = elim (Bool-cases (c % 10 == 0)) [
  | inl divides ↦
      rw divides (tenfold c s _ (normalize_loop-HasValue (c / 10) s) ((==_iff _ _).0 divides))
  | inr other ↦ rw other
]

normalize_loop-IsNormal : (c s : ℕ) → IsNormal (normalize_loop c s)
unfolding normalize_loop
normalize_loop-IsNormal c zero = inl refl
normalize_loop-IsNormal c (suc s) = ground (arith, normalize_loop-IsNormal (c / 10) s)

-- Cancelling a common positive factor.
pub mul_cancel : (a b k : ℕ) → 0 < k → a * k ≡ b * k → a ≡ b
mul_cancel a b k p e =
    le_antisymm (le_of_mul-le-mul_right (omega (arith, e)) p)
      (le_of_mul-le-mul_right (omega (arith, e)) p)

pub SameValue-sym : (d e : ExactDecimal) → SameValue d e → SameValue e d
SameValue-sym d e h = omega (arith, h)

pub SameValue-trans : (d e f : ExactDecimal) → SameValue d e → SameValue e f → SameValue d f
SameValue-trans d e f h k = mul_cancel _ _ (power_of_ten e.scale) (power_of_ten-pos e.scale) (
    omega (
      arith,
      ap (λ (t : ℕ). t * power_of_ten f.scale) h,
      ap (λ (t : ℕ). t * power_of_ten d.scale) k,
    ))

shifted_coefficient :
    (d e : ExactDecimal) (k : ℕ)
    → e.scale ≡ d.scale + k
    → SameValue d e
    → d.coefficient * power_of_ten k ≡ e.coefficient
shifted_coefficient d e k s v = mul_cancel _ _ (power_of_ten d.scale) (power_of_ten-pos d.scale) (
    omega (
      arith,
      v,
      ap (λ (t : ℕ). d.coefficient * t) (ap power_of_ten s ∙ power_of_ten-add d.scale k),
    ))

normal_of_shift :
    (d e : ExactDecimal) (k : ℕ)
    → e.scale ≡ d.scale + k
    → IsNormal e
    → SameValue d e
    → (d.coefficient ≡ e.coefficient) × (d.scale ≡ e.scale)
unfolding power_of_ten
normal_of_shift d e zero s n v = omega (arith, shifted_coefficient d e 0 s v)
normal_of_shift d e (suc k) s n v =
    let c : d.coefficient * (power_of_ten k * 10) ≡ e.coefficient =
      shifted_coefficient d e (suc k) s v in
    absurd (omega arith)

normal_unique : (d e : ExactDecimal) → IsNormal d → IsNormal e → SameValue d e → d ≡ e
normal_unique d e n m v = elim (dec_le d.scale e.scale) [
  | yes below ↦
      let (c, s) = normal_of_shift d e (e.scale - d.scale) (omega arith) m v in ground arith
  | no above ↦
      let (c, s) = normal_of_shift e d (d.scale - e.scale) (omega arith) n (SameValue-sym d e v) in
      ground arith
]

pub normalize_decimal-SameValue : (d : ExactDecimal) → SameValue (normalize_decimal d) d
unfolding normalize_decimal
normalize_decimal-SameValue d = normalize_loop-HasValue d.coefficient d.scale

pub normalize_decimal-IsNormal : (d : ExactDecimal) → IsNormal (normalize_decimal d)
unfolding normalize_decimal
normalize_decimal-IsNormal d = normalize_loop-IsNormal d.coefficient d.scale

equal_normal-SameValue :
    (d e : ExactDecimal) → normalize_decimal d ≡ normalize_decimal e → SameValue d e
equal_normal-SameValue d e h =
    SameValue-trans d (normalize_decimal d) e
      (SameValue-sym (normalize_decimal d) d (normalize_decimal-SameValue d))
      (rw h (normalize_decimal-SameValue e))

SameValue-equal_normal :
    (d e : ExactDecimal) → SameValue d e → normalize_decimal d ≡ normalize_decimal e
SameValue-equal_normal d e h =
    normal_unique (normalize_decimal d) (normalize_decimal e) (normalize_decimal-IsNormal d)
      (normalize_decimal-IsNormal e)
      (SameValue-trans (normalize_decimal d) d (normalize_decimal e) (normalize_decimal-SameValue d)
        (SameValue-trans d e (normalize_decimal e) h
          (SameValue-sym (normalize_decimal e) e (normalize_decimal-SameValue e))))

-- `normalizeDecimal` keeps the value, drops every trailing zero of the fraction, and gives the same
-- record for two decimals exactly when they have the same value: its results are canonical.
pub normalize_decimal-canonical :
    (d e : ExactDecimal)
    → SameValue (normalize_decimal d) d
      × IsNormal (normalize_decimal d)
      × ((normalize_decimal d ≡ normalize_decimal e) ↔ SameValue d e)
normalize_decimal-canonical d e = (
  normalize_decimal-SameValue d,
  normalize_decimal-IsNormal d,
  (equal_normal-SameValue d e, SameValue-equal_normal d e),
)
