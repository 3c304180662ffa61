-- ===== src/Decimal/Arithmetic.antt =====
-- lib/rates/decimal.ts: comparison, sum, product, difference and mean against the values.
use stellar_core.Prelude.{
  ℕ, suc, ◌+◌, ◌-◌, ◌*◌, ◌≤◌, ◌<◌, max, ◌≡◌, sym, ap, ◌∙◌, ◌↔◌, arith, zero, ltb, if◌then◌else◌,
  ◌/◌, ◌%◌, refl, inl, inr, true, leb, ◌==◌, Bool-cases,
}
use native.Mathlib.Decide.{dec_lt}
use native.Mathlib.Nat.{mul-le-mul_right, le_of_mul-le-mul_right, add_comm}
use stellar_core.Decimal.{
  ExactDecimal, power_of_ten, scaled, less, equal, greater, compare_decimals, add_decimals,
  average_decimals, multiply_decimals, abs_decimal_diff,
}
use stellar_core.Decimal.Value.{
  HasValue, SameValue, power_of_ten-add, power_of_ten-pos, mul_cancel, normalize_decimal-SameValue,
}

-- d < e, by cross multiplication.
abbrev pub IsBelow : ExactDecimal → ExactDecimal → Type 0
IsBelow d e = d.coefficient * power_of_ten e.scale < e.coefficient * power_of_ten d.scale

-- The numerator of d + e over the common power of the sum of the scales.
abbrev pub cross_sum : ExactDecimal → ExactDecimal → ℕ
cross_sum d e = d.coefficient * power_of_ten e.scale + e.coefficient * power_of_ten d.scale

-- The numerator of |d - e| over the same power: one of the two truncated differences is 0.
abbrev pub cross_diff : ExactDecimal → ExactDecimal → ℕ
cross_diff d e =
    (d.coefficient * power_of_ten e.scale - e.coefficient * power_of_ten d.scale)
    + (e.coefficient * power_of_ten d.scale - d.coefficient * power_of_ten e.scale)

pub mul_lt_cancel : (a b k : ℕ) → 0 < k → a * k < b * k → a < b
mul_lt_cancel a b k p h = elim (dec_lt a b) [
  | yes below ↦ below
  | no above ↦ absurd (omega (arith, mul-le-mul_right {m = b} {n = a} k (omega arith)))
]

pub mul_lt : (a b k : ℕ) → 0 < k → a < b → a * k < b * k
mul_lt a b zero p h = elim p [ ]
mul_lt a b (suc k) p h = grind arith

pub scaled-value :
    (d : ExactDecimal) (k : ℕ)
    → d.scale ≤ k
    → scaled d k * power_of_ten d.scale ≡ d.coefficient * power_of_ten k
unfolding scaled
scaled-value d k h =
    let e : power_of_ten (k - d.scale + d.scale) ≡ power_of_ten k = ap power_of_ten (omega arith) in
    omega
      (arith, ap (λ (t : ℕ). d.coefficient * t) (sym (power_of_ten-add (k - d.scale) d.scale) ∙ e))

HasValue-rescale :
    (d : ExactDecimal) (n k n' k' : ℕ)
    → HasValue d n k
    → n * power_of_ten k' ≡ n' * power_of_ten k
    → HasValue d n' k'
HasValue-rescale d n k n' k' h e = mul_cancel _ _ (power_of_ten k) (power_of_ten-pos k) (
    omega
      (arith, ap (λ (t : ℕ). t * power_of_ten k') h, ap (λ (t : ℕ). t * power_of_ten d.scale) e))

diff_part : (b d m y e k : ℕ) → (b + d) * m ≡ (y + e) * k → b * m ≡ y * k → d * m ≡ e * k
diff_part b d m y e k h g = omega arith

diff_product :
    (a b m x y k : ℕ)
    → 0 < k
    → b ≤ a
    → a * m ≡ x * k
    → b * m ≡ y * k
    → (a - b) * m ≡ (x - y + (y - x)) * k
diff_product a b m x y k p h ha hb =
    let below : y ≤ x =
      le_of_mul-le-mul_right (omega (arith, mul-le-mul_right {m = b} {n = a} m h)) p in
    diff_part b (a - b) m y (x - y + (y - x)) k
      (ap (λ (t : ℕ). t * m) (omega arith) ∙ ha ∙ ap (λ (t : ℕ). t * k) (omega arith)) hb

distance_product :
    (a b m x y k : ℕ)
    → 0 < k
    → a * m ≡ x * k
    → b * m ≡ y * k
    → (if leb b a then a - b else b - a) * m ≡ (x - y + (y - x)) * k
distance_product a b m x y k p ha hb = elim (Bool-cases (leb b a)) [
  | inl below ↦ rw below (diff_product a b m x y k p (ground arith) ha hb)
  | inr above ↦ rw above (
      diff_product b a m y x k p (ground arith) hb ha
      ∙ ap (λ (t : ℕ). t * k) (add_comm (y - x) (x - y)))
]

-- Half of S over k, as n over another power, and S as a cross sum.
mean_product :
    (c s k n S total l k' : ℕ)
    → 0 < k
    → 0 < k'
    → c * k' ≡ n * s
    → 2 * n * k ≡ S * k'
    → S * l ≡ total * k
    → 2 * c * l ≡ total * s
mean_product c s k n S total l k' p p' h g e = mul_cancel _ _ (k * k') (grind arith) (
    omega (
      arith,
      ap (λ (t : ℕ). t * (2 * l * k)) h,
      ap (λ (t : ℕ). t * (s * l)) g,
      ap (λ (t : ℕ). t * (s * k')) e,
    ))

-- The three answers of the source's cascade, for tests that agree with the order of x and y.
three_way :
    (a b x y : ℕ)
    → (a < b → x < y)
    → (x < y → a < b)
    → (b < a → y < x)
    → (y < x → b < a)
    → let c = if ltb a b then less else if ltb b a then greater else equal in
      ((c ≡ less) ↔ (x < y)) × ((c ≡ equal) ↔ (x ≡ y)) × ((c ≡ greater) ↔ (y < x))
three_way a b x y f f' g g' = ground arith

-- Two decimals brought to a common scale, times the powers of their own scales.
module _ (l r : ExactDecimal) (k : ℕ) (hl : l.scale ≤ k) (hr : r.scale ≤ k) where
  left_product :
      scaled l k * power_of_ten (l.scale + r.scale)
      ≡ l.coefficient * power_of_ten r.scale * power_of_ten k
  left_product = omega (
    arith,
    ap (λ (t : ℕ). scaled l k * t) (power_of_ten-add l.scale r.scale),
    ap (λ (t : ℕ). t * power_of_ten r.scale) (scaled-value l k hl),
  )

  right_product :
      scaled r k * power_of_ten (l.scale + r.scale)
      ≡ r.coefficient * power_of_ten l.scale * power_of_ten k
  right_product = omega (
    arith,
    ap (λ (t : ℕ). scaled r k * t) (power_of_ten-add l.scale r.scale),
    ap (λ (t : ℕ). t * power_of_ten l.scale) (scaled-value r k hr),
  )

  scaled_lt : IsBelow l r → scaled l k < scaled r k
  scaled_lt h = mul_lt_cancel _ _ (power_of_ten (l.scale + r.scale)) (power_of_ten-pos _) (
      omega
        (arith, left_product, right_product, mul_lt _ _ (power_of_ten k) (power_of_ten-pos k) h))

  lt_scaled : scaled l k < scaled r k → IsBelow l r
  lt_scaled h = mul_lt_cancel _ _ (power_of_ten k) (power_of_ten-pos k) (
      omega (
        arith,
        left_product,
        right_product,
        mul_lt _ _ (power_of_ten (l.scale + r.scale)) (power_of_ten-pos _) h,
      ))

  scaled_sum :
      (scaled l k + scaled r k) * power_of_ten (l.scale + r.scale) ≡ cross_sum l r * power_of_ten k
  scaled_sum = omega (arith, left_product, right_product)

  scaled_diff :
      scaled r k ≤ scaled l k
      → (scaled l k - scaled r k) * power_of_ten (l.scale + r.scale)
        ≡ cross_diff l r * power_of_ten k
  scaled_diff h =
      diff_product (scaled l k) (scaled r k) (power_of_ten (l.scale + r.scale)) _ _ _
        (power_of_ten-pos k) h left_product right_product

-- `compareDecimals` orders two decimals as their values, whatever their scales.
pub compare_decimals_iff :
    (l r : ExactDecimal)
    → ((compare_decimals l r ≡ less) ↔ IsBelow l r)
      × ((compare_decimals l r ≡ equal) ↔ SameValue l r)
      × ((compare_decimals l r ≡ greater) ↔ IsBelow r l)
unfolding compare_decimals
compare_decimals_iff l r =
    let k = max l.scale r.scale in
    let hl : l.scale ≤ max l.scale r.scale = omega arith in
    let hr : r.scale ≤ max l.scale r.scale = omega arith in
    three_way (scaled l k) (scaled r k) _ _ (lt_scaled l r k hl hr) (scaled_lt l r k hl hr)
      (lt_scaled r l k hr hl) (scaled_lt r l k hr hl)

pub add_decimals_exact :
    (l r : ExactDecimal) → HasValue (add_decimals l r) (cross_sum l r) (l.scale + r.scale)
unfolding add_decimals
add_decimals_exact l r =
    HasValue-rescale (add_decimals l r) _ (max l.scale r.scale) _ _ (normalize_decimal-SameValue _)
      (scaled_sum l r (max l.scale r.scale) (omega arith) (omega arith))

multiply_decimals_exact :
    (l r : ExactDecimal)
    → HasValue (multiply_decimals l r) (l.coefficient * r.coefficient) (l.scale + r.scale)
unfolding multiply_decimals
multiply_decimals_exact l r = normalize_decimal-SameValue _

abs_decimal_diff_exact :
    (l r : ExactDecimal) → HasValue (abs_decimal_diff l r) (cross_diff l r) (l.scale + r.scale)
unfolding abs_decimal_diff
abs_decimal_diff_exact l r =
    let k = max l.scale r.scale in
    HasValue-rescale (abs_decimal_diff l r) _ k _ _ (normalize_decimal-SameValue _) (
      distance_product (scaled l k) (scaled r k) (power_of_ten (l.scale + r.scale)) _ _ _
        (power_of_ten-pos k) (left_product l r k (omega arith) (omega arith))
        (right_product l r k (omega arith) (omega arith)))

halves : (n : ℕ) → (n % 2 == 0) ≡ true → 2 * (n / 2) ≡ n
halves n h = let e : n % 2 ≡ 0 = ground arith in omega arith

ten : power_of_ten 1 ≡ 10
unfolding power_of_ten
ten = refl

tenth : (n k : ℕ) → 2 * (n * 5) * power_of_ten k ≡ n * power_of_ten (k + 1)
tenth n k =
    let e : power_of_ten (k + 1) ≡ power_of_ten k * 10 =
      power_of_ten-add k 1 ∙ ap (λ (t : ℕ). power_of_ten k * t) ten in
    rw e (omega arith)

-- Twice the mean is the sum, with no rounding.
average_decimals_exact :
    (l r : ExactDecimal)
    → 2 * (average_decimals l r).coefficient * power_of_ten (l.scale + r.scale)
      ≡ cross_sum l r * power_of_ten (average_decimals l r).scale
unfolding average_decimals
average_decimals_exact l r =
    let k = max l.scale r.scale in
    let sum = scaled l k + scaled r k in
    let total : sum * power_of_ten (l.scale + r.scale) ≡ cross_sum l r * power_of_ten k =
      scaled_sum l r k (omega arith) (omega arith) in
    elim (Bool-cases (sum % 2 == 0)) [
      | inl even ↦ rw even (
          mean_product _ _ (power_of_ten k) (sum / 2) sum _ _ (power_of_ten k) (power_of_ten-pos k)
            (power_of_ten-pos k) (normalize_decimal-SameValue _)
            (ap (λ (t : ℕ). t * power_of_ten k) (halves sum even)) total)
      | inr odd ↦ rw odd (
          mean_product _ _ (power_of_ten k) (sum * 5) sum _ _ (power_of_ten (k + 1))
            (power_of_ten-pos k) (power_of_ten-pos (k + 1)) (normalize_decimal-SameValue _)
            (tenth sum k) total)
    ]

-- Sum, product, distance and mean are exact: each result has the value that the operation names,
-- over the power of ten of the sum of the scales.
pub decimal_operations_exact :
    (l r : ExactDecimal)
    → HasValue (add_decimals l r) (cross_sum l r) (l.scale + r.scale)
      × HasValue (multiply_decimals l r) (l.coefficient * r.coefficient) (l.scale + r.scale)
      × HasValue (abs_decimal_diff l r) (cross_diff l r) (l.scale + r.scale)
      × (2 * (average_decimals l r).coefficient * power_of_ten (l.scale + r.scale)
          ≡ cross_sum l r * power_of_ten (average_decimals l r).scale)
decimal_operations_exact l r = (
  add_decimals_exact l r,
  multiply_decimals_exact l r,
  abs_decimal_diff_exact l r,
  average_decimals_exact l r,
)
