-- ===== src/Median/Order.antt =====
-- lib/rates/median.ts: the median lies in the middle of the included rates.
use stellar_core.Prelude.{
  ℕ, ◌+◌, ◌*◌, ◌≤◌, ◌<◌, ◌≡◌, sym, ap, ◌∙◌, ◌↔◌, false, Option, some, List, arith, length, suc, ◌-◌,
  ◌/◌, ◌%◌, inl, inr, none, leb, ◌==◌, if◌then◌else◌, ==_iff, Bool-cases, get_or,
}
use stellar_core.Prelude.Int.{ℤ, Date}
use stellar_core.Prelude.Predicates.{count_by}
use stellar_core.Prelude.Sort.{
  IsOrdered, Asymmetric, NegTransitive, sort_by, length-sort_by, count_by-sort_by,
  sort_by-IsOrdered, count_by-before, count_by-after, get_or-ordered,
}
use stellar_core.Prelude.Text.{Text}
use native.Mathlib.Nat.{mul-le-mul_right, le_of_mul-le-mul_right, le_refl}
use stellar_core.Decimal.{ExactDecimal, power_of_ten, average_decimals, format_decimal}
use stellar_core.Decimal.Arithmetic.{compare_decimals_iff, decimal_operations_exact}
use stellar_core.Decimal.Value.{power_of_ten-add, power_of_ten-pos}
use stellar_core.Median.{
  MedianSource, decimal_before, middle_value, included_decimals, sorted_decimals,
  compute_fresh_median, min_fresh_sources, zero_decimal,
}

not_before_iff :
    (l r : ExactDecimal)
    → (decimal_before r l ≡ false)
      ↔ (l.coefficient * power_of_ten r.scale ≤ r.coefficient * power_of_ten l.scale)
not_before_iff l r = ground (
  arith,
  (compare_decimals_iff r l).0,
  (compare_decimals_iff r l).1,
  (compare_decimals_iff r l).2,
)

decimal-asym : Asymmetric decimal_before
decimal-asym l r h = ground (arith, (compare_decimals_iff l r).0, (not_before_iff l r))

le_chain : (a b c p q r : ℕ) → 0 < q → a * q ≤ b * p → b * r ≤ c * q → a * r ≤ c * p
le_chain a b c p q r pos_q h k =
    le_of_mul-le-mul_right
      (omega (
        arith,
        mul-le-mul_right {m = a * q} {n = b * p} r h,
        mul-le-mul_right {m = b * r} {n = c * q} p k,
      ))
      pos_q

decimal-trans : NegTransitive decimal_before
decimal-trans x y z h k = (not_before_iff x z).1 (
    le_chain x.coefficient y.coefficient z.coefficient (power_of_ten x.scale) (power_of_ten y.scale)
      (power_of_ten z.scale) (power_of_ten-pos y.scale) ((not_before_iff x y).0 h)
      ((not_before_iff y z).0 k))

-- a / p ≤ b / q, and m / s is their mean.
mean_above :
    (a b m p q s : ℕ)
    → 0 < p
    → 0 < q
    → a * q ≤ b * p
    → 2 * m * (p * q) ≡ (a * q + b * p) * s
    → (a * s ≤ m * p) × (m * q ≤ b * s)
mean_above a b m p q s hp hq h e =
    let scaled_order : a * q * s ≤ b * p * s = mul-le-mul_right s h in
    (
      le_of_mul-le-mul_right {k = q} (omega (arith, e, scaled_order)) hq,
      le_of_mul-le-mul_right {k = p} (omega (arith, e, scaled_order)) hp,
    )

-- The mean of two decimals in order lies between them.
average_between :
    (l r : ExactDecimal)
    → decimal_before r l ≡ false
    → (decimal_before (average_decimals l r) l ≡ false)
      × (decimal_before r (average_decimals l r) ≡ false)
average_between l r h =
    let m = average_decimals l r in
    let (low, high) =
      mean_above l.coefficient r.coefficient m.coefficient (power_of_ten l.scale)
        (power_of_ten r.scale) (power_of_ten m.scale) (power_of_ten-pos l.scale)
        (power_of_ten-pos r.scale) ((not_before_iff l r).0 h)
        (ap (λ (t : ℕ). 2 * m.coefficient * t) (sym (power_of_ten-add l.scale r.scale))
          ∙ (decimal_operations_exact l r).3) in
    ((not_before_iff l m).1 low, (not_before_iff m r).1 high)

itself_not_before : (d : ExactDecimal) → decimal_before d d ≡ false
itself_not_before d = (not_before_iff d d).1 (le_refl _)

-- The decimals at one middle position, and at two.
module _ (ds : List ExactDecimal) (o : IsOrdered decimal_before ds) where
  odd_splits :
      (k : ℕ)
      → length ds ≡ 2 * k + 1
      → let m = get_or ds k zero_decimal in
        (2 * count_by (λ d. decimal_before d m) ds ≤ length ds)
        × (2 * count_by (λ d. decimal_before m d) ds ≤ length ds)
  odd_splits k e =
      let m = get_or ds k zero_decimal in
      let low =
        count_by-before decimal_before decimal-asym decimal-trans m zero_decimal ds k o
          (omega (arith, e)) (itself_not_before m) in
      let high =
        count_by-after decimal_before decimal-asym decimal-trans m zero_decimal ds k o
          (omega (arith, e)) (itself_not_before m) in
      (omega (arith, low, e), omega (arith, high, e))

  even_splits :
      (j k : ℕ)
      → k ≡ suc j
      → length ds ≡ 2 * k
      → let m = average_decimals (get_or ds j zero_decimal) (get_or ds k zero_decimal) in
        (2 * count_by (λ d. decimal_before d m) ds ≤ length ds)
        × (2 * count_by (λ d. decimal_before m d) ds ≤ length ds)
  even_splits j k s e =
      let l = get_or ds j zero_decimal in
      let r = get_or ds k zero_decimal in
      let in_order : decimal_before r l ≡ false = rw s (
        get_or-ordered decimal_before decimal-asym decimal-trans zero_decimal ds j o
          (omega (arith, s, e))) in
      let (above, below) = average_between l r in_order in
      let low =
        count_by-before decimal_before decimal-asym decimal-trans (average_decimals l r)
          zero_decimal ds k o (omega (arith, s, e)) below in
      let high =
        count_by-after decimal_before decimal-asym decimal-trans (average_decimals l r) zero_decimal
          ds j o (omega (arith, s, e)) above in
      (omega (arith, low, e), omega (arith, high, e, s))

-- At most half of an ordered list stands on either side of its middle value.
middle_value-splits :
    (ds : List ExactDecimal)
    → IsOrdered decimal_before ds
    → 2 ≤ length ds
    → (2 * count_by (λ d. decimal_before d (middle_value ds)) ds ≤ length ds)
      × (2 * count_by (λ d. decimal_before (middle_value ds) d) ds ≤ length ds)
unfolding middle_value
middle_value-splits ds o n = elim (Bool-cases (length ds % 2 == 1)) [
  | inl odd ↦
      let e : length ds % 2 ≡ 1 = (==_iff _ _).0 odd in
      rw odd (odd_splits ds o (length ds / 2) (omega arith))
  | inr even ↦
      let e : length ds % 2 ≡ 0 = ground arith in
      rw even (even_splits ds o (length ds / 2 - 1) (length ds / 2) (omega arith) (omega arith))
]

enough_sources :
    (n : ℕ) (m : Text) → 2 ≤ n → (if leb min_fresh_sources n then some m else none) ≡ some m
enough_sources n m h = ground arith

-- With two or more included rates the result is the text of a decimal m such that at most half of
-- the included rates are smaller than m and at most half are greater.
pub median_splits :
    (parse_date : Text → Option ℤ) (now : Date) (ss : List MedianSource)
    → 2 ≤ length (included_decimals parse_date now ss)
    → (m : ExactDecimal) × ((compute_fresh_median parse_date now ss).median
        ≡ some (format_decimal m))
      × (2 * count_by (λ d. decimal_before d m) (included_decimals parse_date now ss)
          ≤ length (included_decimals parse_date now ss))
      × (2 * count_by (λ d. decimal_before m d) (included_decimals parse_date now ss)
          ≤ length (included_decimals parse_date now ss))
unfolding compute_fresh_median sorted_decimals
median_splits parse_date now ss h =
    let ds = included_decimals parse_date now ss in
    let sorted = sort_by decimal_before ds in
    let same : length sorted ≡ length ds = length-sort_by decimal_before ds in
    let (low, high) =
      middle_value-splits sorted (sort_by-IsOrdered decimal_before decimal-asym decimal-trans ds)
        (rw same h) in
    let m = middle_value sorted in
    (
      m,
      enough_sources (length sorted) _ (rw same h),
      omega (arith, same, low, count_by-sort_by decimal_before (λ d. decimal_before d m) ds),
      omega (arith, same, high, count_by-sort_by decimal_before (λ d. decimal_before m d) ds),
    )
