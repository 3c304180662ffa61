-- ===== src/Score/Bounds.antt =====
-- lib/reputation/score.ts: the score, its components and its band stay in their ranges.
use stellar_core.Prelude.{
  ℕ, ◌+◌, ◌*◌, ◌/◌, ◌≤◌, max, ◌≡◌, inl, inr, Bool, ◌||◌, Option, List, [], ◌∷◌, arith, leb,
  if◌then◌else◌, Bool-cases, length, ◌<◌, true, false, ap, ◌∙◌,
}
use stellar_core.Prelude.Int.{ℤ, at}
use stellar_core.Prelude.Predicates.{count_by, filter_by, length-filter_by, count_by-le-length}
use stellar_core.Prelude.Sort.{sort_by, count_by-sort_by}
use stellar_core.Prelude.Text.{set_has, Text, text_eq, text_eq_iff, to_set}
use native.Mathlib.Nat.{div-lt_iff_lt-mul}
use stellar_core.Score.{
  LatestRate, round_div, ratio_basis_points, ReputationEvidence, EvidenceCounts, is_completed,
}
use stellar_core.Score.Calculate.{is_fresh, outcomes_of, latest_rates_of, counts_of}
use stellar_core.Score.Latest.{keep_latest, is_later, latest_entries, select_latest_per_corridor}

round_div-le : (n d : ℕ) → n ≤ 10000 * d → 1 ≤ d → round_div n d ≤ 10000
unfolding round_div
round_div-le n d h p =
    let small : n + d / 2 < 10001 * d = omega arith in
    let below = (div-lt_iff_lt-mul {k = d} {x = n + d / 2} {y = 10001} p).1 small in
    omega (arith, below)

pub ratio_basis_points-le : (n d : ℕ) → n ≤ d → ratio_basis_points n d ≤ 10000
unfolding ratio_basis_points
ratio_basis_points-le n d h = elim (Bool-cases (leb d 0 || leb n 0)) [
  | inl e ↦ rw e (omega arith)
  | inr e ↦
      let positive : 1 ≤ d = ground (arith, e) in
      rw e (round_div-le (n * 10000) d (omega arith) positive)
]

count_by-or :
    {A : Type 0} (p q : A → Bool) (xs : List A)
    → count_by (λ x. p x || q x) xs ≤ count_by p xs + count_by q xs
count_by-or p q [] = omega arith
count_by-or p q (x ∷ xs) = ground (arith, count_by-or p q xs)

-- The entries of a Map whose keys are in a set are at most as many as the set's elements.
pigeonhole :
    (keys : List Text) (entries : List LatestRate)
    → ((x : Text) → count_by (λ r. text_eq x r.corridor_slug) entries ≤ 1)
    → count_by (λ r. set_has r.corridor_slug keys) entries ≤ length keys
unfolding set_has
pigeonhole [] [] h = omega arith
pigeonhole [] (r ∷ entries) h =
    let ih = pigeonhole [] entries (λ x. omega (arith, h x)) in omega (arith, ih)
pigeonhole (x ∷ keys) entries h =
    let ih = pigeonhole keys entries h in
    let split =
      count_by-or (λ r. text_eq x r.corridor_slug) (λ r. set_has r.corridor_slug keys) entries in
    omega (arith, ih, split, h x)

text_eq-other : (x c r : Text) → text_eq c r ≡ false → text_eq x r ≡ true → text_eq x c ≡ false
text_eq-other x c r d e = elim (Bool-cases (text_eq x c)) [
  | inl same ↦ let eq = (text_eq_iff x c).0 same in cc
  | inr other ↦ other
]

own_key :
    (b : Bool) (n : ℕ)
    → (if b then 1 else 0) + n
      ≡ (if b then max 1 ((if b then 1 else 0) + n) else (if b then 1 else 0) + n)
own_key b n = ground arith

module _ (parse_date : Text → Option ℤ) where
  -- Only the key of the new rate can gain an entry, and only where it had none.
  count_by-keep_latest :
      (x : Text) (rate : LatestRate) (entries : List LatestRate)
      → count_by (λ r. text_eq x r.corridor_slug) (keep_latest parse_date rate entries) ≡ (
          if text_eq x rate.corridor_slug
          then max 1 (count_by (λ r. text_eq x r.corridor_slug) entries)
          else count_by (λ r. text_eq x r.corridor_slug) entries)
  unfolding keep_latest
  count_by-keep_latest x rate [] = ground arith
  count_by-keep_latest x rate (current ∷ entries) =
      let n = count_by (λ r. text_eq x r.corridor_slug) entries in
      elim (Bool-cases (text_eq current.corridor_slug rate.corridor_slug)) [
        | inl same ↦
            let eq = (text_eq_iff current.corridor_slug rate.corridor_slug).0 same in
            let own = own_key (text_eq x rate.corridor_slug) n in
            elim (Bool-cases (is_later parse_date rate current)) [
              | inl l ↦ rw (same, l, eq) own
              | inr l ↦ rw (same, l, eq) own
            ]
        | inr other ↦
            let rest = count_by-keep_latest x rate entries in
            elim (Bool-cases (text_eq x rate.corridor_slug)) [
              | inl e ↦
                  let not_current =
                    text_eq-other x current.corridor_slug rate.corridor_slug other e in
                  let ih = rest ∙ ap (λ b. if b then max 1 n else n) e in
                  rw (other, e, not_current) (omega (arith, ih))
              | inr e ↦
                  let ih = rest ∙ ap (λ b. if b then max 1 n else n) e in
                  rw (other, e) (omega (arith, ih))
            ]
      ]

  latest_entries_unique :
      (x : Text) (rates entries : List LatestRate)
      → count_by (λ r. text_eq x r.corridor_slug) entries ≤ 1
      → count_by (λ r. text_eq x r.corridor_slug) (latest_entries parse_date rates entries) ≤ 1
  unfolding latest_entries
  latest_entries_unique x [] entries h = h
  latest_entries_unique x (rate ∷ rates) entries h =
      let kept = count_by-keep_latest x rate entries in
      latest_entries_unique x rates (keep_latest parse_date rate entries) (ground (arith, kept))

length-filter_by-le :
    {A : Type 0} (p : A → Bool) (xs : List A) → length (filter_by p xs) ≤ length xs
length-filter_by-le p xs = omega (arith, length-filter_by p xs, count_by-le-length p xs)

-- No part of the evidence is larger than what it is a part of.
pub record IsCoherent (e : EvidenceCounts) : Type 0 where
  pub fresh_of_latest : e.fresh_rate_count ≤ e.latest_rate_count
  pub fresh_of_corridors : e.fresh_rate_count ≤ e.corridor_count
  pub latest_of_corridors : e.latest_rate_count ≤ e.corridor_count
  pub completed_of_outcomes : e.completed_outcome_count ≤ e.outcome_count

module _ {N : Type 0} (parse_date : Text → Option ℤ) (locale_before : Text → Text → Bool) where
  latest_rates_of-le :
      (input : ReputationEvidence N)
      → length (latest_rates_of parse_date locale_before input)
        ≤ length (to_set input.corridor_slugs)
  unfolding latest_rates_of select_latest_per_corridor
  latest_rates_of-le input =
      let keys = to_set input.corridor_slugs in
      let entries = latest_entries parse_date input.latest_rates [] in
      let listed : LatestRate → Bool = λ r. set_has r.corridor_slug keys in
      let before : LatestRate → LatestRate → Bool =
        λ a b. locale_before a.corridor_slug b.corridor_slug in
      let unique : (x : Text) → count_by (λ r. text_eq x r.corridor_slug) entries ≤ 1 =
        λ x. latest_entries_unique parse_date x input.latest_rates [] (omega arith) in
      omega (
        arith,
        length-filter_by listed (sort_by before entries),
        count_by-sort_by before listed entries,
        pigeonhole keys entries unique,
      )

  pub counts_of-IsCoherent :
      (input : ReputationEvidence N) (evaluated_ms : ℤ)
      → IsCoherent (counts_of parse_date locale_before input evaluated_ms)
  unfolding counts_of
  counts_of-IsCoherent input evaluated_ms =
      let latest = latest_rates_of parse_date locale_before input in
      let in_corridors = latest_rates_of-le input in
      let fresh_latest = length-filter_by-le (is_fresh parse_date (at evaluated_ms)) latest in
      record {
        fresh_of_latest = fresh_latest;
        fresh_of_corridors = omega (arith, fresh_latest, in_corridors);
        latest_of_corridors = in_corridors;
        completed_of_outcomes =
            length-filter_by-le is_completed (outcomes_of parse_date input evaluated_ms);
      }
