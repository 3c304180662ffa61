-- ===== src/Score/Counted.antt =====
-- lib/reputation/score.ts: which outcomes and rates of the evidence are counted.
use stellar_core.Prelude.{
  ◌≤◌, ◌≡◌, refl, ◌∙◌, ◌↔◌, inl, inr, Bool, true, false, not, ◌||◌, Option, none, some, List, [],
  ◌∷◌, arith, Bool-cases, length,
}
use stellar_core.Prelude.Int.{ℤ, leb_ℤ}
use stellar_core.Prelude.Predicates.{filter_by, any, count_by, length-filter_by, any-count_by}
use stellar_core.Prelude.Sort.{sort_by, count_by-sort_by}
use stellar_core.Prelude.Text.{set_has, to_set, Text, text_eq, text_eq_iff}
use stellar_core.Freshness.{instant_time}
use stellar_core.Score.{LatestRate, TransferOutcome, ReputationEvidence}
use stellar_core.Score.Calculate.{outcomes_of, latest_rates_of}
use stellar_core.Score.Latest.{is_later, keep_latest, latest_entries, select_latest_per_corridor}

-- An outcome with a recorded time that is not later than the evaluation.
abbrev pub counts_at : {N : Type 0} → (Text → Option ℤ) → ℤ → TransferOutcome N → Bool
counts_at parse_date evaluated_ms o = elim (instant_time parse_date o.recorded_at) [
  | none ↦ false
  | some t ↦ leb_ℤ t evaluated_ms
]

-- A rate for a listed corridor.
abbrev pub is_listed : List Text → LatestRate → Bool
is_listed slugs rate = any (λ slug. text_eq slug rate.corridor_slug) slugs

module _ {N : Type 0} (parse_date : Text → Option ℤ) where
  pub outcomes_of-counted :
      (input : ReputationEvidence N) (evaluated_ms : ℤ)
      → length (outcomes_of parse_date input evaluated_ms)
        ≡ count_by (counts_at parse_date evaluated_ms) input.transfer_outcomes
  unfolding outcomes_of
  outcomes_of-counted input evaluated_ms =
      length-filter_by (counts_at parse_date evaluated_ms) input.transfer_outcomes

any_cong : {A : Type 0} (p q : A → Bool) (xs : List A) → ((x : A) → p x ≡ q x) → any p xs ≡ any q xs
any_cong p q [] h = refl
any_cong p q (x ∷ xs) h = rw (h x, any_cong p q xs h) refl

any-filter_by :
    (key x : Text) (ys : List Text)
    → text_eq x key ≡ false
    → any (λ y. text_eq y key) (filter_by (λ y. not (text_eq y x)) ys) ≡ any (λ y. text_eq y key) ys
any-filter_by key x [] d = refl
any-filter_by key x (y ∷ ys) d =
    let ih = any-filter_by key x ys d in
    elim (Bool-cases (text_eq y x)) [
      | inl e ↦ let same = (text_eq_iff y x).0 e in rw (e, ih, same, d) refl
      | inr e ↦ rw (e, ih) refl
    ]

set_has-to_set :
    (key : Text) (xs : List Text) → set_has key (to_set xs) ≡ any (λ x. text_eq x key) xs
unfolding set_has to_set
set_has-to_set key [] = refl
set_has-to_set key (x ∷ xs) = elim (Bool-cases (text_eq x key)) [
  | inl e ↦ rw e refl
  | inr e ↦ rw (any-filter_by key x (to_set xs) e, set_has-to_set key xs) refl
]

module _ (parse_date : Text → Option ℤ) (p : Text → Bool) where
  -- The latest rates have the corridors of the rates.
  has-keep_latest :
      (rate : LatestRate) (entries : List LatestRate)
      → any (λ r. p r.corridor_slug) (keep_latest parse_date rate entries)
        ≡ (p rate.corridor_slug || any (λ r. p r.corridor_slug) entries)
  unfolding keep_latest
  has-keep_latest rate [] = refl
  has-keep_latest rate (current ∷ entries) =
      elim (Bool-cases (text_eq current.corridor_slug rate.corridor_slug)) [
        | inl same ↦
            let eq = (text_eq_iff current.corridor_slug rate.corridor_slug).0 same in
            elim (Bool-cases (is_later parse_date rate current)) [
              | inl l ↦ rw (same, l, eq) (ground arith)
              | inr l ↦ rw (same, l, eq) (ground arith)
            ]
        | inr other ↦ rw (other, has-keep_latest rate entries) (ground arith)
      ]

  has-latest_entries :
      (rates entries : List LatestRate)
      → any (λ r. p r.corridor_slug) (latest_entries parse_date rates entries)
        ≡ (any (λ r. p r.corridor_slug) rates || any (λ r. p r.corridor_slug) entries)
  unfolding latest_entries
  has-latest_entries [] entries = refl
  has-latest_entries (rate ∷ rates) entries =
      let ih = has-latest_entries rates (keep_latest parse_date rate entries) in
      let kept = has-keep_latest rate entries in ground (arith, ih, kept)

module _ {N : Type 0} (parse_date : Text → Option ℤ) (locale_before : Text → Text → Bool) where
  -- There is a latest rate exactly when there is a rate for a listed corridor.
  pub latest_rates_of-listed :
      (input : ReputationEvidence N)
      → (1 ≤ length (latest_rates_of parse_date locale_before input))
        ↔ (any (is_listed input.corridor_slugs) input.latest_rates ≡ true)
  unfolding latest_rates_of select_latest_per_corridor
  latest_rates_of-listed input =
      let keys = to_set input.corridor_slugs in
      let slugs = input.corridor_slugs in
      let listed : LatestRate → Bool = λ r. set_has r.corridor_slug keys in
      let entries = latest_entries parse_date input.latest_rates [] in
      let before : LatestRate → LatestRate → Bool =
        λ a b. locale_before a.corridor_slug b.corridor_slug in
      let counted =
        length-filter_by listed (sort_by before entries) ∙ count_by-sort_by before listed entries in
      let found = any-count_by listed entries in
      let kept = has-latest_entries parse_date (λ x. set_has x keys) input.latest_rates [] in
      let renamed =
        any_cong listed (is_listed slugs) input.latest_rates
          (λ r. set_has-to_set r.corridor_slug slugs) in
      ground (arith, counted, found, kept, renamed)
