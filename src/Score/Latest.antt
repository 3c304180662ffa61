-- ===== src/Score/Latest.antt =====
-- lib/reputation/score.ts: `selectLatestPerCorridor`. The platform's string order, which
-- `localeCompare` gives, is the parameter `locale_before`.
use stellar_core.Prelude.{Bool, true, false, Option, none, some, List, [], ◌∷◌, if◌then◌else◌}
use stellar_core.Prelude.Int.{ℤ, ltb_ℤ}
use stellar_core.Prelude.Sort.{sort_by}
use stellar_core.Prelude.Text.{Text, text_eq}
use stellar_core.Freshness.{instant_time}
use stellar_core.Score.{LatestRate}

-- `timestampOrMinimum(a) > timestampOrMinimum(b)`.
unfoldable pub later : Option ℤ → Option ℤ → Bool
later none b = false
later (some a) none = true
later (some a) (some b) = ltb_ℤ b a

module _ (parse_date : Text → Option ℤ) where
  unfoldable pub is_later : LatestRate → LatestRate → Bool
  unfolding later
  is_later rate current =
      later (instant_time parse_date rate.captured_at) (instant_time parse_date current.captured_at)

  -- One turn of the loop, on the entries of the Map.
  unfoldable pub keep_latest : LatestRate → List LatestRate → List LatestRate
  unfolding is_later
  keep_latest rate [] = rate ∷ []
  keep_latest rate (current ∷ entries) =
      let rest = keep_latest rate entries in
      if text_eq current.corridor_slug rate.corridor_slug
      then (if is_later rate current then rate ∷ entries else current ∷ entries)
      else current ∷ rest

  unfoldable pub latest_entries : List LatestRate → List LatestRate → List LatestRate
  unfolding keep_latest
  latest_entries [] entries = entries
  latest_entries (rate ∷ rates) entries = latest_entries rates (keep_latest rate entries)

  unfoldable pub select_latest_per_corridor :
      (Text → Text → Bool) → List LatestRate → List LatestRate
  unfolding latest_entries
  select_latest_per_corridor locale_before rates =
      sort_by (λ left right. locale_before left.corridor_slug right.corridor_slug)
        (latest_entries rates [])
