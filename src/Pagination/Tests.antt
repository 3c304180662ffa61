-- ===== src/Pagination/Tests.antt =====
-- Runs of the pagination.
use stellar_core.Prelude.{ℕ, ◌*◌, ◌≡◌, refl, some, List, [], ◌∷◌, take}
use stellar_core.Prelude.Text.{Text, codes, text_eq, is_digit, all_digits}
use stellar_core.Decimal.{digits_value}
use stellar_core.Pagination.{
  PaginationQuery, Pagination, parsed, matches_positive_integer, matches_non_negative_integer,
  parse_limit, parse_offset, parse_pagination, slice, paginate,
}
use stellar_core.Pagination.Pages.{pages, pages_cover}

abbrev query_of : Text → Text → PaginationQuery
query_of l o = record { limit = some l; offset = some o }

abbrev letters : List ℕ
letters = 1 ∷ 2 ∷ 3 ∷ 4 ∷ 5 ∷ []

abbrev second_pair : Pagination
second_pair = record { limit = some 2; offset = 2 }

parse_pagination_test : parse_pagination (query_of (codes "2") (codes "2")) ≡ parsed second_pair
unfolding parse_pagination parse_limit parse_offset matches_positive_integer
    matches_non_negative_integer text_eq all_digits is_digit digits_value
parse_pagination_test = refl

paginate_test : paginate letters second_pair ≡ 3 ∷ 4 ∷ []
unfolding paginate slice
paginate_test = refl

pages_cover_example : pages 2 2 letters ≡ take (2 * 2) letters
pages_cover_example = pages_cover 2 2 letters
