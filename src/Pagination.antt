-- ===== src/Pagination.antt =====
-- lib/api/pagination.ts: the `limit` and `offset` of the directory routes. The query is the two
-- values that `URLSearchParams` gives; `Number(raw)` of a string of digits is its exact value,
-- which decides `value > MAX_PAGE_LIMIT` and `isSafeInteger` in the same way as its rounding.
mod Pages
mod Tests
use stellar_core.Prelude.{
  ℕ, ◌+◌, ◌-◌, Bool, false, not, ◌&&◌, ◌||◌, Option, none, some, List, [], ◌∷◌, ltb, leb,
  if◌then◌else◌, take, drop, zero, suc,
}
use stellar_core.Prelude.Text.{Text, codes, text_eq, all_digits}
use stellar_core.Decimal.{digits_value}

abbrev pub max_page_limit : ℕ
max_page_limit = 100

-- `Number.MAX_SAFE_INTEGER`.
abbrev pub max_safe_integer : ℕ
max_safe_integer = 9007199254740991

pub record PaginationQuery : Type 0 where
  pub limit : Option Text
  pub offset : Option Text

pub record Pagination : Type 0 where
  pub limit : Option ℕ
  pub offset : ℕ

-- A parsed value, or the message of the error.
pub data ParseResult (A : Type 0) : Type 0 where
  parsed : A → ParseResult A
  refused : Text → ParseResult A

unfoldable pub no_pagination : Pagination
no_pagination = record { limit = none; offset = 0 }

unfoldable pub matches_positive_integer : Text → Bool
matches_positive_integer [] = false
matches_positive_integer (c ∷ s) = leb b'1' c && leb c b'9' && all_digits s

unfoldable pub matches_non_negative_integer : Text → Bool
unfolding matches_positive_integer
matches_non_negative_integer s = text_eq s (codes "0") || matches_positive_integer s

limit_message : Text
limit_message = codes "limit must be a positive integer no greater than 100."

offset_message : Text
offset_message = codes "offset must be a non-negative integer."

unfoldable pub parse_limit : Option Text → ParseResult (Option ℕ)
unfolding limit_message
parse_limit none = parsed none
parse_limit (some raw) =
    if not (matches_positive_integer raw)
    then refused limit_message
    else if ltb max_page_limit (digits_value 0 raw)
    then refused limit_message
    else parsed (some (digits_value 0 raw))

unfoldable pub parse_offset : Option Text → ParseResult ℕ
unfolding offset_message
parse_offset none = parsed 0
parse_offset (some raw) =
    if not (matches_non_negative_integer raw)
    then refused offset_message
    else if ltb max_safe_integer (digits_value 0 raw)
    then refused offset_message
    else parsed (digits_value 0 raw)

-- The tests that follow both parsers.
combine : Option ℕ → ℕ → Pagination
unfolding no_pagination
combine none zero = no_pagination
combine none (suc n) = record { limit = none; offset = suc n }
combine (some l) offset = record { limit = some l; offset = offset }

with_offset : Option ℕ → ParseResult ℕ → ParseResult Pagination
unfolding combine
with_offset limit (refused message) = refused message
with_offset limit (parsed offset) = parsed (combine limit offset)

with_limit : ParseResult (Option ℕ) → ParseResult ℕ → ParseResult Pagination
unfolding with_offset
with_limit (refused message) offset = refused message
with_limit (parsed limit) offset = with_offset limit offset

unfoldable pub parse_pagination : PaginationQuery → ParseResult Pagination
unfolding with_limit parse_limit parse_offset
parse_pagination query = with_limit (parse_limit query.limit) (parse_offset query.offset)

module _ {ℓ} {A : Type ℓ} where
  -- `Array.prototype.slice`, for indices that are not negative.
  unfoldable pub slice : List A → ℕ → ℕ → List A
  slice items start end_index = take (end_index - start) (drop start items)

  unfoldable pub paginate : List A → Pagination → List A
  unfolding slice
  paginate items pagination = elim pagination.limit [
    | none ↦ drop pagination.offset items
    | some limit ↦ slice items pagination.offset (pagination.offset + limit)
  ]
