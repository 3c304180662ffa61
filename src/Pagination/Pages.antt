-- ===== src/Pagination/Pages.antt =====
-- lib/api/pagination.ts: what a parsed query can ask for, and that pages cover a list.
use stellar_core.Prelude.{
  ℕ, zero, suc, ◌+◌, ◌-◌, ◌*◌, ◌≤◌, ◌≡◌, refl, ap, ◌∙◌, true, Option, none, some, List, [], ◌∷◌,
  ◌++◌, arith, length, take, drop, length-take, sym,
}
use stellar_core.Prelude.Text.{Text}
use stellar_core.Decimal.{digits_value}
use stellar_core.Pagination.{
  max_safe_integer, PaginationQuery, Pagination, ParseResult, parsed, refused,
  matches_positive_integer, parse_limit, parse_offset, parse_pagination, slice, paginate, combine,
  with_offset, with_limit,
}

digits_value-ge : (n : ℕ) (s : Text) → n ≤ digits_value n s
unfolding digits_value
digits_value-ge n [] = omega arith
digits_value-ge n (c ∷ s) =
    let rest = digits_value-ge (n * 10 + (c - b'0')) s in omega (arith, rest)

positive_value : (raw : Text) → matches_positive_integer raw ≡ true → 1 ≤ digits_value 0 raw
unfolding matches_positive_integer digits_value
positive_value [] e = ground arith
positive_value (c ∷ s) e = let ge = digits_value-ge (c - b'0') s in ground (arith, ge)

parse_limit-bounds :
    (raw : Option Text) (limit : ℕ)
    → parse_limit raw ≡ parsed (some limit)
    → (1 ≤ limit) × (limit ≤ 100)
unfolding parse_limit
parse_limit-bounds none limit e = ground arith
parse_limit-bounds (some raw) limit e =
    let positive = positive_value raw in ground (arith, positive)

parse_offset-bounds :
    (raw : Option Text) (offset : ℕ) → parse_offset raw ≡ parsed offset → offset ≤ max_safe_integer
unfolding parse_offset
parse_offset-bounds none offset e = ground arith
parse_offset-bounds (some raw) offset e = ground arith

-- An accepted query is made of the two accepted parts.
combined :
    (l : ParseResult (Option ℕ)) (o : ParseResult ℕ) (p : Pagination)
    → with_limit l o ≡ parsed p
    → (l ≡ parsed p.limit) × (o ≡ parsed p.offset)
unfolding with_limit with_offset combine
combined (refused m) o p e = ground arith
combined (parsed l) (refused m) p e = ground arith
combined (parsed none) (parsed zero) p e = ground arith
combined (parsed none) (parsed (suc n)) p e = ground arith
combined (parsed (some l)) (parsed o) p e = ground arith

-- A query that is accepted with a limit asks for 1 to 100 items from a safe integer on, and its
-- page of any list has at most that many items.
pub parse_pagination-bounds :
    {A : Type 0} (query : PaginationQuery) (items : List A) (p : Pagination) (limit : ℕ)
    → parse_pagination query ≡ parsed p
    → p.limit ≡ some limit
    → (1 ≤ limit)
      × (limit ≤ 100)
      × (p.offset ≤ max_safe_integer)
      × (length (paginate items p) ≤ limit)
unfolding parse_pagination paginate slice
parse_pagination-bounds query items p limit e k =
    let parts = combined (parse_limit query.limit) (parse_offset query.offset) p e in
    let in_range = parse_limit-bounds query.limit limit (parts.0 ∙ ap parsed k) in
    let page = length-take (p.offset + limit - p.offset) (drop p.offset items) in
    (
      in_range.0,
      in_range.1,
      parse_offset-bounds query.offset p.offset parts.1,
      rw k (omega (arith, page)),
    )

module _ {A : Type 0} where
  take_nil : (n : ℕ) → take {A = A} n [] ≡ []
  take_nil zero = refl
  take_nil (suc n) = refl

  take_add : (a b : ℕ) (xs : List A) → take (a + b) xs ≡ take a xs ++ take b (drop a xs)
  take_add zero b xs = let e : 0 + b ≡ b = omega arith in ap (λ n. take n xs) e
  take_add (suc a) b [] = take_nil (suc a + b) ∙ sym (take_nil b)
  take_add (suc a) b (x ∷ xs) =
      let e : suc a + b ≡ suc (a + b) = omega arith in
      ap (λ n. take n (x ∷ xs)) e ∙ ap (λ l. x ∷ l) (take_add a b xs)

  -- The pages of one limit, from the start on.
  unfoldable pub pages : ℕ → ℕ → List A → List A
  pages limit zero items = []
  pages limit (suc n) items =
      pages limit n items ++ paginate items (record { limit = some limit; offset = n * limit })

  -- Consecutive pages, joined, are the items that they count: no item is left out or given twice.
  pub pages_cover : (limit n : ℕ) (items : List A) → pages limit n items ≡ take (n * limit) items
  unfolding pages paginate slice
  pages_cover limit zero items =
      let e : 0 * limit ≡ 0 = omega arith in sym (ap (λ m. take m items) e)
  pages_cover limit (suc n) items =
      let ih = pages_cover limit n items in
      let joined = take_add (n * limit) limit items in
      let span : n * limit + limit - n * limit ≡ limit = omega arith in
      let total : suc n * limit ≡ n * limit + limit = omega arith in rw (total, joined, ih, span)
