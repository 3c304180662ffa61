-- ===== src/Prelude/Sort.antt =====
-- `Array.prototype.sort` with a comparator: the stable sort, written as insertion. `before x y`
-- holds when the comparator puts `x` strictly before `y` (its result is negative).
use stellar_core.Prelude.Tests.{if◌then◌else◌, Bool-cases}
use stellar_core.Prelude.Lists.{length, get_or}
use stellar_core.Prelude.Predicates.{count_by, All, count_by-le-length}
use Prim.Native.Nat.{ℕ, zero, suc, ◌+◌, ◌≤◌, ◌<◌}
use mathlib.Core.Path.{◌≡◌, refl, ap, ◌∙◌}
use mathlib.Core.Logic.{inl, inr}
use mathlib.Core.Bool.{Bool, true, false}
use mathlib.Core.List.{List, [], ◌∷◌}
use native.Mathlib.Omega.{arith}

module _ {ℓ} {A : Type ℓ} (before : A → A → Bool) where
  -- `x` goes in front of the elements that do not stand strictly before it: a new element comes
  -- from the left, so that equal ones keep their order.
  pub insert_by : A → List A → List A
  insert_by x [] = x ∷ []
  insert_by x (y ∷ ys) = let rest = insert_by x ys in if before y x then y ∷ rest else x ∷ y ∷ ys

  unfoldable pub sort_by : List A → List A
  unfolding insert_by
  sort_by [] = []
  sort_by (x ∷ xs) = insert_by x (sort_by xs)

  pub length-insert_by : (x : A) (ys : List A) → length (insert_by x ys) ≡ suc (length ys)
  unfolding insert_by
  length-insert_by x [] = refl
  length-insert_by x (y ∷ ys) = ground (arith, length-insert_by x ys)

  pub length-sort_by : (xs : List A) → length (sort_by xs) ≡ length xs
  unfolding sort_by
  length-sort_by [] = refl
  length-sort_by (x ∷ xs) = length-insert_by x (sort_by xs) ∙ ap suc (length-sort_by xs)

  pub count_by-insert_by :
      (p : A → Bool) (x : A) (ys : List A) → count_by p (insert_by x ys) ≡ count_by p (x ∷ ys)
  unfolding insert_by
  count_by-insert_by p x [] = refl
  count_by-insert_by p x (y ∷ ys) = ground (arith, count_by-insert_by p x ys)

  -- Sorting keeps every element as often as it was there.
  pub count_by-sort_by : (p : A → Bool) (xs : List A) → count_by p (sort_by xs) ≡ count_by p xs
  unfolding sort_by
  count_by-sort_by p [] = refl
  count_by-sort_by p (x ∷ xs) =
      omega (arith, count_by-insert_by p x (sort_by xs), count_by-sort_by p xs)

-- Sortedness, for a comparator that is a strict weak order.
module _ {ℓ} {A : Type ℓ} (before : A → A → Bool) where
  abbrev pub IsOrdered : List A → Type 0
  IsOrdered [] = Unit
  IsOrdered (x ∷ xs) = All (λ y. before y x ≡ false) xs × IsOrdered xs

  pub All-insert_by :
      (P : A → Type 0) (x : A) (ys : List A) → P x → All P ys → All P (insert_by before x ys)
  unfolding insert_by
  All-insert_by P x [] p h = (p, tt)
  All-insert_by P x (y ∷ ys) p (q, h) = elim (Bool-cases (before y x)) [
    | inl first ↦ rw first (q, All-insert_by P x ys p h)
    | inr later ↦ rw later (p, (q, h))
  ]

  pub All-of_insert_by :
      (P : A → Type 0) (x : A) (ys : List A) → All P (insert_by before x ys) → P x × All P ys
  unfolding insert_by
  All-of_insert_by P x [] h = h
  All-of_insert_by P x (y ∷ ys) h = elim (Bool-cases (before y x)) [
    | inl first ↦
        let (q, r) = rw first at h in let (p, k) = All-of_insert_by P x ys r in (p, (q, k))
    | inr later ↦ rw later at h
  ]

  pub All-sort_by : (P : A → Type 0) (xs : List A) → All P xs → All P (sort_by before xs)
  unfolding sort_by
  All-sort_by P [] h = tt
  All-sort_by P (x ∷ xs) (p, h) = All-insert_by P x (sort_by before xs) p (All-sort_by P xs h)

  pub All-of_sort_by : (P : A → Type 0) (xs : List A) → All P (sort_by before xs) → All P xs
  unfolding sort_by
  All-of_sort_by P [] h = tt
  All-of_sort_by P (x ∷ xs) h =
      let (p, k) = All-of_insert_by P x (sort_by before xs) h in (p, All-of_sort_by P xs k)

  abbrev pub Asymmetric : Type ℓ
  Asymmetric = (x y : A) → before x y ≡ true → before y x ≡ false

  -- The negation of `before` is transitive: z is not before y, and y not before x.
  abbrev pub NegTransitive : Type ℓ
  NegTransitive = (x y z : A) → before y x ≡ false → before z y ≡ false → before z x ≡ false

  module _ (asym : Asymmetric) (trans : NegTransitive) where
    All-not_before :
        (x y : A) (ys : List A)
        → before y x ≡ false
        → All (λ z. before z y ≡ false) ys
        → All (λ z. before z x ≡ false) ys
    All-not_before x y [] h k = tt
    All-not_before x y (z ∷ ys) h (p, k) = (trans x y z h p, All-not_before x y ys h k)

    insert_by-IsOrdered : (x : A) (ys : List A) → IsOrdered ys → IsOrdered (insert_by before x ys)
    unfolding insert_by
    insert_by-IsOrdered x [] h = (tt, tt)
    insert_by-IsOrdered x (y ∷ ys) (k, h) = elim (Bool-cases (before y x)) [
      | inl first ↦ rw first (
        All-insert_by (λ z. before z y ≡ false) x ys (asym y x first) k,
        insert_by-IsOrdered x ys h,
      )
      | inr later ↦ rw later ((later, All-not_before x y ys later k), (k, h))
    ]

    pub sort_by-IsOrdered : (xs : List A) → IsOrdered (sort_by before xs)
    unfolding sort_by
    sort_by-IsOrdered [] = tt
    sort_by-IsOrdered (x ∷ xs) = insert_by-IsOrdered x (sort_by before xs) (sort_by-IsOrdered xs)

    count_by-zero : (p : A → Bool) (xs : List A) → All (λ z. p z ≡ false) xs → count_by p xs ≡ 0
    count_by-zero p [] h = refl
    count_by-zero p (x ∷ xs) (e, h) = rw e (omega (arith, count_by-zero p xs h))

    -- At most k elements of an ordered list stand before what is not after its element k.
    pub count_by-before :
        (m d : A) (xs : List A) (k : ℕ)
        → IsOrdered xs
        → k < length xs
        → before (get_or xs k d) m ≡ false
        → count_by (λ z. before z m) xs ≤ k
    count_by-before m d [] k o l h = elim l [ ]
    count_by-before m d (x ∷ xs) zero (a, o) l h =
        omega (arith, count_by-zero (λ z. before z m) (x ∷ xs) (h, All-not_before m x xs h a))
    count_by-before m d (x ∷ xs) (suc k) (a, o) l h =
        ground (arith, count_by-before m d xs k o (omega arith) h)

    All-get_or :
        (P : A → Type 0) (d : A) (xs : List A) (k : ℕ)
        → All P xs
        → k < length xs
        → P (get_or xs k d)
    All-get_or P d [] k h l = elim l [ ]
    All-get_or P d (x ∷ xs) zero (p, h) l = p
    All-get_or P d (x ∷ xs) (suc k) (p, h) l = All-get_or P d xs k h (omega arith)

    -- At most the elements behind element k stand after what is not before it.
    pub count_by-after :
        (m d : A) (xs : List A) (k : ℕ)
        → IsOrdered xs
        → k < length xs
        → before m (get_or xs k d) ≡ false
        → count_by (λ z. before m z) xs + suc k ≤ length xs
    count_by-after m d [] k o l h = elim l [ ]
    count_by-after m d (x ∷ xs) zero (a, o) l h =
        ground (arith, count_by-le-length (λ z. before m z) xs)
    count_by-after m d (x ∷ xs) (suc k) (a, o) l h =
        let first : before m x ≡ false =
          trans x (get_or xs k d) m (All-get_or (λ z. before z x ≡ false) d xs k a (omega arith))
            h in
        rw first (omega (arith, count_by-after m d xs k o (omega arith) h))

    -- Neighbours of an ordered list.
    pub get_or-ordered :
        (d : A) (xs : List A) (k : ℕ)
        → IsOrdered xs
        → suc k < length xs
        → before (get_or xs (suc k) d) (get_or xs k d) ≡ false
    get_or-ordered d [] k o l = elim l [ ]
    get_or-ordered d (x ∷ xs) zero (a, o) l =
        All-get_or (λ z. before z x ≡ false) d xs 0 a (omega arith)
    get_or-ordered d (x ∷ xs) (suc k) (a, o) l = get_or-ordered d xs k o (omega arith)
