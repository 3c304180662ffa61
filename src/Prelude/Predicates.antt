-- ===== src/Prelude/Predicates.antt =====
-- Predicates on all elements of a list, Boolean filters and membership by a test.
use stellar_core.Prelude.Lists.{length}
use stellar_core.Prelude.Tests.{if◌then◌else◌}
use Prim.Native.Nat.{ℕ, ◌+◌, ◌≤◌}
use mathlib.Core.Bool.{Bool, true, false, ◌||◌}
use mathlib.Core.List.{List, [], ◌∷◌, ◌++◌}
use mathlib.Core.Logic.{◌↔◌}
use mathlib.Core.Path.{◌≡◌, refl}
use native.Mathlib.Omega.{arith}

module _ {ℓ κ} {A : Type ℓ} (P : A → Type κ) where
  abbrev pub All : List A → Type κ
  All [] = Unit
  All (x ∷ xs) = P x × All xs

  pub All-append : (xs ys : List A) → All xs → All ys → All (xs ++ ys)
  All-append [] ys h k = k
  All-append (x ∷ xs) ys (p, h) k = (p, All-append xs ys h k)

  -- The middle element, and the others.
  pub All-middle : (xs ys : List A) (x : A) → All (xs ++ (x ∷ ys)) → P x × All (xs ++ ys)
  All-middle [] ys x (p, h) = (p, h)
  All-middle (z ∷ xs) ys x (p, h) = let r = All-middle xs ys x h in (r.0, (p, r.1))

module _ {ℓ κ} {A : Type ℓ} (P Q : A → Type κ) where
  pub All-mono : (xs : List A) → ((x : A) → P x → Q x) → All P xs → All Q xs
  All-mono [] f h = h
  All-mono (x ∷ xs) f (p, h) = (f x p, All-mono xs f h)

module _ {ℓ} {A : Type ℓ} where
  -- `Array.prototype.filter`.
  abbrev pub filter_by : (A → Bool) → List A → List A
  filter_by p [] = []
  filter_by p (x ∷ xs) = let rest = filter_by p xs in if p x then x ∷ rest else rest

  -- `Array.prototype.some`.
  abbrev pub any : (A → Bool) → List A → Bool
  any p [] = false
  any p (x ∷ xs) = p x || any p xs

  abbrev pub count_by : (A → Bool) → List A → ℕ
  count_by p [] = 0
  count_by p (x ∷ xs) = (if p x then 1 else 0) + count_by p xs

  pub length-filter_by : (p : A → Bool) (xs : List A) → length (filter_by p xs) ≡ count_by p xs
  length-filter_by p [] = refl
  length-filter_by p (x ∷ xs) = ground (arith, length-filter_by p xs)

  pub count_by-le-length : (p : A → Bool) (xs : List A) → count_by p xs ≤ length xs
  count_by-le-length p [] = omega arith
  count_by-le-length p (x ∷ xs) = ground (arith, count_by-le-length p xs)

  pub count_by-append :
      (p : A → Bool) (xs ys : List A) → count_by p (xs ++ ys) ≡ count_by p xs + count_by p ys
  count_by-append p [] ys = omega arith
  count_by-append p (x ∷ xs) ys = omega (arith, count_by-append p xs ys)

  pub any-append : (p : A → Bool) (xs ys : List A) → any p (xs ++ ys) ≡ (any p xs || any p ys)
  any-append p [] ys = refl
  any-append p (x ∷ xs) ys = ground (arith, any-append p xs ys)

module _ {ℓ} {A : Type ℓ} where
  pub any-count_by : (p : A → Bool) (xs : List A) → (any p xs ≡ true) ↔ (1 ≤ count_by p xs)
  any-count_by p [] = ground arith
  any-count_by p (x ∷ xs) = ground (arith, any-count_by p xs)

  pub append-nil_iff : (xs ys : List A) → ((xs ++ ys) ≡ []) ↔ ((xs ≡ []) × (ys ≡ []))
  append-nil_iff [] ys = ((λ e. (refl, e)), λ e. e.1)
  append-nil_iff (x ∷ xs) ys = ((λ e. cc), λ e. cc)
