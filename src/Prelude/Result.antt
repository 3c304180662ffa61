-- ===== src/Prelude/Result.antt =====
-- A value, or the error that was thrown in its place; `do` runs the steps until one throws.
use stellar_core.Prelude.Predicates.{All}
use mathlib.Core.Bool.{Bool, true, false}
use mathlib.Core.List.{List, [], ◌∷◌}
use mathlib.Core.Option.{Option, none, some}
use mathlib.Core.Path.{◌≡◌, refl}

pub data Result (E A : Type 0) : Type 0 where
  ok : A → Result E A
  throws : E → Result E A

infixl 5 ◌>>=◌ ◌>>◌
abbrev pub ◌>>=◌ : {E A B : Type 0} → Result E A → (A → Result E B) → Result E B
ok a >>= f = f a
throws e >>= f = throws e

abbrev pub ◌>>◌ : {E B : Type 0} → Result E (Unit {0}) → Result E B → Result E B
m >> k = m >>= λ _. k

-- `if (condition) throw error`.
abbrev pub throw_if : {E : Type 0} → Bool → E → Result E (Unit {0})
throw_if true e = throws e
throw_if false e = ok tt

abbrev pub or_throw : {E A : Type 0} → Option A → E → Result E A
or_throw none e = throws e
or_throw (some a) e = ok a

-- `values.map(f)`, where a call of `f` may throw.
module _ {E A B : Type 0} where
  unfoldable pub map_result : (A → Result E B) → List A → Result E (List B)
  map_result f [] = ok []
  map_result f (x ∷ xs) = do y ← f x; ys ← map_result f xs; ok (y ∷ ys)

-- What a chain that did not throw went through.
pub >>=-ok :
    {E A B : Type 0} (m : Result E A) (f : A → Result E B) (b : B)
    → (m >>= f) ≡ ok b
    → (a : A) × (m ≡ ok a) × (f a ≡ ok b)
>>=-ok (ok a) f b h = (a, refl, h)
>>=-ok (throws e) f b h = cc

-- What a value that is given and an error that is thrown satisfy.
abbrev pub Ends : {E A : Type 0} → (A → Type 0) → (E → Type 0) → Result E A → Type 0
Ends P T (ok a) = P a
Ends P T (throws e) = T e

pub Ends->>= :
    {E A B : Type 0} (P : A → Type 0) (Q : B → Type 0) (T : E → Type 0) (m : Result E A)
    (f : A → Result E B)
    → Ends P T m
    → ((a : A) → P a → Ends Q T (f a))
    → Ends Q T (m >>= f)
Ends->>= P Q T (ok a) f h k = k a h
Ends->>= P Q T (throws e) f h k = h

pub Ends-throw_if :
    {E : Type 0} (T : E → Type 0) (b : Bool) (e : E) → T e → Ends (λ _. b ≡ false) T (throw_if b e)
Ends-throw_if T true e h = h
Ends-throw_if T false e h = refl

pub Ends-or_throw :
    {E A : Type 0} (T : E → Type 0) (o : Option A) (e : E)
    → T e
    → Ends (λ a. o ≡ some a) T (or_throw o e)
Ends-or_throw T none e h = h
Ends-or_throw T (some a) e h = refl

-- The value is the one that was given.
pub Ends-own :
    {E A : Type 0} (P : A → Type 0) (T : E → Type 0) (m : Result E A)
    → Ends P T m
    → Ends (λ a. m ≡ ok a) T m
Ends-own P T (ok a) h = refl
Ends-own P T (throws e) h = h

pub Ends-test :
    {E : Type 0} (Q : Unit {0} → Type 0) (T : E → Type 0) (b : Bool) (e : E)
    → T e
    → (b ≡ false → Q tt)
    → Ends Q T (throw_if b e)
Ends-test Q T true e h l = h
Ends-test Q T false e h l = l refl

-- A test that may throw, and what follows where it does not.
pub Ends-guard :
    {E B : Type 0} (Q : B → Type 0) (T : E → Type 0) (b : Bool) (e : E) (k : Result E B)
    → T e
    → (b ≡ false → Ends Q T k)
    → Ends Q T (throw_if b e >> k)
Ends-guard Q T true e k h l = h
Ends-guard Q T false e k h l = l refl

pub Ends-map_result :
    {E A B : Type 0} (P : B → Type 0) (T : E → Type 0) (f : A → Result E B) (xs : List A)
    → ((a : A) → Ends P T (f a))
    → Ends (All P) T (map_result f xs)
unfolding map_result
Ends-map_result P T f [] h = tt
Ends-map_result P T f (x ∷ xs) h = Ends->>= P (All P) T (f x) _ (h x) (λ y p.
    Ends->>= (All P) (All P) T (map_result f xs) _ (Ends-map_result P T f xs h) (λ ys ps. (p, ps)))
