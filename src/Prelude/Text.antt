-- ===== src/Prelude/Text.antt =====
-- JavaScript strings as the lists of their UTF-16 code units, with `===`, `<` and the character
-- classes that the patterns use.
use stellar_core.Prelude.Predicates.{any, filter_by}
use stellar_core.Prelude.Tests.{ltb, leb, ◌==◌, if◌then◌else◌}
use Prim.Native.Char.{code}
use Prim.Native.Nat.{ℕ}
use Prim.Native.String.{String}
use mathlib.Core.Bool.{Bool, true, false, not, ◌&&◌, ◌||◌}
use mathlib.Core.List.{List, [], ◌∷◌, ◌++◌}
use mathlib.Core.Logic.{◌↔◌}
use mathlib.Core.Option.{Option, none, some}
use mathlib.Core.Path.{◌≡◌, refl}
use native.Mathlib.Omega.{arith}

abbrev pub Text : Type 0
Text = List ℕ

-- The code units of an ASCII literal.
abbrev pub codes : String → Text
codes String.[] = []
codes (String.◌∷◌ c s) = code c ∷ codes s

-- `===` on strings.
unfoldable pub text_eq : Text → Text → Bool
text_eq [] [] = true
text_eq (a ∷ s) (b ∷ t) = a == b && text_eq s t
text_eq _ _ = false

pub text_eq_iff : (s t : Text) → (text_eq s t ≡ true) ↔ (s ≡ t)
unfolding text_eq
text_eq_iff [] [] = ground arith
text_eq_iff [] (b ∷ t) = ground arith
text_eq_iff (a ∷ s) [] = ground arith
text_eq_iff (a ∷ s) (b ∷ t) = ground (arith, text_eq_iff s t)

pub text_eq_refl : (s : Text) → text_eq s s ≡ true
text_eq_refl s = (text_eq_iff s s).1 refl

-- `<` on strings: lexicographic by code unit.
unfoldable pub text_lt : Text → Text → Bool
text_lt [] [] = false
text_lt [] (b ∷ t) = true
text_lt (a ∷ s) [] = false
text_lt (a ∷ s) (b ∷ t) = ltb a b || (a == b && text_lt s t)

-- The class `\d` or `[0-9]`.
unfoldable pub is_digit : ℕ → Bool
is_digit c = leb b'0' c && leb c b'9'

-- `\d*$` over a whole string.
unfoldable pub all_digits : Text → Bool
unfolding is_digit
all_digits [] = true
all_digits (c ∷ s) = is_digit c && all_digits s

-- The characters that `trim` removes, and `trim` in its two halves.
unfoldable pub is_space : ℕ → Bool
is_space c =
    (leb 9 c && leb c 13)
    || (c == 32 || c == 0xa0 || c == 0x1680 || (leb 0x2000 c && leb c 0x200a))
    || (c == 0x2028 || c == 0x2029 || c == 0x202f || c == 0x205f || c == 0x3000 || c == 0xfeff)

unfoldable pub trim_start : Text → Text
unfolding is_space
trim_start [] = []
trim_start (c ∷ s) = let rest = trim_start s in if is_space c then rest else c ∷ s

unfoldable pub cons_unless_blank : ℕ → Text → Text
unfolding is_space
cons_unless_blank c [] = if is_space c then [] else c ∷ []
cons_unless_blank c (d ∷ t) = c ∷ d ∷ t

unfoldable pub trim_end : Text → Text
unfolding cons_unless_blank
trim_end [] = []
trim_end (c ∷ s) = cons_unless_blank c (trim_end s)

-- `s.split(separator)[0]` for a separator of one code unit.
unfoldable pub split_head : ℕ → Text → Text
split_head separator [] = []
split_head separator (c ∷ s) =
    let rest = split_head separator s in if c == separator then [] else c ∷ rest

-- `Set.prototype.has`.
unfoldable pub set_has : Text → List Text → Bool
set_has key xs = any (λ x. text_eq x key) xs

-- `new Set(values)`: the first of equal values is kept.
unfoldable pub to_set : List Text → List Text
to_set [] = []
to_set (x ∷ xs) = x ∷ filter_by (λ y. not (text_eq y x)) (to_set xs)

-- `s.startsWith(prefix)` and `s.slice(prefix.length)`.
unfoldable pub strip_prefix : Text → Text → Option Text
strip_prefix [] s = some s
strip_prefix (p ∷ prefix) [] = none
strip_prefix (p ∷ prefix) (c ∷ s) =
    let rest = strip_prefix prefix s in if p == c then rest else none

pub strip_prefix-append : (prefix s : Text) → strip_prefix prefix (prefix ++ s) ≡ some s
unfolding strip_prefix
strip_prefix-append [] s = refl
strip_prefix-append (p ∷ prefix) s = ground (arith, strip_prefix-append prefix s)
