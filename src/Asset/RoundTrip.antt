-- ===== src/Asset/RoundTrip.antt =====
-- lib/stellar/sep38.ts: what is built is parsed back.
use mathlib.Core.Option
use stellar_core.Prelude.{
  ℕ, suc, ◌+◌, ◌≡◌, refl, ap, ◌∙◌, inl, inr, Bool, true, false, ◌||◌, some, [], ◌∷◌, ◌++◌, arith,
  ◌==◌, Bool-cases, length, take, drop, zero, ◌≤◌, if◌then◌else◌,
}
use stellar_core.Prelude.Predicates.{any}
use stellar_core.Prelude.Text.{Text, codes, text_eq, text_eq_iff, strip_prefix}
use stellar_core.Asset.{
  escape_length, separator_from, unescape, decode_from, escape, stellar, matches_code,
  find_sep11_asset_separator, encode_sep11_asset_code, decode_sep11_asset_code, value_of,
}
use stellar_core.Asset.Identifier.{
  is_lumen, parse_separated, parse_at, parse_stellar, parse_sep38_asset_identifier,
  build_stellar_asset_identifier, stellar_prefix, parse_issued,
}
use stellar_core.Asset.Issuer.{is_valid_stellar_issuer, is_valid_stellar_issuer-length}

abbrev is_special : ℕ → Bool
is_special c = c == b'\\' || c == b':'

escape-special : (c : ℕ) (s : Text) → is_special c ≡ true → escape (c ∷ s) ≡ b'\\' ∷ c ∷ escape s
unfolding escape
escape-special c s e = rw e

escape-plain : (c : ℕ) (s : Text) → is_special c ≡ false → escape (c ∷ s) ≡ c ∷ escape s
unfolding escape
escape-plain c s e = rw e

unescape-special : (c : ℕ) (s : Text) → is_special c ≡ true → unescape (c ∷ s) ≡ some (c, 1)
unfolding unescape
unescape-special c [] e = ground (arith, e)
unescape-special c (h ∷ []) e = ground (arith, e)
unescape-special c (h ∷ l ∷ s) e = ground (arith, e)

decode_from-step :
    (c d skip : ℕ) (s : Text)
    → (if c == b'\\' then unescape s else some (c, 0)) ≡ some (d, skip)
    → decode_from 0 (c ∷ s) ≡ Option.map (λ rest. d ∷ rest) (decode_from skip s)
unfolding decode_from
decode_from-step c d skip s e = rw (decode_from, e)

-- Every character that stands in a code survives the escaping.
decode_from-escape : (code : Text) → decode_from 0 (escape code) ≡ some code
unfolding decode_from escape
decode_from-escape [] = refl
decode_from-escape (c ∷ s) = elim (Bool-cases (is_special c)) [
  | inl e ↦
      let step = decode_from-step b'\\' c 1 (c ∷ escape s) (unescape-special c (escape s) e) in
      rw (escape-special c s e) (step ∙ ap (Option.map (λ rest. c ∷ rest)) (decode_from-escape s))
  | inr e ↦
      let plain : (c == b'\\') ≡ false = ground (arith, e) in
      let step = decode_from-step c c 0 (escape s) (rw plain refl) in
      rw (escape-plain c s e) (step ∙ ap (Option.map (λ rest. c ∷ rest)) (decode_from-escape s))
]

-- No escape hides the separator, and none is taken for it.
separator_from-escape :
    (code issuer : Text) (index : ℕ)
    → separator_from 0 index (escape code ++ b':' ∷ issuer) ≡ some (index + length (escape code))
unfolding separator_from escape_length escape
separator_from-escape [] issuer index = let e : index ≡ index + 0 = omega arith in ap some e
separator_from-escape (c ∷ s) issuer index = elim (Bool-cases (is_special c)) [
  | inl e ↦
      let ih = separator_from-escape s issuer (index + 1 + 1) in
      let not_x : (c == b'x') ≡ false = ground (arith, e) in
      let sum : index + 1 + 1 + length (escape s) ≡ index + suc (suc (length (escape s))) =
        omega arith in
      rw (escape-special c s e, not_x) (ih ∙ ap some sum)
  | inr e ↦
      let ih = separator_from-escape s issuer (index + 1) in
      let plain : (c == b'\\') ≡ false = ground (arith, e) in
      let no_colon : (c == b':') ≡ false = ground (arith, e) in
      let sum : index + 1 + length (escape s) ≡ index + suc (length (escape s)) = omega arith in
      rw (escape-plain c s e, plain, no_colon) (ih ∙ ap some sum)
]

take-length : (s t : Text) → take (length s) (s ++ t) ≡ s
take-length [] t = refl
take-length (c ∷ s) t = ap (λ r. c ∷ r) (take-length s t)

drop-length : (s : Text) (c : ℕ) (t : Text) → drop (length s + 1) (s ++ c ∷ t) ≡ t
drop-length [] c t = refl
drop-length (d ∷ s) c t =
    let e : suc (length s) + 1 ≡ suc (length s + 1) = omega arith in rw e (drop-length s c t)

abbrev has_colon : Text → Bool
has_colon s = any (λ c. c == b':') s

has_colon-separated : (s t : Text) → has_colon (s ++ b':' ∷ t) ≡ true
has_colon-separated [] t = refl
has_colon-separated (c ∷ s) t = ground (arith, has_colon-separated s t)

text_eq-has_colon : (s t : Text) → has_colon s ≡ true → has_colon t ≡ false → text_eq s t ≡ false
text_eq-has_colon s t h k = elim (Bool-cases (text_eq s t)) [
  | inl e ↦ let same = (text_eq_iff s t).0 e in cc
  | inr e ↦ e
]

-- A lumen's identifier has no separator.
is_lumen-separated : (s t : Text) → is_lumen (s ++ b':' ∷ t) ≡ false
unfolding is_lumen
is_lumen-separated s t =
    let h = has_colon-separated s t in
    rw (
      text_eq-has_colon (s ++ b':' ∷ t) (codes "native") h refl,
      text_eq-has_colon (s ++ b':' ∷ t) (codes "XLM") h refl,
      text_eq-has_colon (s ++ b':' ∷ t) (codes "TestXLM") h refl,
    )

-- A valid issuer is not the mark of a liquidity pool.
issuer_not_lp :
    (issuer : Text) → is_valid_stellar_issuer issuer ≡ true → text_eq issuer (codes "lp") ≡ false
issuer_not_lp issuer v = elim (Bool-cases (text_eq issuer (codes "lp"))) [
  | inl e ↦
      let same = (text_eq_iff issuer (codes "lp")).0 e in
      let long = is_valid_stellar_issuer-length issuer v in
      absurd (omega (arith, long, ap length same))
  | inr e ↦ e
]

escape-length : (code : Text) → matches_code code ≡ true → 1 ≤ length (escape code)
unfolding escape matches_code
escape-length [] e = ground (arith, e)
escape-length (c ∷ s) e = ground arith

parse_at-suc :
    (n : ℕ) (identifier value : Text)
    → 1 ≤ n
    → parse_at (some n) identifier value
      ≡ parse_separated (take n identifier) (drop (n + 1) identifier) value
unfolding parse_at
parse_at-suc zero identifier value h = absurd (omega arith)
parse_at-suc (suc n) identifier value h = refl

parse_stellar-escape :
    (code issuer value : Text)
    → matches_code code ≡ true
    → is_valid_stellar_issuer issuer ≡ true
    → parse_stellar (escape code ++ b':' ∷ issuer) value ≡ some (stellar code (some issuer) value)
unfolding parse_stellar find_sep11_asset_separator parse_separated parse_issued
    decode_sep11_asset_code
parse_stellar-escape code issuer value m v =
    let identifier = escape code ++ b':' ∷ issuer in
    let found = separator_from-escape code issuer 0 in
    let sum : 0 + length (escape code) ≡ length (escape code) = omega arith in
    let at_end = parse_at-suc (length (escape code)) identifier value (escape-length code m) in
    rw (
      is_lumen-separated (escape code) issuer,
      found,
      sum,
      at_end,
      take-length (escape code) (b':' ∷ issuer),
      drop-length (escape code) b':' issuer,
      issuer_not_lp issuer v,
      decode_from-escape code,
      m,
      v,
    )

parse-prefixed :
    (identifier : Text)
    → parse_sep38_asset_identifier (stellar_prefix ++ identifier)
      ≡ parse_stellar identifier (stellar_prefix ++ identifier)
unfolding parse_sep38_asset_identifier strip_prefix
parse-prefixed identifier = refl

-- A code of 1 to 12 printable characters and a valid issuer make an identifier, whatever colons and
-- backslashes the code has, and parsing it gives back the code and the issuer.
pub build-parse_round_trip :
    (code issuer : Text)
    → matches_code code ≡ true
    → is_valid_stellar_issuer issuer ≡ true
    → (value : Text) × (build_stellar_asset_identifier code (some issuer) ≡ some value)
      × (parse_sep38_asset_identifier value ≡ some (stellar code (some issuer) value))
unfolding build_stellar_asset_identifier encode_sep11_asset_code value_of
build-parse_round_trip code issuer m v =
    let value = stellar_prefix ++ (escape code ++ b':' ∷ issuer) in
    let read =
      parse-prefixed (escape code ++ b':' ∷ issuer) ∙ parse_stellar-escape code issuer value m v in
    (value, rw (build_stellar_asset_identifier, m, read), read)
