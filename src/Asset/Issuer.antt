-- ===== src/Asset/Issuer.antt =====
-- lib/stellar/sep38.ts: `isValidStellarIssuer`, the check of an account's base-32 form and checksum.
use mathlib.Core.Option
-- `BASE32_ALPHABET.indexOf(character)`.
use stellar_core.Prelude.{
  ℕ, zero, suc, ◌+◌, ◌-◌, ◌*◌, ◌/◌, ◌%◌, ◌^◌, ◌≡◌, Bool, true, false, ◌&&◌, ◌||◌, Option, none,
  some, List, [], ◌∷◌, arith, leb, ◌==◌, if◌then◌else◌, length, get_or, take,
}
use stellar_core.Prelude.Text.{Text}
use Prim.Native.Nat.{bit_xor}
use stellar_core.Asset.{all_units, is_upper}

base32_digit : ℕ → Option ℕ
base32_digit c =
    if is_upper c
    then some (c - b'A')
    else if leb b'2' c && leb c b'7'
    then some (c - b'2' + 26)
    else none

-- The loop of `decodeBase32` on `buffer` and `bits`, and its end.
decode_base32_from : ℕ → ℕ → Text → Option (List ℕ)
unfolding base32_digit
decode_base32_from buffer bits [] = if bits == 0 || buffer == 0 then some [] else none
decode_base32_from buffer bits (c ∷ s) = elim (base32_digit c) [
  | none ↦ none
  | some digit ↦
      let wide = buffer * 32 + digit in
      let full = leb 8 (bits + 5) in
      let left = if full then bits + 5 - 8 else bits + 5 in
      let rest = decode_base32_from (if full then wide % 2 ^ left else wide) left s in
      if full then Option.map (λ bytes. wide / 2 ^ left % 256 ∷ bytes) rest else rest
]

decode_base32 : Text → Option (List ℕ)
unfolding decode_base32_from
decode_base32 value = decode_base32_from 0 0 value

-- One turn of the inner loop of `crc16Xmodem`, as often as the counter says.
crc_bits : ℕ → ℕ → ℕ
crc_bits zero crc = crc
crc_bits (suc bits) crc =
    crc_bits bits ((if leb 0x8000 crc then bit_xor (crc * 2) 0x1021 else crc * 2) % 0x10000)

crc_from : ℕ → List ℕ → ℕ
unfolding crc_bits
crc_from crc [] = crc
crc_from crc (byte ∷ bytes) = crc_from (crc_bits 8 (bit_xor crc (byte * 256))) bytes

crc16_xmodem : List ℕ → ℕ
unfolding crc_from
crc16_xmodem bytes = crc_from 0 bytes

-- `STELLAR_ISSUER_PATTERN`.
matches_issuer : Text → Bool
matches_issuer [] = false
matches_issuer (c ∷ s) =
    c == b'G' && length s == 55 && all_units (λ d. is_upper d || (leb b'2' d && leb d b'7')) s

has_checksum : List ℕ → Bool
unfolding crc16_xmodem
has_checksum bytes =
    let checksum = crc16_xmodem (take 33 bytes) in
    length bytes == 35
    && get_or bytes 0 0 == 48
    && get_or bytes 33 0 == checksum % 256
    && get_or bytes 34 0 == checksum / 256

unfoldable pub is_valid_stellar_issuer : Text → Bool
unfolding matches_issuer decode_base32 has_checksum
is_valid_stellar_issuer value =
    matches_issuer value
    && elim (decode_base32 value) [ none ↦ false | some bytes ↦ has_checksum bytes ]

-- An issuer has 56 characters.
pub is_valid_stellar_issuer-length :
    (value : Text) → is_valid_stellar_issuer value ≡ true → length value ≡ 56
unfolding is_valid_stellar_issuer matches_issuer
is_valid_stellar_issuer-length [] e = ground (arith, e)
is_valid_stellar_issuer-length (c ∷ s) e = ground (arith, e)
