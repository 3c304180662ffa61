-- ===== src/LockKey/Keys.antt =====
-- lib/scheduled/advisoryLockKey.ts: the keys fit PostgreSQL's bigint and tell the locks apart.
use stellar_core.Prelude.{ℕ, ◌-◌, ◌*◌, ◌%◌, ◌<◌, [], ◌∷◌, arith}
use stellar_core.Prelude.Int.{pos, negsuc, ◌≤ℤ◌}
use stellar_core.Prelude.Text.{Text}
use stellar_core.LockKey.{
  int64_range, int64_limit, xor_bits, hash_units, signed_key, derive_lock_key, fnv_prime,
  fnv_offset,
}

remainder_lt : (n : ℕ) → n % int64_range < int64_range
remainder_lt n = omega arith

hash_units-lt : (hash : ℕ) (s : Text) → hash < int64_range → hash_units hash s < int64_range
unfolding hash_units
hash_units-lt hash [] h = h
hash_units-lt hash (c ∷ s) h =
    hash_units-lt ((xor_bits 16 hash c * fnv_prime) % int64_range) s
      (remainder_lt (xor_bits 16 hash c * fnv_prime))

-- For every name the key is at least -2 ^ 63 and less than 2 ^ 63.
pub derive_lock_key-bounds :
    (name : Text)
    → (negsuc (int64_limit - 1) ≤ℤ derive_lock_key name)
      × (derive_lock_key name ≤ℤ pos (int64_limit - 1))
unfolding derive_lock_key signed_key
derive_lock_key-bounds name =
    let h = hash_units-lt fnv_offset name (omega arith) in ground (arith, h)
