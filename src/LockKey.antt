-- ===== src/LockKey.antt =====
-- lib/scheduled/advisoryLockKey.ts: the names and the keys of the advisory locks. A bigint that is
-- not negative is a natural number.
mod Names
mod Keys
mod Tests
use stellar_core.Prelude.{
  ℕ, zero, suc, ◌+◌, ◌*◌, ◌/◌, ◌%◌, Bool, true, false, ◌||◌, Option, none, some, List, [], ◌∷◌,
  ◌++◌, leb, ◌==◌, if◌then◌else◌,
}
use stellar_core.Prelude.Int.{ℤ, pos, negsuc, sub_ℕ}
use stellar_core.Prelude.Text.{Text, codes}

abbrev fnv_prime : ℕ
fnv_prime = 0x100000001b3

abbrev fnv_offset : ℕ
fnv_offset = 0xcbf29ce484222325

-- `2n ** 64n`; `& MASK64` is the remainder by it.
abbrev pub int64_range : ℕ
int64_range = 0x10000000000000000

-- `2n ** 63n`.
abbrev pub int64_limit : ℕ
int64_limit = 0x8000000000000000

-- `a ^ b`, where b has at most as many bits as the counter says.
unfoldable pub xor_bits : ℕ → ℕ → ℕ → ℕ
xor_bits zero a b = a
xor_bits (suc bits) a b = (a % 2 + b % 2) % 2 + 2 * xor_bits bits (a / 2) (b / 2)

-- The loop of `deriveLockKey`; a code unit has 16 bits.
unfoldable pub hash_units : ℕ → Text → ℕ
unfolding xor_bits
hash_units hash [] = hash
hash_units hash (c ∷ s) = hash_units ((xor_bits 16 hash c * fnv_prime) % int64_range) s

-- The reading of 64 bits as a signed number.
unfoldable pub signed_key : ℕ → ℤ
signed_key hash = if leb int64_limit hash then sub_ℕ hash int64_range else pos hash

unfoldable pub derive_lock_key : Text → ℤ
unfolding hash_units signed_key
derive_lock_key logical_name = signed_key (hash_units fnv_offset logical_name)

unfoldable pub is_empty : Text → Bool
is_empty [] = true
is_empty (c ∷ s) = false

-- `none` is the thrown error.
unfoldable pub lock_name : Text → Text → Text → Text → Option Text
unfolding is_empty
lock_name domain workflow version resource =
    if is_empty domain || is_empty workflow || is_empty version || is_empty resource
    then none
    else some (domain ++ b':' ∷ (workflow ++ b':' ∷ (version ++ b':' ∷ resource)))

pub record LockDescriptor : Type 0 where
  pub logical_name : Text
  pub domain_id : ℕ
  pub derived_key : ℤ

-- `descriptor` for a name that `lockName` gives; the description is left out.
unfoldable pub describe : Text → ℕ → LockDescriptor
describe name domain_id = record {
  logical_name = name;
  domain_id = domain_id;
  derived_key = derive_lock_key name;
}

unfoldable pub name_or_empty : Option Text → Text
name_or_empty none = []
name_or_empty (some name) = name

unfoldable pub descriptor : Text → Text → ℕ → LockDescriptor
descriptor domain workflow domain_id =
    describe (name_or_empty (lock_name domain workflow (codes "v1") (codes "global"))) domain_id

unfoldable pub lock_registry : List LockDescriptor
lock_registry =
    descriptor (codes "refresh") (codes "scheduled-refresh") 1
    ∷ descriptor (codes "migration") (codes "schema-migration") 2
    ∷ descriptor (codes "maintenance") (codes "registry-bootstrap") 3
    ∷ descriptor (codes "maintenance") (codes "reputation-backfill") 3
    ∷ []

unfoldable pub eq_ℤ : ℤ → ℤ → Bool
eq_ℤ (pos a) (pos b) = a == b
eq_ℤ (negsuc a) (negsuc b) = a == b
eq_ℤ _ _ = false

unfoldable pub resolve_from : List LockDescriptor → ℤ → Option LockDescriptor
resolve_from [] key = none
resolve_from (entry ∷ entries) key =
    let rest = resolve_from entries key in if eq_ℤ entry.derived_key key then some entry else rest

unfoldable pub resolve_key : ℤ → Option LockDescriptor
resolve_key key = resolve_from lock_registry key
