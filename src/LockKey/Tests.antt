-- ===== src/LockKey/Tests.antt =====
-- Runs of the lock names and keys.
use stellar_core.Prelude.{◌≡◌, refl, some}
use stellar_core.Prelude.Text.{Text, codes}
use stellar_core.LockKey.{xor_bits, hash_units, is_empty, lock_name}

abbrev refresh_name : Text
refresh_name = codes "refresh:scheduled-refresh:v1:global"

lock_name_test :
    lock_name (codes "refresh") (codes "scheduled-refresh") (codes "v1") (codes "global")
    ≡ some refresh_name
unfolding lock_name is_empty
lock_name_test = refl

-- A published value of FNV-1a.
hash_units_test : hash_units 0xcbf29ce484222325 (codes "a") ≡ 0xaf63dc4c8601ec8c
unfolding hash_units xor_bits
hash_units_test = refl
