-- ===== src/LockKey/Names.antt =====
-- lib/scheduled/advisoryLockKey.ts: `lockName` tells its segments apart.
use stellar_core.Prelude.{◌≡◌, refl, Bool, true, not, [], ◌∷◌, ◌++◌, ◌==◌, sym, ◌∙◌, some, arith}
use stellar_core.Prelude.Predicates.{any, All}
use stellar_core.Prelude.Text.{Text}
use mathlib.Core.Path.{ap₂}
use stellar_core.LockKey.{lock_name}

abbrev no_colon : Text → Bool
no_colon s = not (any (λ c. c == b':') s)

split_unique :
    (a b s t : Text)
    → no_colon a ≡ true
    → no_colon b ≡ true
    → a ++ b':' ∷ s ≡ b ++ b':' ∷ t
    → (a ≡ b) × (s ≡ t)
split_unique [] [] s t h k e = (refl, cc)
split_unique [] (d ∷ b) s t h k e = let same : b':' ≡ d = cc in ground (arith, same, k)
split_unique (c ∷ a) [] s t h k e = let same : c ≡ b':' = cc in ground (arith, same, h)
split_unique (c ∷ a) (d ∷ b) s t h k e =
    let same : c ≡ d = cc in
    let r = split_unique a b s t (ground (arith, h)) (ground (arith, k)) cc in
    (ap₂ (λ x xs. x ∷ xs) same r.0, r.1)

lock_name-some :
    (domain workflow version resource name : Text)
    → lock_name domain workflow version resource ≡ some name
    → name ≡ domain ++ b':' ∷ (workflow ++ b':' ∷ (version ++ b':' ∷ resource))
unfolding lock_name
lock_name-some domain workflow version resource name e = ground (arith, e)

-- Names tell their segments apart where the first three have no colon: two locks with one name
-- have the same domain, workflow, version and resource.
pub lock_name-injective :
    (domain workflow version resource other_domain other_workflow other_version other_resource
      name : Text)
    → All (λ s. no_colon s ≡ true) (domain ∷ workflow ∷ version ∷ [])
    → All (λ s. no_colon s ≡ true) (other_domain ∷ other_workflow ∷ other_version ∷ [])
    → lock_name domain workflow version resource ≡ some name
    → lock_name other_domain other_workflow other_version other_resource ≡ some name
    → (domain ≡ other_domain)
      × (workflow ≡ other_workflow)
      × (version ≡ other_version)
      × (resource ≡ other_resource)
lock_name-injective d w v r d2 w2 v2 r2 name (hd, (hw, (hv, _))) (kd, (kw, (kv, _))) e f =
    let same = sym (lock_name-some d w v r name e) ∙ lock_name-some d2 w2 v2 r2 name f in
    let first =
      split_unique d d2 (w ++ b':' ∷ (v ++ b':' ∷ r)) (w2 ++ b':' ∷ (v2 ++ b':' ∷ r2)) hd kd same in
    let second = split_unique w w2 (v ++ b':' ∷ r) (v2 ++ b':' ∷ r2) hw kw first.1 in
    let third = split_unique v v2 r r2 hv kv second.1 in (first.0, second.0, third.0, third.1)
