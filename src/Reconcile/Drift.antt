-- ===== src/Reconcile/Drift.antt =====
-- lib/stellar/registryReconciliation.ts: no drift is reported exactly when registry and database agree.
use stellar_core.Prelude.{
  ◌≡◌, refl, sym, ◌↔◌, inl, inr, true, false, not, List, [], ◌∷◌, arith, Bool-cases, ltb, length,
}
use stellar_core.Prelude.Predicates.{All, filter_by, append-nil_iff}
use stellar_core.Prelude.Sort.{All-sort_by, All-of_sort_by}
use stellar_core.Prelude.Text.{Text, text_eq, text_eq_iff, text_lt, set_has, to_set}
use mathlib.Core.Path.{subst}
use stellar_core.Reconcile.Agreement.{
  AnchorAgrees, CorridorAgrees, nil_both, missing_anchors_audit-nil_iff,
  unexpected_anchors_audit-nil_iff, missing_corridors_audit-nil_iff,
  unexpected_corridors_audit-nil_iff, orphaned_anchor_evidence-nil, orphaned_corridor_evidence-nil,
}
use stellar_core.Reconcile.Associations.{
  sorted_identities, persisted_identities, desired_identities, missing_associations_audit,
  unexpected_associations_audit, audit_associations,
}
use stellar_core.Reconcile.Audit.{
  map_get, map_has, anchor_entry_slug, corridor_entry_slug, anchor_record_slug,
  corridor_record_slug, audit_anchors, audit_corridors, missing_anchors_audit,
  missing_corridors_audit,
}
use stellar_core.Reconcile.Report.{found_issues, all_issues, stale_issues}
use stellar_core.Reconcile.Result.{reconcile_registry_with_database}
use stellar_core.Reconcile.Types.{
  AnchorRegistryEntry, CorridorRegistryEntry, RegistryReconciliationInput, ReconciliationIssue,
}

pub record IsInSync (i : RegistryReconciliationInput) : Type 0 where
  pub anchors_agree :
      All (λ e. AnchorAgrees e (map_get anchor_record_slug e.slug i.persisted.anchors)) i.anchors
  pub anchors_listed :
      All (λ r. map_has anchor_entry_slug r.slug i.anchors ≡ true) i.persisted.anchors
  pub corridors_agree :
      All
        (λ e. CorridorAgrees e (map_get corridor_record_slug e.slug i.persisted.corridors))
        i.corridors
  pub corridors_listed :
      All (λ r. map_has corridor_entry_slug r.slug i.corridors ≡ true) i.persisted.corridors
  pub associations_stored :
      All
        (λ x. set_has x (persisted_identities i.persisted.associations) ≡ true)
        (desired_identities i.anchor_corridor_mappings)
  pub associations_wanted :
      All
        (λ x. set_has x (desired_identities i.anchor_corridor_mappings) ≡ true)
        (persisted_identities i.persisted.associations)

-- A property that equal texts share holds on a set of texts exactly when it holds on the list.
module _ (P : Text → Type 0) where
  All-without :
      (x : Text) (ys : List Text) → All P ys → All P (filter_by (λ y. not (text_eq y x)) ys)
  All-without x [] h = tt
  All-without x (y ∷ ys) (p, h) = elim (Bool-cases (text_eq y x)) [
    | inl same ↦ rw same (All-without x ys h)
    | inr other ↦ rw other (p, All-without x ys h)
  ]

  All-of_without :
      (x : Text) (ys : List Text) → P x → All P (filter_by (λ y. not (text_eq y x)) ys) → All P ys
  All-of_without x [] q h = tt
  All-of_without x (y ∷ ys) q h = elim (Bool-cases (text_eq y x)) [
    | inl same ↦ (subst P (sym ((text_eq_iff y x).0 same)) q, All-of_without x ys q (rw same at h))
    | inr other ↦ let (p, k) = rw other at h in (p, All-of_without x ys q k)
  ]

  All-to_set : (xs : List Text) → All P xs → All P (to_set xs)
  unfolding to_set
  All-to_set [] h = tt
  All-to_set (x ∷ xs) (p, h) = (p, All-without x (to_set xs) (All-to_set xs h))

  All-of_to_set : (xs : List Text) → All P (to_set xs) → All P xs
  unfolding to_set
  All-of_to_set [] h = tt
  All-of_to_set (x ∷ xs) (p, h) = (p, All-of_to_set xs (All-of_without x (to_set xs) p h))

  sorted_identities_iff : (xs : List Text) → All P (sorted_identities xs) ↔ All P xs
  unfolding sorted_identities
  sorted_identities_iff xs = (
    (λ h. All-of_to_set xs (All-of_sort_by text_lt P (to_set xs) h)),
    λ h. All-sort_by text_lt P (to_set xs) (All-to_set xs h),
  )

missing_associations_audit-nil_iff :
    (persisted xs : List Text)
    → (missing_associations_audit persisted xs ≡ []) ↔ All (λ x. set_has x persisted ≡ true) xs
unfolding missing_associations_audit
missing_associations_audit-nil_iff persisted [] = ((λ h. tt), λ h. refl)
missing_associations_audit-nil_iff persisted (x ∷ xs) =
    ground (arith, missing_associations_audit-nil_iff persisted xs)

unexpected_associations_audit-nil_iff :
    (anchors : List AnchorRegistryEntry) (corridors : List CorridorRegistryEntry)
    (desired xs : List Text)
    → (unexpected_associations_audit anchors corridors desired xs ≡ [])
      ↔ All (λ x. set_has x desired ≡ true) xs
unfolding unexpected_associations_audit
unexpected_associations_audit-nil_iff anchors corridors desired [] = ((λ h. tt), λ h. refl)
unexpected_associations_audit-nil_iff anchors corridors desired (x ∷ xs) =
    ground (arith, unexpected_associations_audit-nil_iff anchors corridors desired xs)

iff_trans : {P Q R : Type 0} → P ↔ Q → Q ↔ R → P ↔ R
iff_trans h k = ((λ p. k.0 (h.0 p)), λ r. h.1 (k.1 r))

audit_associations-nil_iff :
    (i : RegistryReconciliationInput)
    → (audit_associations i ≡ []) ↔ (
        All
          (λ x. set_has x (persisted_identities i.persisted.associations) ≡ true)
          (desired_identities i.anchor_corridor_mappings)
        × All
            (λ x. set_has x (desired_identities i.anchor_corridor_mappings) ≡ true)
            (persisted_identities i.persisted.associations))
unfolding audit_associations
audit_associations-nil_iff i =
    nil_both _ _ (iff_trans (missing_associations_audit-nil_iff _ _) (sorted_identities_iff _ _)) (
      iff_trans (unexpected_associations_audit-nil_iff i.anchors i.corridors _ _)
        (sorted_identities_iff _ _))

found_issues-IsInSync : (i : RegistryReconciliationInput) → found_issues i ≡ [] → IsInSync i
unfolding found_issues audit_anchors audit_corridors
found_issues-IsInSync i h =
    let (anchors, rest) = (append-nil_iff (audit_anchors i) _).0 h in
    let (corridors, later) = (append-nil_iff (audit_corridors i) _).0 rest in
    let (associations, _) = (append-nil_iff (audit_associations i) _).0 later in
    let (missing_a, unlisted_a) =
      (append-nil_iff (missing_anchors_audit i.persisted.anchors i.anchors) _).0 anchors in
    let (missing_c, unlisted_c) =
      (append-nil_iff (missing_corridors_audit i.persisted.corridors i.corridors) _).0 corridors in
    let (stored, wanted) = (audit_associations-nil_iff i).0 associations in
    record {
      anchors_agree = (missing_anchors_audit-nil_iff _ _).0 missing_a;
      anchors_listed = (unexpected_anchors_audit-nil_iff _ _).0 unlisted_a;
      corridors_agree = (missing_corridors_audit-nil_iff _ _).0 missing_c;
      corridors_listed = (unexpected_corridors_audit-nil_iff _ _).0 unlisted_c;
      associations_stored = stored;
      associations_wanted = wanted;
    }

IsInSync-found_issues : (i : RegistryReconciliationInput) → IsInSync i → found_issues i ≡ []
unfolding found_issues audit_anchors audit_corridors
IsInSync-found_issues i s =
    let join = λ (xs ys : List ReconciliationIssue) (p : xs ≡ []) (q : ys ≡ []).
      (append-nil_iff xs ys).1 (p, q) in
    join _ _
      (join _ _ ((missing_anchors_audit-nil_iff _ _).1 s.anchors_agree)
        ((unexpected_anchors_audit-nil_iff _ _).1 s.anchors_listed))
      (join _ _
        (join _ _ ((missing_corridors_audit-nil_iff _ _).1 s.corridors_agree)
          ((unexpected_corridors_audit-nil_iff _ _).1 s.corridors_listed))
        (join _ _ ((audit_associations-nil_iff i).1 (s.associations_stored, s.associations_wanted))
          (join _ _ (orphaned_anchor_evidence-nil _ _ s.anchors_listed)
            (orphaned_corridor_evidence-nil _ _ s.corridors_listed))))

no_drift-nil : (xs : List ReconciliationIssue) → ltb 0 (length xs) ≡ false → xs ≡ []
no_drift-nil [] e = refl
no_drift-nil (x ∷ xs) e = ground arith

-- `drift` is false exactly when every reviewed anchor and corridor has a persisted row with the
-- reviewed values (the last row of its slug), every persisted row is listed, and the associations of
-- the registry and of the database are the same.
pub drift_iff :
    (i : RegistryReconciliationInput)
    → ((reconcile_registry_with_database i).drift ≡ false) ↔ IsInSync i
unfolding reconcile_registry_with_database all_issues stale_issues
drift_iff i = (
  (λ e.
      found_issues-IsInSync i
        ((append-nil_iff (found_issues i) _).0 (no_drift-nil (all_issues i) e)).0),
  λ s. rw (IsInSync-found_issues i s),
)
