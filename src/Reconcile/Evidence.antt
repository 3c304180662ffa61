-- ===== src/Reconcile/Evidence.antt =====
-- lib/stellar/registryReconciliation.ts: the retirement of an unlisted anchor that has evidence.
use stellar_core.Prelude.{
  ◌≡◌, ◌⊎◌, inl, inr, Bool, true, false, not, ◌&&◌, none, some, List, [], ◌∷◌, ◌++◌, arith, ◌==◌,
  Bool-cases,
}
use stellar_core.Prelude.Predicates.{any, any-append, any-count_by}
use stellar_core.Prelude.Sort.{sort_by, count_by-sort_by}
use stellar_core.Prelude.Text.{Text, text_eq, text_eq_refl}
use mathlib.Core.List.{Memᴰ}
use mathlib.Core.Path.{subst}
use stellar_core.Reconcile.Audit.{
  map_has, anchor_entry_slug, missing_anchors_audit, unexpected_anchors_audit, audit_anchors,
}
use stellar_core.Reconcile.Plan.{
  plan_action_for_issue, place_action, plan_lists, build_registry_repair_plan,
  build_registry_reconciliation_report,
}
use stellar_core.Reconcile.Report.{found_issues, all_issues}
use stellar_core.Reconcile.Result.{issue_before, reconcile_registry_with_database}
use stellar_core.Reconcile.Types.{
  AnchorRegistryEntry, unexpected_anchor, PersistedAnchorRecord, RegistryReconciliationInput,
  ReconciliationIssue, retire_anchor, ReconciliationRepairAction, RegistryRepairPlan,
}

-- A retirement of the anchor that says that no evidence stands against it.
abbrev pub is_evidence_free_retirement : Text → ReconciliationRepairAction → Bool
is_evidence_free_retirement slug a = elim a.anchor_slug [
  | none ↦ false
  | some s ↦ elim a.kind [
    | retire_anchor ↦ elim a.historical_evidence_count [
      | some n ↦ n == 0 && (text_eq s slug && not a.blocked_by_historical_evidence)
      | none ↦ false
    ]
    | _ ↦ false
  ]
]

abbrev is_unexpected_anchor : Text → ReconciliationIssue → Bool
is_unexpected_anchor slug x = elim x.anchor_slug [
  | none ↦ false
  | some s ↦ elim x.code [ unexpected_anchor ↦ text_eq s slug | _ ↦ false ]
]

place-retirement :
    (slug : Text) (x : ReconciliationIssue) (p : RegistryRepairPlan)
    → (is_unexpected_anchor slug x ≡ true)
      ⊎ (any (is_evidence_free_retirement slug) p.manual_review_actions ≡ true)
    → any
        (is_evidence_free_retirement slug)
        (place_action (plan_action_for_issue x) p).manual_review_actions
      ≡ true
unfolding place_action plan_action_for_issue
place-retirement slug x p h = ground arith

plan_lists-retirement :
    (slug : Text) (xs : List ReconciliationIssue)
    → any (is_unexpected_anchor slug) xs ≡ true
    → any (is_evidence_free_retirement slug) (plan_lists xs).manual_review_actions ≡ true
unfolding plan_lists
plan_lists-retirement slug [] h = cc
plan_lists-retirement slug (x ∷ xs) h = elim (Bool-cases (is_unexpected_anchor slug x)) [
  | inl here ↦ place-retirement slug x (plan_lists xs) (inl here)
  | inr other ↦
      place-retirement slug x (plan_lists xs) (inr (plan_lists-retirement slug xs (rw other at h)))
]

any-sort_by :
    (p : ReconciliationIssue → Bool) (xs : List ReconciliationIssue)
    → any p xs ≡ true
    → any p (sort_by issue_before xs) ≡ true
any-sort_by p xs h =
    (any-count_by p (sort_by issue_before xs)).1
      (rw (count_by-sort_by issue_before p xs) ((any-count_by p xs).0 h))

any_left :
    (p : ReconciliationIssue → Bool) (xs ys : List ReconciliationIssue)
    → any p xs ≡ true
    → any p (xs ++ ys) ≡ true
any_left p xs ys h = ground (arith, any-append p xs ys)

any_right :
    (p : ReconciliationIssue → Bool) (xs ys : List ReconciliationIssue)
    → any p ys ≡ true
    → any p (xs ++ ys) ≡ true
any_right p xs ys h = ground (arith, any-append p xs ys)

unexpected-any :
    (registry : List AnchorRegistryEntry) (rs : List PersistedAnchorRecord)
    (r : PersistedAnchorRecord)
    → Memᴰ r rs
    → map_has anchor_entry_slug r.slug registry ≡ false
    → any (is_unexpected_anchor r.slug) (unexpected_anchors_audit registry rs) ≡ true
unfolding unexpected_anchors_audit
unexpected-any registry [] r m h = elim m [ ]
unexpected-any registry (x ∷ xs) r (Memᴰ.head e) h =
    subst
      (λ y. any (is_unexpected_anchor r.slug) (unexpected_anchors_audit registry (y ∷ xs)) ≡ true) e
      (rw h (rw (text_eq_refl r.slug)))
unexpected-any registry (x ∷ xs) r (Memᴰ.tail m) h =
    ground (arith, unexpected-any registry xs r m h)

-- A persisted anchor that the registry does not list is put up for retirement by an action that
-- reports no historical evidence and is not blocked, however many rate snapshots and transfer
-- outcomes the row carries.
pub unexpected_anchor_loses_evidence :
    (i : RegistryReconciliationInput) (r : PersistedAnchorRecord)
    → Memᴰ r i.persisted.anchors
    → map_has anchor_entry_slug r.slug i.anchors ≡ false
    → any
        (is_evidence_free_retirement r.slug)
        (build_registry_reconciliation_report i).1.manual_review_actions
      ≡ true
unfolding build_registry_reconciliation_report build_registry_repair_plan
    reconcile_registry_with_database all_issues found_issues audit_anchors
unexpected_anchor_loses_evidence i r m h =
    plan_lists-retirement r.slug (sort_by issue_before (all_issues i)) (
      any-sort_by (is_unexpected_anchor r.slug) (all_issues i) (
        any_left (is_unexpected_anchor r.slug) (found_issues i) _ (
          any_left (is_unexpected_anchor r.slug) (audit_anchors i) _ (
            any_right (is_unexpected_anchor r.slug)
              (missing_anchors_audit i.persisted.anchors i.anchors) _
              (unexpected-any i.anchors i.persisted.anchors r m h)))))
