-- ===== src/Reconcile/Plan.antt =====
-- lib/stellar/registryReconciliation.ts: `planActionForIssue` and `buildRegistryRepairPlan`.
use stellar_core.Prelude.{
  true, false, ◌&&◌, Option, none, some, List, [], ◌∷◌, ◌==◌, if◌then◌else◌, length,
}
use stellar_core.Prelude.Text.{Text}
use stellar_core.Reconcile.Result.{reconcile_registry_with_database}
use stellar_core.Reconcile.Types.{
  ReconciliationIssueCode, missing_anchor, missing_corridor, unexpected_anchor, unexpected_corridor,
  anchor_field_mismatch, corridor_field_mismatch, missing_association, unexpected_association,
  stale_anchor, stale_corridor, ReconciliationEntityKind, anchor, corridor, anchor_corridor,
  RegistryReconciliationInput, ReconciliationIssue, ReconciliationResult,
  ReconciliationRepairActionKind, create_anchor, update_anchor, create_corridor, update_corridor,
  create_association, remove_association, retire_anchor, retire_corridor,
  ReconciliationRepairAction, RegistryRepairPlan,
}

abbrev action_of :
    ReconciliationRepairActionKind
    → ReconciliationEntityKind
    → Option Text
    → Option Text
    → ReconciliationRepairAction
action_of kind entity anchor_slug corridor_slug = record {
  kind = kind;
  entity = entity;
  anchor_slug = anchor_slug;
  corridor_slug = corridor_slug;
  field = none;
  expected = none;
  historical_evidence_count = none;
  requires_manual_review = false;
  blocked_by_historical_evidence = false;
}

plan_for_code : ReconciliationIssueCode → ReconciliationIssue → Option ReconciliationRepairAction
plan_for_code missing_anchor x = some (action_of create_anchor anchor x.anchor_slug none)
plan_for_code missing_corridor x = some (action_of create_corridor corridor none x.corridor_slug)
plan_for_code anchor_field_mismatch x =
    some (record (action_of update_anchor anchor x.anchor_slug none) {
      field = x.field;
      expected = x.expected;
    })
plan_for_code corridor_field_mismatch x =
    some (record (action_of update_corridor corridor none x.corridor_slug) {
      field = x.field;
      expected = x.expected;
    })
plan_for_code missing_association x =
    some (action_of create_association anchor_corridor x.anchor_slug x.corridor_slug)
plan_for_code unexpected_association x =
    some (record (action_of remove_association anchor_corridor x.anchor_slug x.corridor_slug) {
      requires_manual_review = true;
    })
plan_for_code stale_anchor x = some (record (action_of retire_anchor anchor x.anchor_slug none) {
  historical_evidence_count = x.historical_evidence_count;
  requires_manual_review = true;
  blocked_by_historical_evidence = true;
})
plan_for_code stale_corridor x =
    some (record (action_of retire_corridor corridor none x.corridor_slug) {
      historical_evidence_count = x.historical_evidence_count;
      requires_manual_review = true;
      blocked_by_historical_evidence = true;
    })
plan_for_code unexpected_anchor x =
    some (record (action_of retire_anchor anchor x.anchor_slug none) {
      historical_evidence_count = some 0;
      requires_manual_review = true;
    })
plan_for_code unexpected_corridor x =
    some (record (action_of retire_corridor corridor none x.corridor_slug) {
      historical_evidence_count = some 0;
      requires_manual_review = true;
    })
plan_for_code _ x = none

unfoldable pub plan_action_for_issue : ReconciliationIssue → Option ReconciliationRepairAction
unfolding plan_for_code
plan_action_for_issue x = plan_for_code x.code x

abbrev pub empty_plan : RegistryRepairPlan
empty_plan = record {
  safe_actions = [];
  manual_review_actions = [];
  skipped_evidence_deletions = [];
  applies_without_manual_action = true;
}

-- The action goes to the list that its two flags choose.
place : ReconciliationRepairAction → RegistryRepairPlan → RegistryRepairPlan
place a p =
    if a.blocked_by_historical_evidence
    then record p { skipped_evidence_deletions = a ∷ p.skipped_evidence_deletions }
    else if a.requires_manual_review
    then record p { manual_review_actions = a ∷ p.manual_review_actions }
    else record p { safe_actions = a ∷ p.safe_actions }

unfoldable pub place_action :
    Option ReconciliationRepairAction → RegistryRepairPlan → RegistryRepairPlan
unfolding place
place_action none p = p
place_action (some a) p = place a p

-- The three lists, each in the order of the issues.
unfoldable pub plan_lists : List ReconciliationIssue → RegistryRepairPlan
unfolding place_action
plan_lists [] = empty_plan
plan_lists (x ∷ xs) = place_action (plan_action_for_issue x) (plan_lists xs)

unfoldable pub build_registry_repair_plan : ReconciliationResult → RegistryRepairPlan
build_registry_repair_plan result =
    let p = plan_lists result.issues in
    record p {
      applies_without_manual_action =
          length p.manual_review_actions == 0 && length p.skipped_evidence_deletions == 0;
    }

-- `buildRegistryReconciliationReport`, the result and its plan.
unfoldable pub build_registry_reconciliation_report :
    RegistryReconciliationInput → ReconciliationResult × RegistryRepairPlan
build_registry_reconciliation_report i =
    let result = reconcile_registry_with_database i in (result, build_registry_repair_plan result)
