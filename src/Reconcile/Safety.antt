-- ===== src/Reconcile/Safety.antt =====
-- lib/stellar/registryReconciliation.ts: what a repair plan may do.
use stellar_core.Prelude.{◌≡◌, Bool, true, false, none, some, List, length, ◌⊎◌}
use stellar_core.Prelude.Predicates.{All, count_by}
use stellar_core.Reconcile.Types.{
  ReconciliationIssue, ReconciliationRepairActionKind, create_anchor, update_anchor,
  create_corridor, update_corridor, create_association, RegistryRepairPlan, missing_anchor,
  missing_corridor, unexpected_anchor, unexpected_corridor, anchor_field_mismatch,
  corridor_field_mismatch, missing_association, unexpected_association, stale_anchor,
  stale_corridor, retire_anchor, retire_corridor,
}

-- Kinds that only create or update reviewed rows.
abbrev pub is_additive : ReconciliationRepairActionKind → Bool
is_additive create_anchor = true
is_additive update_anchor = true
is_additive create_corridor = true
is_additive update_corridor = true
is_additive create_association = true
is_additive _ = false

-- Issues that creating or updating a reviewed row repairs.
abbrev pub is_repairable : ReconciliationIssue → Bool
is_repairable x = elim x.code [
  | missing_anchor ↦ true
  | missing_corridor ↦ true
  | anchor_field_mismatch ↦ true
  | corridor_field_mismatch ↦ true
  | missing_association ↦ true
  | _ ↦ false
]

-- Issues about rows that are not reviewed and have no historical evidence.
abbrev pub is_unreviewed : ReconciliationIssue → Bool
is_unreviewed x = elim x.code [
  | unexpected_association ↦ true
  | unexpected_anchor ↦ true
  | unexpected_corridor ↦ true
  | _ ↦ false
]

-- Issues about rows that are not reviewed but have historical evidence.
abbrev pub is_evidenced : ReconciliationIssue → Bool
is_evidenced x = elim x.code [ stale_anchor ↦ true | stale_corridor ↦ true | _ ↦ false ]

-- The three lists keep to their purposes, for a list of issues.
pub record IsSafePlan (xs : List ReconciliationIssue) (p : RegistryRepairPlan) : Type 0 where
  pub safe_only_adds :
      All (λ a. (is_additive a.kind ≡ true) × (a.requires_manual_review ≡ false)) p.safe_actions
  pub manual_has_no_evidence :
      All
        (λ a.
          (is_additive a.kind ≡ false)
          × (a.requires_manual_review ≡ true)
          × ((a.historical_evidence_count ≡ none) ⊎ (a.historical_evidence_count ≡ some 0)))
        p.manual_review_actions
  pub skipped_is_retirement :
      All
        (λ a.
          ((a.kind ≡ retire_anchor) ⊎ (a.kind ≡ retire_corridor))
          × (a.requires_manual_review ≡ true)
          × (a.blocked_by_historical_evidence ≡ true))
        p.skipped_evidence_deletions
  pub each_repair_is_safe : length p.safe_actions ≡ count_by is_repairable xs
  pub each_unreviewed_is_reviewed : length p.manual_review_actions ≡ count_by is_unreviewed xs
  pub each_evidenced_is_skipped : length p.skipped_evidence_deletions ≡ count_by is_evidenced xs
