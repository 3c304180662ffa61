-- ===== src/Reconcile/Types.antt =====
-- types/registryReconciliation.ts, types/anchor.ts and types/corridor.ts: the registries, the
-- persisted rows, the issues and the actions.
use stellar_core.Prelude.{ℕ, Bool, Option, List}
use stellar_core.Prelude.Text.{Text}

pub record AnchorRegistryEntry : Type 0 where
  pub slug : Text
  pub name : Text
  pub home_domain : Text

pub record CorridorRegistryEntry : Type 0 where
  pub slug : Text
  pub asset_code_from : Text
  pub country_from : Text
  pub asset_code_to : Text
  pub country_to : Text

pub record AnchorCorridorRegistryEntry : Type 0 where
  pub anchor_slug : Text
  pub corridor_slugs : List Text

-- `ReconciliationAnchorField | ReconciliationCorridorField`.
pub data ReconciliationField : Type 0 where
  name_field home_domain_field toml_url_field : ReconciliationField
  asset_code_from_field country_from_field asset_code_to_field country_to_field :
      ReconciliationField

pub data ReconciliationIssueCode : Type 0 where
  missing_anchor missing_corridor unexpected_anchor unexpected_corridor : ReconciliationIssueCode
  anchor_field_mismatch corridor_field_mismatch : ReconciliationIssueCode
  missing_association unexpected_association : ReconciliationIssueCode
  orphaned_anchor_link orphaned_corridor_link : ReconciliationIssueCode
  orphaned_rate_snapshot orphaned_transfer_outcome : ReconciliationIssueCode
  stale_anchor stale_corridor : ReconciliationIssueCode

pub data ReconciliationEntityKind : Type 0 where
  anchor corridor anchor_corridor rate_snapshot transfer_outcome : ReconciliationEntityKind

pub record PersistedAnchorRecord : Type 0 where
  pub slug : Text
  pub name : Text
  pub home_domain : Text
  pub toml_url : Text
  pub status : Text
  pub corridor_count : ℕ
  pub rate_snapshot_count : ℕ
  pub transfer_outcome_count : ℕ

pub record PersistedCorridorRecord : Type 0 where
  pub slug : Text
  pub asset_code_from : Text
  pub country_from : Text
  pub asset_code_to : Text
  pub country_to : Text
  pub anchor_count : ℕ
  pub rate_snapshot_count : ℕ
  pub transfer_outcome_count : ℕ

pub record PersistedAssociationRecord : Type 0 where
  pub anchor_slug : Text
  pub corridor_slug : Text

pub record PersistedReconciliationState : Type 0 where
  pub anchors : List PersistedAnchorRecord
  pub corridors : List PersistedCorridorRecord
  pub associations : List PersistedAssociationRecord

pub record RegistryReconciliationInput : Type 0 where
  pub anchors : List AnchorRegistryEntry
  pub corridors : List CorridorRegistryEntry
  pub anchor_corridor_mappings : List AnchorCorridorRegistryEntry
  pub persisted : PersistedReconciliationState

pub record ReconciliationIssue : Type 0 where
  pub code : ReconciliationIssueCode
  pub entity : ReconciliationEntityKind
  pub anchor_slug : Option Text
  pub corridor_slug : Option Text
  pub field : Option ReconciliationField
  pub expected : Option Text
  pub actual : Option Text
  pub historical_evidence_count : Option ℕ

pub record ReconciliationSummaryCounts : Type 0 where
  pub total_issues : ℕ
  pub missing_anchors : ℕ
  pub missing_corridors : ℕ
  pub unexpected_anchors : ℕ
  pub unexpected_corridors : ℕ
  pub anchor_field_mismatches : ℕ
  pub corridor_field_mismatches : ℕ
  pub missing_associations : ℕ
  pub unexpected_associations : ℕ
  pub orphaned_anchor_links : ℕ
  pub orphaned_corridor_links : ℕ
  pub orphaned_rate_snapshots : ℕ
  pub orphaned_transfer_outcomes : ℕ
  pub stale_anchors : ℕ
  pub stale_corridors : ℕ

pub record HistoricalEvidenceSummary : Type 0 where
  pub orphaned_anchors : ℕ
  pub orphaned_corridors : ℕ
  pub rate_snapshots_attached_to_orphaned_anchors : ℕ
  pub rate_snapshots_attached_to_orphaned_corridors : ℕ
  pub transfer_outcomes_attached_to_orphaned_anchors : ℕ
  pub transfer_outcomes_attached_to_orphaned_corridors : ℕ

pub record ReconciliationResult : Type 0 where
  pub drift : Bool
  pub issues : List ReconciliationIssue
  pub summary : ReconciliationSummaryCounts
  pub historical_evidence : HistoricalEvidenceSummary

pub data ReconciliationRepairActionKind : Type 0 where
  create_anchor update_anchor create_corridor update_corridor : ReconciliationRepairActionKind
  create_association remove_association retire_anchor retire_corridor :
      ReconciliationRepairActionKind

pub record ReconciliationRepairAction : Type 0 where
  pub kind : ReconciliationRepairActionKind
  pub entity : ReconciliationEntityKind
  pub anchor_slug : Option Text
  pub corridor_slug : Option Text
  pub field : Option ReconciliationField
  pub expected : Option Text
  pub historical_evidence_count : Option ℕ
  pub requires_manual_review : Bool
  pub blocked_by_historical_evidence : Bool

pub record RegistryRepairPlan : Type 0 where
  pub safe_actions : List ReconciliationRepairAction
  pub manual_review_actions : List ReconciliationRepairAction
  pub skipped_evidence_deletions : List ReconciliationRepairAction
  pub applies_without_manual_action : Bool
