-- ===== src/Reconcile/Tests.antt =====
-- A registry of one anchor, and a database that has another one with evidence.
use stellar_core.Prelude.{◌≡◌, refl, ◌↔◌, true, false, [], ◌∷◌, map}
use stellar_core.Prelude.Predicates.{any}
use stellar_core.Prelude.Sort.{sort_by}
use stellar_core.Prelude.Text.{codes, text_eq, text_lt, set_has, to_set}
use mathlib.Core.List.{Memᴰ}
use stellar_core.Reconcile.Associations.{
  association_identity, split_association_identity, sorted_identities, persisted_identities,
  desired_identities, missing_associations_audit, unexpected_code, unexpected_issue,
  unexpected_associations_audit, audit_associations,
}
use stellar_core.Reconcile.Audit.{
  map_get, map_has, anchor_issues, missing_anchors_audit, unexpected_anchors_audit, audit_anchors,
  missing_corridors_audit, unexpected_corridors_audit, audit_corridors,
}
use stellar_core.Reconcile.Drift.{IsInSync, drift_iff}
use stellar_core.Reconcile.Evidence.{is_evidence_free_retirement, unexpected_anchor_loses_evidence}
use stellar_core.Reconcile.Plan.{build_registry_reconciliation_report}
use stellar_core.Reconcile.Report.{
  orphaned_anchor_evidence, orphaned_corridor_evidence, stale_issues, found_issues, all_issues,
}
use stellar_core.Reconcile.Result.{issue_before, reconcile_registry_with_database}
use stellar_core.Reconcile.Types.{
  AnchorRegistryEntry, missing_anchor, unexpected_anchor, missing_association, orphaned_anchor_link,
  orphaned_rate_snapshot, orphaned_transfer_outcome, stale_anchor, PersistedAnchorRecord,
  RegistryReconciliationInput,
}

abbrev zeam : AnchorRegistryEntry
zeam = record { slug = codes "zeam"; name = codes "Zeam"; home_domain = codes "zeam.money" }

abbrev old_anchor : PersistedAnchorRecord
old_anchor = record {
  slug = codes "old";
  name = codes "Old";
  home_domain = codes "old.org";
  toml_url = codes "https://old.org/.well-known/stellar.toml";
  status = codes "LIVE";
  corridor_count = 0;
  rate_snapshot_count = 7;
  transfer_outcome_count = 2;
}

abbrev drifted : RegistryReconciliationInput
drifted = record {
  anchors = zeam ∷ [];
  corridors = [];
  anchor_corridor_mappings =
      record {
        anchor_slug = codes "zeam";
        corridor_slugs = codes "usdc-brl" ∷ codes "usdc-brl" ∷ [];
      }
      ∷ [];
  persisted = record {
    anchors = old_anchor ∷ [];
    corridors = [];
    associations = record { anchor_slug = codes "old"; corridor_slug = codes "x" } ∷ [];
  };
}

drifted_codes :
    map (λ x. x.code) (reconcile_registry_with_database drifted).issues
    ≡ missing_anchor ∷ missing_association ∷ orphaned_anchor_link ∷ orphaned_rate_snapshot
      ∷ orphaned_transfer_outcome ∷ stale_anchor ∷ unexpected_anchor ∷ []
unfolding reconcile_registry_with_database all_issues found_issues audit_anchors audit_corridors
    audit_associations missing_anchors_audit unexpected_anchors_audit missing_corridors_audit
    unexpected_corridors_audit missing_associations_audit unexpected_associations_audit
    orphaned_anchor_evidence orphaned_corridor_evidence stale_issues anchor_issues map_get map_has
    text_eq text_lt sort_by issue_before sorted_identities to_set desired_identities
    persisted_identities association_identity split_association_identity set_has unexpected_issue
    unexpected_code
drifted_codes = refl

drift_iff_example : ((reconcile_registry_with_database drifted).drift ≡ false) ↔ IsInSync drifted
drift_iff_example = drift_iff drifted

unexpected_anchor_loses_evidence_example :
    any
      (is_evidence_free_retirement (codes "old"))
      (build_registry_reconciliation_report drifted).1.manual_review_actions
    ≡ true
unfolding map_has text_eq
unexpected_anchor_loses_evidence_example =
    unexpected_anchor_loses_evidence drifted old_anchor (Memᴰ.head refl) refl
