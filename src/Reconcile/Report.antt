-- ===== src/Reconcile/Report.antt =====
-- lib/stellar/registryReconciliation.ts: `collectHistoricalEvidence`, and the issues that the
-- audits and the stale associations give together.
use stellar_core.Prelude.{
  ℕ, ◌+◌, Bool, Option, none, some, List, [], ◌∷◌, ◌++◌, ltb, ◌==◌, if◌then◌else◌,
}
use stellar_core.Prelude.Text.{Text}
use stellar_core.Reconcile.Associations.{audit_associations}
use stellar_core.Reconcile.Audit.{
  map_get, map_has, anchor_entry_slug, corridor_entry_slug, anchor_record_slug,
  corridor_record_slug, evidence_issue, audit_anchors, audit_corridors,
}
use stellar_core.Reconcile.Types.{
  AnchorRegistryEntry, CorridorRegistryEntry, ReconciliationIssueCode, unexpected_anchor,
  unexpected_corridor, orphaned_rate_snapshot, orphaned_transfer_outcome, stale_anchor,
  stale_corridor, ReconciliationEntityKind, anchor, corridor, rate_snapshot, transfer_outcome,
  PersistedAnchorRecord, PersistedCorridorRecord, PersistedReconciliationState,
  RegistryReconciliationInput, ReconciliationIssue, HistoricalEvidenceSummary,
}

orphan_issues :
    Option Text → Option Text → ℕ → ℕ → List ReconciliationIssue → List ReconciliationIssue
orphan_issues anchor_slug corridor_slug rates outcomes rest =
    let outcome_issues =
      if ltb 0 outcomes
      then evidence_issue orphaned_transfer_outcome transfer_outcome anchor_slug corridor_slug
          outcomes
        ∷ rest
      else rest in
    if ltb 0 rates
    then evidence_issue orphaned_rate_snapshot rate_snapshot anchor_slug corridor_slug rates
      ∷ outcome_issues
    else outcome_issues

unfoldable pub orphaned_anchor_evidence :
    List AnchorRegistryEntry → List PersistedAnchorRecord → List ReconciliationIssue
unfolding orphan_issues
orphaned_anchor_evidence registry [] = []
orphaned_anchor_evidence registry (r ∷ rs) =
    let rest = orphaned_anchor_evidence registry rs in
    if map_has anchor_entry_slug r.slug registry
    then rest
    else orphan_issues (some r.slug) none r.rate_snapshot_count r.transfer_outcome_count rest

unfoldable pub orphaned_corridor_evidence :
    List CorridorRegistryEntry → List PersistedCorridorRecord → List ReconciliationIssue
unfolding orphan_issues
orphaned_corridor_evidence registry [] = []
orphaned_corridor_evidence registry (r ∷ rs) =
    let rest = orphaned_corridor_evidence registry rs in
    if map_has corridor_entry_slug r.slug registry
    then rest
    else orphan_issues none (some r.slug) r.rate_snapshot_count r.transfer_outcome_count rest

-- The sum of a count over the rows that the registry does not list.
unfoldable pub orphan_sum {ℓ} : {A : Type ℓ} → (A → Bool) → (A → ℕ) → List A → ℕ
orphan_sum listed count [] = 0
orphan_sum listed count (r ∷ rs) = (if listed r then 0 else count r) + orphan_sum listed count rs

unfoldable pub historical_evidence_of : RegistryReconciliationInput → HistoricalEvidenceSummary
historical_evidence_of i =
    let anchor_listed = λ (r : PersistedAnchorRecord). map_has anchor_entry_slug r.slug i.anchors in
    let corridor_listed =
      λ (r : PersistedCorridorRecord). map_has corridor_entry_slug r.slug i.corridors in
    let anchors = i.persisted.anchors in
    let corridors = i.persisted.corridors in
    record {
      orphaned_anchors = orphan_sum anchor_listed (λ r. 1) anchors;
      orphaned_corridors = orphan_sum corridor_listed (λ r. 1) corridors;
      rate_snapshots_attached_to_orphaned_anchors =
          orphan_sum anchor_listed (λ r. r.rate_snapshot_count) anchors;
      rate_snapshots_attached_to_orphaned_corridors =
          orphan_sum corridor_listed (λ r. r.rate_snapshot_count) corridors;
      transfer_outcomes_attached_to_orphaned_anchors =
          orphan_sum anchor_listed (λ r. r.transfer_outcome_count) anchors;
      transfer_outcomes_attached_to_orphaned_corridors =
          orphan_sum corridor_listed (λ r. r.transfer_outcome_count) corridors;
    }

abbrev slug_or_empty : Option Text → Text
slug_or_empty none = []
slug_or_empty (some s) = s

-- The evidence of the row that an issue names. The row is there: an UNEXPECTED issue is made from one.
abbrev anchor_evidence : Option PersistedAnchorRecord → ℕ
anchor_evidence none = 0
anchor_evidence (some r) = r.rate_snapshot_count + r.transfer_outcome_count

abbrev corridor_evidence : Option PersistedCorridorRecord → ℕ
corridor_evidence none = 0
corridor_evidence (some r) = r.rate_snapshot_count + r.transfer_outcome_count

-- `evidenceCount === 0` skips the row.
stale_issue :
    ReconciliationIssueCode
    → ReconciliationEntityKind
    → Option Text
    → Option Text
    → ℕ
    → List ReconciliationIssue
stale_issue code entity anchor_slug corridor_slug evidence =
    if evidence == 0 then [] else evidence_issue code entity anchor_slug corridor_slug evidence ∷ []

module _ (p : PersistedReconciliationState) where
  stale_of : ReconciliationIssueCode → ReconciliationIssue → List ReconciliationIssue
  unfolding stale_issue
  stale_of unexpected_anchor issue =
      let slug = slug_or_empty issue.anchor_slug in
      stale_issue stale_anchor anchor (some slug) none
        (anchor_evidence (map_get anchor_record_slug slug p.anchors))
  stale_of unexpected_corridor issue =
      let slug = slug_or_empty issue.corridor_slug in
      stale_issue stale_corridor corridor none (some slug)
        (corridor_evidence (map_get corridor_record_slug slug p.corridors))
  stale_of _ issue = []

  -- The last loop. It also meets the issues that it adds, which are no UNEXPECTED ones.
  unfoldable pub stale_issues : List ReconciliationIssue → List ReconciliationIssue
  unfolding stale_of
  stale_issues [] = []
  stale_issues (issue ∷ issues) = stale_of issue.code issue ++ stale_issues issues

-- The issues in the order in which they are found.
unfoldable pub found_issues : RegistryReconciliationInput → List ReconciliationIssue
found_issues i =
    audit_anchors i
    ++ (audit_corridors i
        ++ (audit_associations i
            ++ (orphaned_anchor_evidence i.anchors i.persisted.anchors
                ++ orphaned_corridor_evidence i.corridors i.persisted.corridors)))

unfoldable pub all_issues : RegistryReconciliationInput → List ReconciliationIssue
all_issues i = let found = found_issues i in found ++ stale_issues i.persisted found
