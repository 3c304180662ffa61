-- ===== src/Reconcile/Result.antt =====
-- lib/stellar/registryReconciliation.ts: `summarize`, `compareIssues` and
-- `reconcileRegistryWithDatabase`.
use stellar_core.Prelude.{
  ◌+◌, Bool, true, false, Option, none, some, List, [], ◌∷◌, ltb, if◌then◌else◌, length,
}
use stellar_core.Prelude.Sort.{sort_by}
use stellar_core.Prelude.Text.{Text, codes, text_lt}
use stellar_core.Reconcile.Report.{historical_evidence_of, all_issues}
use stellar_core.Reconcile.Types.{
  ReconciliationField, name_field, home_domain_field, toml_url_field, asset_code_from_field,
  country_from_field, asset_code_to_field, country_to_field, ReconciliationIssueCode,
  missing_anchor, missing_corridor, unexpected_anchor, unexpected_corridor, anchor_field_mismatch,
  corridor_field_mismatch, missing_association, unexpected_association, orphaned_anchor_link,
  orphaned_corridor_link, orphaned_rate_snapshot, orphaned_transfer_outcome, stale_anchor,
  stale_corridor, ReconciliationEntityKind, anchor, corridor, anchor_corridor, rate_snapshot,
  transfer_outcome, RegistryReconciliationInput, ReconciliationIssue, ReconciliationSummaryCounts,
  ReconciliationResult,
}

abbrev pub empty_summary : ReconciliationSummaryCounts
empty_summary = record {
  total_issues = 0;
  missing_anchors = 0;
  missing_corridors = 0;
  unexpected_anchors = 0;
  unexpected_corridors = 0;
  anchor_field_mismatches = 0;
  corridor_field_mismatches = 0;
  missing_associations = 0;
  unexpected_associations = 0;
  orphaned_anchor_links = 0;
  orphaned_corridor_links = 0;
  orphaned_rate_snapshots = 0;
  orphaned_transfer_outcomes = 0;
  stale_anchors = 0;
  stale_corridors = 0;
}

-- One round of the loop of `summarize`.
unfoldable pub count_code :
    ReconciliationIssueCode → ReconciliationSummaryCounts → ReconciliationSummaryCounts
count_code missing_anchor c = record c { missing_anchors = c.missing_anchors + 1 }
count_code missing_corridor c = record c { missing_corridors = c.missing_corridors + 1 }
count_code unexpected_anchor c = record c { unexpected_anchors = c.unexpected_anchors + 1 }
count_code unexpected_corridor c = record c { unexpected_corridors = c.unexpected_corridors + 1 }
count_code anchor_field_mismatch c = record c {
  anchor_field_mismatches = c.anchor_field_mismatches + 1;
}
count_code corridor_field_mismatch c = record c {
  corridor_field_mismatches = c.corridor_field_mismatches + 1;
}
count_code missing_association c = record c { missing_associations = c.missing_associations + 1 }
count_code unexpected_association c = record c {
  unexpected_associations = c.unexpected_associations + 1;
}
count_code orphaned_anchor_link c = record c { orphaned_anchor_links = c.orphaned_anchor_links + 1 }
count_code orphaned_corridor_link c = record c {
  orphaned_corridor_links = c.orphaned_corridor_links + 1;
}
count_code orphaned_rate_snapshot c = record c {
  orphaned_rate_snapshots = c.orphaned_rate_snapshots + 1;
}
count_code orphaned_transfer_outcome c = record c {
  orphaned_transfer_outcomes = c.orphaned_transfer_outcomes + 1;
}
count_code stale_anchor c = record c { stale_anchors = c.stale_anchors + 1 }
count_code stale_corridor c = record c { stale_corridors = c.stale_corridors + 1 }

unfoldable pub summarize_from :
    ReconciliationSummaryCounts → List ReconciliationIssue → ReconciliationSummaryCounts
unfolding count_code
summarize_from c [] = c
summarize_from c (issue ∷ issues) = summarize_from (count_code issue.code c) issues

unfoldable pub summarize : List ReconciliationIssue → ReconciliationSummaryCounts
summarize issues = summarize_from (record empty_summary { total_issues = length issues }) issues

abbrev code_text : ReconciliationIssueCode → Text
code_text missing_anchor = codes "MISSING_ANCHOR"
code_text missing_corridor = codes "MISSING_CORRIDOR"
code_text unexpected_anchor = codes "UNEXPECTED_ANCHOR"
code_text unexpected_corridor = codes "UNEXPECTED_CORRIDOR"
code_text anchor_field_mismatch = codes "ANCHOR_FIELD_MISMATCH"
code_text corridor_field_mismatch = codes "CORRIDOR_FIELD_MISMATCH"
code_text missing_association = codes "MISSING_ASSOCIATION"
code_text unexpected_association = codes "UNEXPECTED_ASSOCIATION"
code_text orphaned_anchor_link = codes "ORPHANED_ANCHOR_LINK"
code_text orphaned_corridor_link = codes "ORPHANED_CORRIDOR_LINK"
code_text orphaned_rate_snapshot = codes "ORPHANED_RATE_SNAPSHOT"
code_text orphaned_transfer_outcome = codes "ORPHANED_TRANSFER_OUTCOME"
code_text stale_anchor = codes "STALE_ANCHOR"
code_text stale_corridor = codes "STALE_CORRIDOR"

abbrev entity_text : ReconciliationEntityKind → Text
entity_text anchor = codes "anchor"
entity_text corridor = codes "corridor"
entity_text anchor_corridor = codes "anchor_corridor"
entity_text rate_snapshot = codes "rate_snapshot"
entity_text transfer_outcome = codes "transfer_outcome"

abbrev field_text : Option ReconciliationField → Text
field_text none = []
field_text (some name_field) = codes "name"
field_text (some home_domain_field) = codes "homeDomain"
field_text (some toml_url_field) = codes "tomlUrl"
field_text (some asset_code_from_field) = codes "assetCodeFrom"
field_text (some country_from_field) = codes "countryFrom"
field_text (some asset_code_to_field) = codes "assetCodeTo"
field_text (some country_to_field) = codes "countryTo"

abbrev text_or_empty : Option Text → Text
text_or_empty none = []
text_or_empty (some s) = s

-- `compareText(a, b) || next`: before, if the texts are in order; else, if they agree, what follows.
text_before : Text → Text → Bool → Bool
text_before a b next = if text_lt a b then true else if text_lt b a then false else next

-- `compareIssues(left, right) < 0`.
unfoldable pub issue_before : ReconciliationIssue → ReconciliationIssue → Bool
unfolding text_before
issue_before l r = text_before (code_text l.code) (code_text r.code) (
    text_before (text_or_empty l.anchor_slug) (text_or_empty r.anchor_slug) (
      text_before (text_or_empty l.corridor_slug) (text_or_empty r.corridor_slug) (
        text_before (field_text l.field) (field_text r.field)
          (text_lt (entity_text l.entity) (entity_text r.entity)))))

unfoldable pub reconcile_registry_with_database : RegistryReconciliationInput → ReconciliationResult
reconcile_registry_with_database i =
    let issues = all_issues i in
    record {
      drift = ltb 0 (length issues);
      issues = sort_by issue_before issues;
      summary = summarize issues;
      historical_evidence = historical_evidence_of i;
    }
