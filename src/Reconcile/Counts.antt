-- ===== src/Reconcile/Counts.antt =====
-- lib/stellar/registryReconciliation.ts: the summary counts the issues.
use stellar_core.Prelude.{
  ℕ, ◌+◌, ◌≡◌, refl, sym, ◌∙◌, Bool, List, [], ◌∷◌, arith, ◌==◌, if◌then◌else◌, length,
}
use stellar_core.Prelude.Predicates.{count_by}
use stellar_core.Prelude.Sort.{length-sort_by, count_by-sort_by}
use stellar_core.Reconcile.Report.{all_issues}
use stellar_core.Reconcile.Result.{
  empty_summary, count_code, summarize_from, summarize, issue_before,
  reconcile_registry_with_database,
}
use stellar_core.Reconcile.Types.{
  ReconciliationIssueCode, missing_anchor, missing_corridor, unexpected_anchor, unexpected_corridor,
  anchor_field_mismatch, corridor_field_mismatch, missing_association, unexpected_association,
  orphaned_anchor_link, orphaned_corridor_link, orphaned_rate_snapshot, orphaned_transfer_outcome,
  stale_anchor, stale_corridor, RegistryReconciliationInput, ReconciliationIssue,
  ReconciliationSummaryCounts,
}

-- A number for each code, so that codes can be compared.
abbrev pub code_index : ReconciliationIssueCode → ℕ
code_index missing_anchor = 0
code_index missing_corridor = 1
code_index unexpected_anchor = 2
code_index unexpected_corridor = 3
code_index anchor_field_mismatch = 4
code_index corridor_field_mismatch = 5
code_index missing_association = 6
code_index unexpected_association = 7
code_index orphaned_anchor_link = 8
code_index orphaned_corridor_link = 9
code_index orphaned_rate_snapshot = 10
code_index orphaned_transfer_outcome = 11
code_index stale_anchor = 12
code_index stale_corridor = 13

-- The counter of a code in the summary.
abbrev pub counter : ReconciliationIssueCode → ReconciliationSummaryCounts → ℕ
counter missing_anchor c = c.missing_anchors
counter missing_corridor c = c.missing_corridors
counter unexpected_anchor c = c.unexpected_anchors
counter unexpected_corridor c = c.unexpected_corridors
counter anchor_field_mismatch c = c.anchor_field_mismatches
counter corridor_field_mismatch c = c.corridor_field_mismatches
counter missing_association c = c.missing_associations
counter unexpected_association c = c.unexpected_associations
counter orphaned_anchor_link c = c.orphaned_anchor_links
counter orphaned_corridor_link c = c.orphaned_corridor_links
counter orphaned_rate_snapshot c = c.orphaned_rate_snapshots
counter orphaned_transfer_outcome c = c.orphaned_transfer_outcomes
counter stale_anchor c = c.stale_anchors
counter stale_corridor c = c.stale_corridors

abbrev pub has_code : ReconciliationIssueCode → ReconciliationIssue → Bool
has_code code issue = code_index issue.code == code_index code

counter-count_code :
    (k j : ReconciliationIssueCode) (c : ReconciliationSummaryCounts)
    → counter k (count_code j c) ≡ counter k c + (if code_index j == code_index k then 1 else 0)
unfolding count_code
counter-count_code k j c = ground arith

counter-summarize_from :
    (k : ReconciliationIssueCode) (c : ReconciliationSummaryCounts) (xs : List ReconciliationIssue)
    → counter k (summarize_from c xs) ≡ counter k c + count_by (has_code k) xs
unfolding summarize_from
counter-summarize_from k c [] = omega arith
counter-summarize_from k c (x ∷ xs) =
    omega (arith, counter-summarize_from k (count_code x.code c) xs, counter-count_code k x.code c)

total-count_code :
    (j : ReconciliationIssueCode) (c : ReconciliationSummaryCounts)
    → (count_code j c).total_issues ≡ c.total_issues
unfolding count_code
total-count_code j c = ground arith

counter_start :
    (k : ReconciliationIssueCode) (n : ℕ)
    → counter k (record empty_summary { total_issues = n }) ≡ 0
counter_start k n = ground arith

total-summarize_from :
    (c : ReconciliationSummaryCounts) (xs : List ReconciliationIssue)
    → (summarize_from c xs).total_issues ≡ c.total_issues
unfolding summarize_from
total-summarize_from c [] = refl
total-summarize_from c (x ∷ xs) =
    total-summarize_from (count_code x.code c) xs ∙ total-count_code x.code c

-- The summary of a result is that of its sorted issues: the total is their number, and the counter of
-- each code is how many of them have the code.
pub summary_counts_issues :
    (i : RegistryReconciliationInput) (k : ReconciliationIssueCode)
    → let r = reconcile_registry_with_database i in
      (r.summary.total_issues ≡ length r.issues)
      × (counter k r.summary ≡ count_by (has_code k) r.issues)
unfolding reconcile_registry_with_database summarize
summary_counts_issues i k =
    let start = record empty_summary { total_issues = length (all_issues i) } in
    (
      total-summarize_from start (all_issues i) ∙ sym (length-sort_by issue_before (all_issues i)),
      omega (
        arith,
        counter-summarize_from k start (all_issues i),
        count_by-sort_by issue_before (has_code k) (all_issues i),
        counter_start k (length (all_issues i)),
      ),
    )
