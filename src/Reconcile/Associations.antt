-- ===== src/Reconcile/Associations.antt =====
-- lib/stellar/registryReconciliation.ts: the identities of associations, the two sets of them, and
-- their audit.
use stellar_core.Prelude.{Bool, not, some, List, [], ◌∷◌, ◌++◌, map, ◌==◌, if◌then◌else◌}
use stellar_core.Prelude.Sort.{sort_by}
use stellar_core.Prelude.Text.{Text, text_lt, set_has, to_set}
use stellar_core.Reconcile.Audit.{map_has, anchor_entry_slug, corridor_entry_slug, issue_of}
use stellar_core.Reconcile.Types.{
  AnchorRegistryEntry, CorridorRegistryEntry, AnchorCorridorRegistryEntry, ReconciliationIssueCode,
  missing_association, unexpected_association, orphaned_anchor_link, orphaned_corridor_link,
  anchor_corridor, PersistedAssociationRecord, RegistryReconciliationInput, ReconciliationIssue,
}

-- The identity joins the slugs by U+0000.
unfoldable pub association_identity : Text → Text → Text
association_identity anchor_slug corridor_slug = anchor_slug ++ 0 ∷ corridor_slug

-- `indexOf("\u0000")` and the two slices around it; an identity always has the separator.
unfoldable pub split_association_identity : Text → Text × Text
split_association_identity [] = ([], [])
split_association_identity (c ∷ s) =
    let (anchor_slug, corridor_slug) = split_association_identity s in
    if c == 0 then ([], s) else (c ∷ anchor_slug, corridor_slug)

-- `set.has`.
unfoldable pub sorted_identities : List Text → List Text
sorted_identities xs = sort_by text_lt (to_set xs)

unfoldable pub persisted_identities : List PersistedAssociationRecord → List Text
persisted_identities rs = map (λ r. association_identity r.anchor_slug r.corridor_slug) rs

unfoldable pub desired_identities : List AnchorCorridorRegistryEntry → List Text
desired_identities [] = []
desired_identities (m ∷ ms) =
    map (association_identity m.anchor_slug) m.corridor_slugs ++ desired_identities ms

abbrev identity_issue : ReconciliationIssueCode → Text → ReconciliationIssue
identity_issue code identity =
    issue_of code anchor_corridor (some (split_association_identity identity).0)
      (some (split_association_identity identity).1)

unfoldable pub missing_associations_audit : List Text → List Text → List ReconciliationIssue
missing_associations_audit persisted [] = []
missing_associations_audit persisted (x ∷ xs) =
    let rest = missing_associations_audit persisted xs in
    if set_has x persisted then rest else identity_issue missing_association x ∷ rest

-- The code of an association that the registry does not list: its anchor is looked at first.
unfoldable pub unexpected_code : Bool → Bool → ReconciliationIssueCode
unexpected_code anchor_is_unreviewed corridor_is_unreviewed =
    if anchor_is_unreviewed
    then orphaned_anchor_link
    else if corridor_is_unreviewed
    then orphaned_corridor_link
    else unexpected_association

module _ (registry_anchors : List AnchorRegistryEntry)
    (registry_corridors : List CorridorRegistryEntry) where
  unfoldable pub unexpected_issue : Text → ReconciliationIssue
  unexpected_issue identity =
      identity_issue
        (unexpected_code
          (not (map_has anchor_entry_slug (split_association_identity identity).0 registry_anchors))
          (not (
            map_has corridor_entry_slug (split_association_identity identity).1
              registry_corridors)))
        identity

  unfoldable pub unexpected_associations_audit : List Text → List Text → List ReconciliationIssue
  unexpected_associations_audit desired [] = []
  unexpected_associations_audit desired (x ∷ xs) =
      let rest = unexpected_associations_audit desired xs in
      if set_has x desired then rest else unexpected_issue x ∷ rest

unfoldable pub audit_associations : RegistryReconciliationInput → List ReconciliationIssue
audit_associations i =
    let desired = desired_identities i.anchor_corridor_mappings in
    let persisted = persisted_identities i.persisted.associations in
    missing_associations_audit persisted (sorted_identities desired)
    ++ unexpected_associations_audit i.anchors i.corridors desired (sorted_identities persisted)
