-- ===== src/Reconcile/Audit.antt =====
-- lib/stellar/registryReconciliation.ts: the audits of anchors, corridors and associations, and the
-- historical evidence.
use stellar_core.Prelude.{ℕ, ◌+◌, Bool, Option, none, some, List, [], ◌∷◌, ◌++◌, if◌then◌else◌}
use stellar_core.Prelude.Predicates.{any}
use stellar_core.Prelude.Text.{Text, codes, text_eq}
use stellar_core.Reconcile.Types.{
  AnchorRegistryEntry, CorridorRegistryEntry, ReconciliationField, name_field, home_domain_field,
  toml_url_field, asset_code_from_field, country_from_field, asset_code_to_field, country_to_field,
  ReconciliationIssueCode, missing_anchor, missing_corridor, unexpected_anchor, unexpected_corridor,
  anchor_field_mismatch, corridor_field_mismatch, ReconciliationEntityKind, anchor, corridor,
  PersistedAnchorRecord, PersistedCorridorRecord, RegistryReconciliationInput, ReconciliationIssue,
}

-- `new Map(rows.map((row) => [row.slug, row])).get(key)`: a later row replaces an earlier one.
unfoldable pub map_get {ℓ} : {A : Type ℓ} → (A → Text) → Text → List A → Option A
map_get key_of key [] = none
map_get key_of key (x ∷ xs) = elim (map_get key_of key xs) [
  | some y ↦ some y
  | none ↦ if text_eq (key_of x) key then some x else none
]

-- `has`, of such a map and of a set.
unfoldable pub map_has {ℓ} : {A : Type ℓ} → (A → Text) → Text → List A → Bool
map_has key_of key xs = any (λ x. text_eq (key_of x) key) xs

abbrev pub anchor_entry_slug : AnchorRegistryEntry → Text
anchor_entry_slug e = e.slug

abbrev pub corridor_entry_slug : CorridorRegistryEntry → Text
corridor_entry_slug e = e.slug

abbrev pub anchor_record_slug : PersistedAnchorRecord → Text
anchor_record_slug r = r.slug

abbrev pub corridor_record_slug : PersistedCorridorRecord → Text
corridor_record_slug r = r.slug

-- An issue with its code, entity and slugs, and no further property.
abbrev pub issue_of :
    ReconciliationIssueCode
    → ReconciliationEntityKind
    → Option Text
    → Option Text
    → ReconciliationIssue
issue_of code entity anchor_slug corridor_slug = record {
  code = code;
  entity = entity;
  anchor_slug = anchor_slug;
  corridor_slug = corridor_slug;
  field = none;
  expected = none;
  actual = none;
  historical_evidence_count = none;
}

abbrev pub evidence_issue :
    ReconciliationIssueCode
    → ReconciliationEntityKind
    → Option Text
    → Option Text
    → ℕ
    → ReconciliationIssue
evidence_issue code entity anchor_slug corridor_slug evidence =
    record (issue_of code entity anchor_slug corridor_slug) {
      historical_evidence_count = some evidence;
    }

unfoldable pub build_canonical_toml_url : Text → Text
build_canonical_toml_url home_domain =
    codes "https://" ++ home_domain ++ codes "/.well-known/stellar.toml"

-- One round of the loop over the compared fields.
unfoldable pub field_issues :
    ReconciliationIssue → ReconciliationField → Text → Text → List ReconciliationIssue
field_issues base field expected actual =
    if text_eq expected actual
    then []
    else record base { field = some field; expected = some expected; actual = some actual } ∷ []

unfoldable pub anchor_issues :
    AnchorRegistryEntry → Option PersistedAnchorRecord → List ReconciliationIssue
anchor_issues e none = issue_of missing_anchor anchor (some e.slug) none ∷ []
anchor_issues e (some r) =
    let base = issue_of anchor_field_mismatch anchor (some e.slug) none in
    field_issues base name_field e.name r.name
    ++ (field_issues base home_domain_field e.home_domain r.home_domain
        ++ field_issues base toml_url_field (build_canonical_toml_url e.home_domain) r.toml_url)

unfoldable pub missing_anchors_audit :
    List PersistedAnchorRecord → List AnchorRegistryEntry → List ReconciliationIssue
missing_anchors_audit persisted [] = []
missing_anchors_audit persisted (e ∷ es) =
    anchor_issues e (map_get anchor_record_slug e.slug persisted)
    ++ missing_anchors_audit persisted es

unfoldable pub unexpected_anchors_audit :
    List AnchorRegistryEntry → List PersistedAnchorRecord → List ReconciliationIssue
unexpected_anchors_audit registry [] = []
unexpected_anchors_audit registry (r ∷ rs) =
    let rest = unexpected_anchors_audit registry rs in
    if map_has anchor_entry_slug r.slug registry
    then rest
    else evidence_issue unexpected_anchor anchor (some r.slug) none
        (r.rate_snapshot_count + r.transfer_outcome_count)
      ∷ rest

unfoldable pub audit_anchors : RegistryReconciliationInput → List ReconciliationIssue
audit_anchors i =
    missing_anchors_audit i.persisted.anchors i.anchors
    ++ unexpected_anchors_audit i.anchors i.persisted.anchors

unfoldable pub corridor_issues :
    CorridorRegistryEntry → Option PersistedCorridorRecord → List ReconciliationIssue
corridor_issues e none = issue_of missing_corridor corridor none (some e.slug) ∷ []
corridor_issues e (some r) =
    let base = issue_of corridor_field_mismatch corridor none (some e.slug) in
    field_issues base asset_code_from_field e.asset_code_from r.asset_code_from
    ++ (field_issues base country_from_field e.country_from r.country_from
        ++ (field_issues base asset_code_to_field e.asset_code_to r.asset_code_to
            ++ field_issues base country_to_field e.country_to r.country_to))

unfoldable pub missing_corridors_audit :
    List PersistedCorridorRecord → List CorridorRegistryEntry → List ReconciliationIssue
missing_corridors_audit persisted [] = []
missing_corridors_audit persisted (e ∷ es) =
    corridor_issues e (map_get corridor_record_slug e.slug persisted)
    ++ missing_corridors_audit persisted es

unfoldable pub unexpected_corridors_audit :
    List CorridorRegistryEntry → List PersistedCorridorRecord → List ReconciliationIssue
unexpected_corridors_audit registry [] = []
unexpected_corridors_audit registry (r ∷ rs) =
    let rest = unexpected_corridors_audit registry rs in
    if map_has corridor_entry_slug r.slug registry
    then rest
    else evidence_issue unexpected_corridor corridor none (some r.slug)
        (r.rate_snapshot_count + r.transfer_outcome_count)
      ∷ rest

unfoldable pub audit_corridors : RegistryReconciliationInput → List ReconciliationIssue
audit_corridors i =
    missing_corridors_audit i.persisted.corridors i.corridors
    ++ unexpected_corridors_audit i.corridors i.persisted.corridors
