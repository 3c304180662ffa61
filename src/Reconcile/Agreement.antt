-- ===== src/Reconcile/Agreement.antt =====
-- lib/stellar/registryReconciliation.ts: when the audits of anchors and corridors find nothing.
use stellar_core.Prelude.{◌≡◌, refl, ◌↔◌, true, Option, none, some, List, [], ◌∷◌, ◌++◌, arith}
use stellar_core.Prelude.Predicates.{All, append-nil_iff}
use stellar_core.Prelude.Text.{Text, text_eq_iff}
use stellar_core.Reconcile.Audit.{
  map_get, map_has, anchor_entry_slug, corridor_entry_slug, anchor_record_slug,
  corridor_record_slug, build_canonical_toml_url, field_issues, anchor_issues,
  missing_anchors_audit, unexpected_anchors_audit, corridor_issues, missing_corridors_audit,
  unexpected_corridors_audit,
}
use stellar_core.Reconcile.Report.{orphaned_anchor_evidence, orphaned_corridor_evidence}
use stellar_core.Reconcile.Types.{
  AnchorRegistryEntry, CorridorRegistryEntry, ReconciliationField, PersistedAnchorRecord,
  PersistedCorridorRecord, ReconciliationIssue,
}

-- A persisted row carries what the registry reviews.
abbrev pub AnchorAgrees : AnchorRegistryEntry → Option PersistedAnchorRecord → Type 0
AnchorAgrees e none = ⊥
AnchorAgrees e (some r) =
    (e.name ≡ r.name)
    × (e.home_domain ≡ r.home_domain)
    × (build_canonical_toml_url e.home_domain ≡ r.toml_url)

abbrev pub CorridorAgrees : CorridorRegistryEntry → Option PersistedCorridorRecord → Type 0
CorridorAgrees e none = ⊥
CorridorAgrees e (some r) =
    (e.asset_code_from ≡ r.asset_code_from)
    × (e.country_from ≡ r.country_from)
    × (e.asset_code_to ≡ r.asset_code_to)
    × (e.country_to ≡ r.country_to)

-- A joined list is empty exactly when both parts are.
pub nil_both :
    (xs ys : List ReconciliationIssue) {P Q : Type 0}
    → (xs ≡ []) ↔ P
    → (ys ≡ []) ↔ Q
    → ((xs ++ ys) ≡ []) ↔ (P × Q)
nil_both xs ys p q = (
  (λ e. let (a, b) = (append-nil_iff xs ys).0 e in (p.0 a, q.0 b)),
  λ (a, b). (append-nil_iff xs ys).1 (p.1 a, q.1 b),
)

field_issues-nil_iff :
    (base : ReconciliationIssue) (field : ReconciliationField) (expected actual : Text)
    → (field_issues base field expected actual ≡ []) ↔ (expected ≡ actual)
unfolding field_issues
field_issues-nil_iff base field expected actual = ground (arith, text_eq_iff expected actual)

flat_three : {Z P Q R : Type 0} → Z ↔ (P × (Q × R)) → Z ↔ (P × Q × R)
flat_three h = ((λ z. let (p, (q, r)) = h.0 z in (p, q, r)), λ (p, q, r). h.1 (p, (q, r)))

flat_four : {Z P Q R S : Type 0} → Z ↔ (P × (Q × (R × S))) → Z ↔ (P × Q × R × S)
flat_four h =
    ((λ z. let (p, (q, (r, s))) = h.0 z in (p, q, r, s)), λ (p, q, r, s). h.1 (p, (q, (r, s))))

anchor_issues-nil_iff :
    (e : AnchorRegistryEntry) (o : Option PersistedAnchorRecord)
    → (anchor_issues e o ≡ []) ↔ AnchorAgrees e o
unfolding anchor_issues
anchor_issues-nil_iff e none = ((λ h. cc), λ h. absurd h)
anchor_issues-nil_iff e (some r) = flat_three (
    nil_both _ _ (field_issues-nil_iff _ _ _ _)
      (nil_both _ _ (field_issues-nil_iff _ _ _ _) (field_issues-nil_iff _ _ _ _)))

corridor_issues-nil_iff :
    (e : CorridorRegistryEntry) (o : Option PersistedCorridorRecord)
    → (corridor_issues e o ≡ []) ↔ CorridorAgrees e o
unfolding corridor_issues
corridor_issues-nil_iff e none = ((λ h. cc), λ h. absurd h)
corridor_issues-nil_iff e (some r) = flat_four (
    nil_both _ _ (field_issues-nil_iff _ _ _ _) (
      nil_both _ _ (field_issues-nil_iff _ _ _ _)
        (nil_both _ _ (field_issues-nil_iff _ _ _ _) (field_issues-nil_iff _ _ _ _))))

pub missing_anchors_audit-nil_iff :
    (persisted : List PersistedAnchorRecord) (es : List AnchorRegistryEntry)
    → (missing_anchors_audit persisted es ≡ [])
      ↔ All (λ e. AnchorAgrees e (map_get anchor_record_slug e.slug persisted)) es
unfolding missing_anchors_audit
missing_anchors_audit-nil_iff persisted [] = ((λ h. tt), λ h. refl)
missing_anchors_audit-nil_iff persisted (e ∷ es) =
    nil_both _ _ (anchor_issues-nil_iff e _) (missing_anchors_audit-nil_iff persisted es)

pub unexpected_anchors_audit-nil_iff :
    (registry : List AnchorRegistryEntry) (rs : List PersistedAnchorRecord)
    → (unexpected_anchors_audit registry rs ≡ [])
      ↔ All (λ r. map_has anchor_entry_slug r.slug registry ≡ true) rs
unfolding unexpected_anchors_audit
unexpected_anchors_audit-nil_iff registry [] = ((λ h. tt), λ h. refl)
unexpected_anchors_audit-nil_iff registry (r ∷ rs) =
    ground (arith, unexpected_anchors_audit-nil_iff registry rs)

pub missing_corridors_audit-nil_iff :
    (persisted : List PersistedCorridorRecord) (es : List CorridorRegistryEntry)
    → (missing_corridors_audit persisted es ≡ [])
      ↔ All (λ e. CorridorAgrees e (map_get corridor_record_slug e.slug persisted)) es
unfolding missing_corridors_audit
missing_corridors_audit-nil_iff persisted [] = ((λ h. tt), λ h. refl)
missing_corridors_audit-nil_iff persisted (e ∷ es) =
    nil_both _ _ (corridor_issues-nil_iff e _) (missing_corridors_audit-nil_iff persisted es)

pub unexpected_corridors_audit-nil_iff :
    (registry : List CorridorRegistryEntry) (rs : List PersistedCorridorRecord)
    → (unexpected_corridors_audit registry rs ≡ [])
      ↔ All (λ r. map_has corridor_entry_slug r.slug registry ≡ true) rs
unfolding unexpected_corridors_audit
unexpected_corridors_audit-nil_iff registry [] = ((λ h. tt), λ h. refl)
unexpected_corridors_audit-nil_iff registry (r ∷ rs) =
    ground (arith, unexpected_corridors_audit-nil_iff registry rs)

-- Listed rows leave no orphaned evidence.
pub orphaned_anchor_evidence-nil :
    (registry : List AnchorRegistryEntry) (rs : List PersistedAnchorRecord)
    → All (λ r. map_has anchor_entry_slug r.slug registry ≡ true) rs
    → orphaned_anchor_evidence registry rs ≡ []
unfolding orphaned_anchor_evidence
orphaned_anchor_evidence-nil registry [] h = refl
orphaned_anchor_evidence-nil registry (r ∷ rs) (e, h) =
    rw e (orphaned_anchor_evidence-nil registry rs h)

pub orphaned_corridor_evidence-nil :
    (registry : List CorridorRegistryEntry) (rs : List PersistedCorridorRecord)
    → All (λ r. map_has corridor_entry_slug r.slug registry ≡ true) rs
    → orphaned_corridor_evidence registry rs ≡ []
unfolding orphaned_corridor_evidence
orphaned_corridor_evidence-nil registry [] h = refl
orphaned_corridor_evidence-nil registry (r ∷ rs) (e, h) =
    rw e (orphaned_corridor_evidence-nil registry rs h)
