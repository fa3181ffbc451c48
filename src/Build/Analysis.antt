-- ===== src/Build/Analysis.antt =====
-- `isUnimportant`, `setUnimportant` and `setUncalled`. `none` is the panic on a nil pointer.
use osv_scanner.Prelude.{
  Bool, List, Option, Text, [], all, any, assign, codes, contains, false, has_prefix, if◌then◌else◌,
  length, lookup, map, none, not, some, text_eq, true, ◌&&◌, ◌==◌, ◌||◌, ◌∷◌,
}
use osv_scanner.Models.{
  AnalysisInfo, ExploitabilitySignal, GroupInfo, Inventory, PackageVulns,
  vulnerable_code_not_in_execute_path,
}
use osv_scanner.Osv.{Affected, Severity, SeverityType, Vulnerability}

-- `severity.GetType() == Severity_Ubuntu || severity.GetType() == Severity_UNSPECIFIED`.
unfoldable pub is_ubuntu_severity : SeverityType → Bool
is_ubuntu_severity SeverityType.ubuntu = true
is_ubuntu_severity SeverityType.unspecified = true
is_ubuntu_severity _ = false

-- The loop over the severities: `some` is a return.
unfoldable pub ubuntu_severity : Text → List Severity → Option Bool
unfolding is_ubuntu_severity
ubuntu_severity id [] = none
ubuntu_severity id (s ∷ ss) =
    let rest = ubuntu_severity id ss in
    if has_prefix id (codes "UBUNTU-CVE-") && is_ubuntu_severity s.type
    then some (text_eq s.score (codes "negligible"))
    else rest

-- A field of `ecosystem_specific` that is there and has the value.
abbrev pub has_value : Option Text → Text → Bool
has_value none v = false
has_value (some u) v = text_eq u v

unfoldable pub is_affected_unimportant : Affected → Bool
is_affected_unimportant a = elim (a.ecosystem_specific) [
  | none ↦ false
  | some es ↦
      has_value es.urgency (codes "unimportant")
      || has_value es.ubuntu_priority (codes "negligible")
]

unfoldable pub is_unimportant : Vulnerability → Bool
unfolding ubuntu_severity is_affected_unimportant
is_unimportant v = elim (ubuntu_severity v.id v.severity) [
  | some answer ↦ answer
  | none ↦ any is_affected_unimportant v.affected
]

-- The inner loop of `setUnimportant`: the first group that has the identifier is marked.
unfoldable pub mark_group : Text → List GroupInfo → List GroupInfo
mark_group id [] = []
mark_group id (g ∷ gs) =
    if contains g.ids id
    then record g {
      experimental_analysis =
          assign id (record { called = true; unimportant = true }) g.experimental_analysis;
    }
      ∷ gs
    else g ∷ mark_group id gs

-- The loop over the vulnerabilities.
unfoldable pub mark_groups : List Vulnerability → List GroupInfo → List GroupInfo
unfolding is_unimportant mark_group
mark_groups [] gs = gs
mark_groups (v ∷ vs) gs = mark_groups vs (if is_unimportant v then mark_group v.id gs else gs)

unfoldable pub set_unimportant : PackageVulns → PackageVulns
unfolding mark_groups
set_unimportant pkg = record pkg { groups = mark_groups pkg.vulnerabilities pkg.groups }

unfoldable pub is_not_executed : ExploitabilitySignal → Bool
is_not_executed e = elim (e.justification) [
  | vulnerable_code_not_in_execute_path ↦ true
  | _ ↦ false
]

-- The flag that the map has for an identifier, false if it has none.
abbrev pub unimportant_at : Text → List (Text × AnalysisInfo) → Bool
unimportant_at id m = elim (lookup id m) [ none ↦ false | some a ↦ a.unimportant ]

-- The loop over the identifiers of a group.
unfoldable pub set_called :
    Bool → List Text → List (Text × AnalysisInfo) → List (Text × AnalysisInfo)
set_called called [] m = m
set_called called (id ∷ ids) m =
    set_called called ids
      (assign id (record { called = called; unimportant = unimportant_at id m }) m)

unfoldable pub set_uncalled_group : Bool → GroupInfo → GroupInfo
unfolding set_called
set_uncalled_group uncalled g = record g {
  experimental_analysis = set_called (not uncalled) g.ids g.experimental_analysis;
}

-- `pv.Package.Inventory` is read for every identifier: with a nil pointer only a package without any
-- is no panic.
unfoldable pub set_uncalled_by : Option Inventory → PackageVulns → Option PackageVulns
unfolding is_not_executed set_uncalled_group
set_uncalled_by none pv =
    if all (λ (g : GroupInfo). length g.ids == 0) pv.groups then some pv else none
set_uncalled_by (some inventory) pv =
    let uncalled = any is_not_executed inventory.exploitability_signals in
    some (record pv { groups = map (set_uncalled_group uncalled) pv.groups })

unfoldable pub set_uncalled : PackageVulns → Option PackageVulns
unfolding set_uncalled_by
set_uncalled pv = set_uncalled_by pv.package_info.inventory pv
