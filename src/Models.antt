-- ===== src/Models.antt =====
-- pkg/models/results.go: the results of a scan. Fields that no modelled operation reads or writes
-- (the license summary, the generic findings) are left out; the
-- pointers that are compared carry a number, their address.
pub mod Flatten
pub mod Entries
pub mod Tests
use osv_scanner.Prelude.{Bool, List, Option, Text, [], any, true, ℕ, ◌∷◌}
use osv_scanner.Osv.{Vulnerability}

pub record AnalysisInfo : Type 0 where
  pub called : Bool
  pub unimportant : Bool

-- The map `ExperimentalAnalysis` is an association list with each key once; the nil map is empty.
pub record GroupInfo : Type 0 where
  pub ids : List Text
  pub aliases : List Text
  pub experimental_analysis : List (Text × AnalysisInfo)
  pub max_severity : Text

-- `IsCalled`.
unfoldable pub is_called : GroupInfo → Bool
is_called g = elim (g.experimental_analysis) [
  | [] ↦ true
  | a ∷ as' ↦ any (λ (e : Text × AnalysisInfo). e.1.called) (a ∷ as')
]

-- `IsGroupUnimportant`.
unfoldable pub is_group_unimportant : GroupInfo → Bool
is_group_unimportant g = any (λ (e : Text × AnalysisInfo). e.1.unimportant) g.experimental_analysis

-- `vex.VulnIdentifier` signals: `Justification`, and `MatchesAllVulns`.
pub data Justification : Type 0 where
  vulnerable_code_not_in_execute_path component_not_present other_justification : Justification

pub record ExploitabilitySignal : Type 0 where
  pub justification : Justification
  pub matches_all_vulns : Bool

-- `*extractor.Package`: the pointer, and the field that is read behind it.
pub record Inventory : Type 0 where
  pub address : ℕ
  pub exploitability_signals : List ExploitabilitySignal

-- `*ImageOriginDetails`.
pub record ImageOrigin : Type 0 where
  pub address : ℕ
  pub index : ℕ

pub record PackageInfo : Type 0 where
  pub name : Text
  pub os_package_name : Text
  pub version : Text
  pub ecosystem : Text
  pub commit : Text
  pub deprecated : Bool
  pub image_origin : Option ImageOrigin
  pub inventory : Option Inventory

pub record SourceInfo : Type 0 where
  pub path : Text
  pub type : Text

pub record PackageVulns : Type 0 where
  pub package_info : PackageInfo
  pub dep_groups : List Text
  pub vulnerabilities : List Vulnerability
  pub groups : List GroupInfo
  pub licenses : List Text
  pub license_violations : List Text

pub record PackageSource : Type 0 where
  pub source : SourceInfo
  pub experimental_pes : List ExploitabilitySignal
  pub packages : List PackageVulns

pub record VulnerabilityResults : Type 0 where
  pub results : List PackageSource
