-- ===== src/Osv.antt =====
-- The records of the OSV schema (generated bindings, not part of the repository) with the fields
-- that the modelled code reads, and an unset string as the empty text, as the getters return it.
use osv_scanner.Prelude.{List, Option, Text}

-- `Severity_UNSPECIFIED` and its siblings.
pub data SeverityType : Type 0 where
  unspecified cvss_v2 cvss_v3 cvss_v4 ubuntu : SeverityType

pub record Severity : Type 0 where
  pub type : SeverityType
  pub score : Text

pub record Event : Type 0 where
  pub introduced : Text
  pub fixed : Text
  pub last_affected : Text
  pub limit : Text

-- `Range_UNSPECIFIED`, `Range_GIT`, `Range_SEMVER`, `Range_ECOSYSTEM`.
pub data RangeType : Type 0 where
  unspecified git semver ecosystem : RangeType

pub record Range : Type 0 where
  pub type : RangeType
  pub repo : Text
  pub events : List Event

pub record Package : Type 0 where
  pub name : Text
  pub ecosystem : Text
  pub purl : Text

-- `urgency` and `ubuntu_priority` are the two fields of `ecosystem_specific` that are read; `none`
-- is an unset field.
pub record EcosystemSpecific : Type 0 where
  pub urgency : Option Text
  pub ubuntu_priority : Option Text

pub record Affected : Type 0 where
  pub pkg : Option Package
  pub ranges : List Range
  pub versions : List Text
  pub ecosystem_specific : Option EcosystemSpecific

pub record Vulnerability : Type 0 where
  pub id : Text
  pub aliases : List Text
  pub upstream : List Text
  pub related : List Text
  pub summary : Text
  pub details : Text
  pub severity : List Severity
  pub affected : List Affected
