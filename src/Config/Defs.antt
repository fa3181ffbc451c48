-- ===== src/Config/Defs.antt =====
-- A `time.Time` is a number that grows with time, 0 for the zero time; `now` is `time.Now()`. A
-- pointer `*IgnoreEntry`, which copies of a configuration share, is an address, and the flags `Used`
-- are a store beside the configurations: the addresses that are marked.
use osv_scanner.Prelude.{
  Bool, List, Option, Text, [], any, codes, contains, false, find, if◌then◌else◌, keep, length, ltb,
  none, not, some, text_eq, true, ℕ, ◌&&◌, ◌==◌, ◌||◌, ◌∷◌,
}

pub record IgnoreEntry : Type 0 where
  pub id : Text
  pub ignore_until : ℕ
  pub reason : Text
  pub address : ℕ

abbrev pub Marks : Type 0
Marks = List ℕ

pub record PackageOverrideEntry : Type 0 where
  pub name : Text
  pub version : Text
  pub ecosystem : Text
  pub group : Text
  pub ignore : Bool
  pub vulnerability_ignore : Bool
  pub license_override : List Text
  pub license_ignore : Bool
  pub effective_until : ℕ
  pub reason : Text

pub record Config : Type 0 where
  pub ignored_vulns : List IgnoreEntry
  pub package_overrides : List PackageOverrideEntry
  pub go_version_override : Text
  pub load_path : Text

abbrev pub empty_config : Config
empty_config = record {
  ignored_vulns = [];
  package_overrides = [];
  go_version_override = [];
  load_path = [];
}

abbrev pub empty_override : PackageOverrideEntry
empty_override = record {
  name = [];
  version = [];
  ecosystem = [];
  group = [];
  ignore = false;
  vulnerability_ignore = false;
  license_override = [];
  license_ignore = false;
  effective_until = 0;
  reason = [];
}

-- What the methods of `imodels.PackageInfo` answer for a package, with `Ecosystem()` as its base,
-- its text with the suffix, and whether it is empty and valid.
pub record Pkg : Type 0 where
  pub name : Text
  pub version : Text
  pub commit : Text
  pub ecosystem_base : Text
  pub ecosystem_full : Text
  pub ecosystem_empty : Bool
  pub ecosystem_valid : Bool
  pub dep_groups : List Text
  pub location : Text

-- The flag `Used` of an entry.
unfoldable pub is_used : Marks → IgnoreEntry → Bool
is_used marks e = any (λ a. a == e.address) marks

unfoldable pub mark_as_used : IgnoreEntry → Marks → Marks
mark_as_used e marks = e.address ∷ marks

unfoldable pub unused_ignored_vulns : Marks → Config → List IgnoreEntry
unfolding is_used
unused_ignored_vulns marks c = keep (λ e. not (is_used marks e)) c.ignored_vulns

-- `PackageOverrideEntry.matches`, one early return after the other.
unfoldable pub matches : PackageOverrideEntry → Pkg → Bool
matches e pkg =
    if not (text_eq e.name []) && not (text_eq e.name pkg.name)
    then false
    else if not (text_eq e.version []) && not (text_eq e.version pkg.version)
    then false
    else if not (text_eq e.ecosystem [])
        && (not (text_eq e.ecosystem pkg.ecosystem_full)
            && not (text_eq e.ecosystem pkg.ecosystem_base))
    then false
    else if not (text_eq e.group []) && not (contains pkg.dep_groups e.group)
    then false
    else true

unfoldable pub should_ignore_timestamp : ℕ → ℕ → Bool
should_ignore_timestamp now ignore_until = if ignore_until == 0 then true else ltb now ignore_until

-- `ShouldIgnore`. `find` is `slices.IndexFunc` with the element at the index; `none` is the pointer to
-- a new empty entry.
unfoldable pub should_ignore : ℕ → Config → Text → Bool × Option IgnoreEntry
should_ignore now c vuln_id = elim (find (λ e. text_eq e.id vuln_id) c.ignored_vulns) [
  | none ↦ (false, none)
  | some e ↦ (should_ignore_timestamp now e.ignore_until, some e)
]

unfoldable pub filter_package_version_entries :
    ℕ → Config → Pkg → (PackageOverrideEntry → Bool) → Bool × PackageOverrideEntry
filter_package_version_entries now c pkg condition =
    elim (find (λ e. matches e pkg && condition e) c.package_overrides) [
      | none ↦ (false, empty_override)
      | some e ↦ (should_ignore_timestamp now e.effective_until, e)
    ]

unfoldable pub should_ignore_package : ℕ → Config → Pkg → Bool × PackageOverrideEntry
unfolding filter_package_version_entries
should_ignore_package now c pkg = filter_package_version_entries now c pkg (λ e. e.ignore)

unfoldable pub should_ignore_package_vulnerabilities : ℕ → Config → Pkg → Bool
unfolding filter_package_version_entries
should_ignore_package_vulnerabilities now c pkg =
    (filter_package_version_entries now c pkg (λ e. e.vulnerability_ignore)).0

unfoldable pub should_override_package_license : ℕ → Config → Pkg → Bool × PackageOverrideEntry
unfolding filter_package_version_entries
should_override_package_license now c pkg =
    filter_package_version_entries now c pkg
      (λ e. e.license_ignore || ltb 0 (length e.license_override))

-- The file system and the TOML decoder: `stat` tells whether a path is a directory, `decode_file`
-- gives the configuration and the keys that were not decoded.
pub record Files : Type 0 where
  pub stat : Text → Option Bool
  pub dir : Text → Text
  pub join_path : Text → Text → Text
  pub decode_file : Text → Option (Config × List Text)

-- `normalizeConfigLoadPath`; `none` is its error.
unfoldable pub normalize_config_load_path : Files → Text → Option Text
normalize_config_load_path fs target = elim (fs.stat target) [
  | none ↦ none
  | some is_dir ↦
      some (fs.join_path (if not is_dir then fs.dir target else target) (codes "osv-scanner.toml"))
]

-- `tryLoadConfig`; `none` is an error of any kind. The warnings about duplicates are not modelled.
unfoldable pub try_load_config : Files → Text → Option Config
try_load_config fs config_path = elim (fs.decode_file config_path) [
  | none ↦ none
  | some (config, unknown_keys) ↦
      if ltb 0 (length unknown_keys) then none else some (record config { load_path = config_path })
]

-- The map `ConfigMap` is an association list.
pub record Manager : Type 0 where
  pub override_config : Option Config
  pub default_config : Config
  pub config_map : List (Text × Config)

unfoldable pub lookup_config : Text → List (Text × Config) → Option Config
lookup_config path [] = none
lookup_config path ((p, c) ∷ m) = if text_eq p path then some c else lookup_config path m

unfoldable pub use_override : Files → Manager → Text → Option Manager
use_override fs m config_path = elim (try_load_config fs config_path) [
  | none ↦ none
  | some config ↦ some (record m { override_config = some config })
]

-- The configuration that is loaded at a path, or the default one.
unfoldable pub load_or_default : Files → Manager → Text → Config
unfolding try_load_config
load_or_default fs m config_path = elim (try_load_config fs config_path) [
  | none ↦ m.default_config
  | some config ↦ config
]

-- `Get` behind the check for an override.
unfoldable pub get_cached : Files → Manager → Text → Config × Manager
unfolding lookup_config
get_cached fs m target_path = elim (normalize_config_load_path fs target_path) [
  | none ↦ (empty_config, m)
  | some config_path ↦ elim (lookup_config config_path m.config_map) [
    | some config ↦ (config, m)
    | none ↦
        let config = load_or_default fs m config_path in
        (config, record m { config_map = (config_path, config) ∷ m.config_map })
  ]
]

unfoldable pub get : Files → Manager → Text → Config × Manager
unfolding get_cached
get fs m target_path = elim (m.override_config) [
  | some config ↦ (config, m)
  | none ↦ get_cached fs m target_path
]

-- `m[path] = entries` in the result of `GetUnusedIgnoreEntries`.
unfoldable pub assign_unused :
    Text → List IgnoreEntry → List (Text × List IgnoreEntry) → List (Text × List IgnoreEntry)
assign_unused path entries [] = (path, entries) ∷ []
assign_unused path entries ((p, es) ∷ m) =
    if text_eq p path then (p, entries) ∷ m else (p, es) ∷ assign_unused path entries m

-- One configuration of `GetUnusedIgnoreEntries`.
unfoldable pub add_unused :
    Marks → Config → List (Text × List IgnoreEntry) → List (Text × List IgnoreEntry)
unfolding unused_ignored_vulns assign_unused
add_unused marks c m =
    if ltb 0 (length (unused_ignored_vulns marks c))
    then assign_unused c.load_path (unused_ignored_vulns marks c) m
    else m

unfoldable pub add_all_unused :
    Marks → List (Text × Config) → List (Text × List IgnoreEntry) → List (Text × List IgnoreEntry)
unfolding add_unused
add_all_unused marks [] m = m
add_all_unused marks ((p, c) ∷ cs) m = add_all_unused marks cs (add_unused marks c m)

unfoldable pub get_unused_ignore_entries : Marks → Manager → List (Text × List IgnoreEntry)
unfolding add_all_unused
get_unused_ignore_entries marks c =
    let m = add_all_unused marks c.config_map [] in
    elim (c.override_config) [ none ↦ m | some config ↦ add_unused marks config m ]
