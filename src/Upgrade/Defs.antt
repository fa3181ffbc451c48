-- ===== src/Upgrade/Defs.antt =====
-- A level is one of the four constants; the warnings of `ParseUpgradeConfig` are left out. The map is
-- an association list in which the first entry for a key counts.
use osv_scanner.Prelude.{
  Bool, List, Option, Text, [], codes, false, if◌then◌else◌, none, not, some, text_eq, true, ℕ,
  ◌&&◌, ◌==◌, ◌∷◌,
}

pub data Level : Type 0 where
  major minor patch no_upgrade : Level

-- `semver.Diff` of deps.dev/util/semver.
pub data Diff : Type 0 where
  same other diff_major diff_minor diff_patch diff_prerelease diff_build : Diff

unfoldable pub is_diff_major : Diff → Bool
is_diff_major diff_major = true
is_diff_major _ = false

unfoldable pub is_diff_minor : Diff → Bool
is_diff_minor diff_minor = true
is_diff_minor _ = false

unfoldable pub is_same : Diff → Bool
is_same same = true
is_same _ = false

-- The switch of `Allows` on the level.
unfoldable pub allows_change : Level → Diff → Bool
allows_change major d = true
allows_change minor d = not (is_diff_major d)
allows_change patch d = not (is_diff_major d) && not (is_diff_minor d)
allows_change no_upgrade d = false

unfoldable pub allows : Level → Diff → Bool
unfolding allows_change is_same is_diff_major is_diff_minor
allows level d = if is_same d then true else allows_change level d

abbrev pub UpgradeConfig : Type 0
UpgradeConfig = List (Text × Level)

unfoldable pub find_level : Text → UpgradeConfig → Option Level
find_level pkg [] = none
find_level pkg ((p, l) ∷ c) = let rest = find_level pkg c in if text_eq p pkg then some l else rest

-- `Set` also returns whether the package was set.
unfoldable pub set_level : Text → Level → UpgradeConfig → UpgradeConfig × Bool
unfolding find_level
set_level pkg level c = ((pkg, level) ∷ c, elim (find_level pkg c) [ none ↦ false | some l ↦ true ])

unfoldable pub set_default : Level → UpgradeConfig → UpgradeConfig × Bool
unfolding set_level
set_default level c = set_level [] level c

-- `Get`: the zero value of a level that is not in the map is `Major`.
unfoldable pub get_level : Text → UpgradeConfig → Level
unfolding find_level
get_level pkg c = elim (find_level pkg c) [
  | some l ↦ l
  | none ↦ elim (find_level [] c) [ some l ↦ l | none ↦ major ]
]

-- `strings.LastIndex(s, ":")` and the two slices around it.
unfoldable pub cut_last : ℕ → Text → Option (Text × Text)
cut_last sep [] = none
cut_last sep (c ∷ s) =
    let rest = cut_last sep s in
    elim rest [ some (a, b) ↦ some (c ∷ a, b) | none ↦ if c == sep then some ([], s) else none ]

-- The switch on the level's text.
unfoldable pub level_of : Text → Option Level
level_of s =
    if text_eq s (codes "major")
    then some major
    else if text_eq s (codes "minor")
    then some minor
    else if text_eq s (codes "patch")
    then some patch
    else if text_eq s (codes "none")
    then some no_upgrade
    else none

unfoldable pub with_level : Text → Option Level → Option (Text × Level)
with_level pkg none = none
with_level pkg (some l) = some (pkg, l)

-- What one specification sets, if it is not skipped.
unfoldable pub parse_spec : Text → Option (Text × Level)
unfolding cut_last level_of with_level
parse_spec spec = elim (cut_last b':' spec) [
  | some ([], level_str) ↦ none
  | some (c ∷ pkg, level_str) ↦ with_level (c ∷ pkg) (level_of level_str)
  | none ↦ with_level [] (level_of spec)
]

-- The loop of `ParseUpgradeConfig`.
unfoldable pub parse_specs : List Text → UpgradeConfig → UpgradeConfig
unfolding parse_spec set_level
parse_specs [] c = c
parse_specs (spec ∷ specs) c =
    parse_specs specs
      (elim (parse_spec spec) [ none ↦ c | some (pkg, level) ↦ (set_level pkg level c).0 ])

unfoldable pub parse_upgrade_config : List Text → UpgradeConfig
unfolding parse_specs
parse_upgrade_config specs = parse_specs specs []
