-- ===== src/Upgrade/Specs.antt =====
-- What `ParseUpgradeConfig` of internal/remediation/upgrade/config.go makes of its specifications.
use osv_scanner.Upgrade.Defs.{
  Diff, Level, UpgradeConfig, allows, allows_change, cut_last, find_level, get_level, level_of,
  major, minor, no_upgrade, parse_spec, parse_specs, parse_upgrade_config, patch, set_level,
  with_level,
}
use osv_scanner.Prelude.{
  List, Option, Option-cases, Text, [], any, arith, codes, false, if◌then◌else◌, inl, inr, none,
  refl, some, text_eq, true, ℕ, ◌++◌, ◌==◌, ◌∙◌, ◌∷◌, ◌≡◌, ◌≤◌,
}

-- A level that is further down allows no more.
abbrev pub rank : Level → ℕ
rank major = 0
rank minor = 1
rank patch = 2
rank no_upgrade = 3

abbrev pub level_name : Level → Text
level_name major = codes "major"
level_name minor = codes "minor"
level_name patch = codes "patch"
level_name no_upgrade = codes "none"

-- What a level allows, every level before it in the order major, minor, patch, none allows too.
pub allows_mono :
    (l l' : Level) (d : Diff) → rank l ≤ rank l' → allows l' d ≡ true → allows l d ≡ true
unfolding allows allows_change
allows_mono major l' d h k = ground arith
allows_mono minor major d h k = ground arith
allows_mono minor minor d h k = k
allows_mono minor patch d h k = ground arith
allows_mono minor no_upgrade d h k = ground arith
allows_mono patch major d h k = ground arith
allows_mono patch minor d h k = ground arith
allows_mono patch patch d h k = k
allows_mono patch no_upgrade d h k = ground arith
allows_mono no_upgrade major d h k = ground arith
allows_mono no_upgrade minor d h k = ground arith
allows_mono no_upgrade patch d h k = ground arith
allows_mono no_upgrade no_upgrade d h k = k

-- The level that the last valid specification of the package sets.
abbrev pub last_for : Text → List Text → Option Level
last_for pkg [] = none
last_for pkg (spec ∷ specs) = elim (last_for pkg specs) [
  | some l ↦ some l
  | none ↦ elim (parse_spec spec) [
    | none ↦ none
    | some (p, l) ↦ if text_eq p pkg then some l else none
  ]
]

abbrev pub or_else : Option Level → Option Level → Option Level
or_else (some l) o = some l
or_else none o = o

find_level-parse_specs :
    (pkg : Text) (specs : List Text) (c : UpgradeConfig)
    → find_level pkg (parse_specs specs c) ≡ or_else (last_for pkg specs) (find_level pkg c)
unfolding find_level parse_specs set_level
find_level-parse_specs pkg [] c = refl
find_level-parse_specs pkg (spec ∷ specs) c = elim (Option-cases (parse_spec spec)) [
  | inl e ↦ ground (arith, find_level-parse_specs pkg specs c)
  | inr (q, e) ↦ ground (arith, find_level-parse_specs pkg specs (q ∷ c))
]

abbrev pub or_major : Option Level → Level
or_major (some l) = l
or_major none = major

-- The level of a package is the one that the last valid specification naming it sets; without such
-- a specification, the one that the last valid specification without a package sets; and without
-- that, major.
pub get_level-parse_upgrade_config :
    (pkg : Text) (specs : List Text)
    → get_level pkg (parse_upgrade_config specs)
      ≡ or_major (or_else (last_for pkg specs) (last_for [] specs))
unfolding get_level parse_upgrade_config
get_level-parse_upgrade_config pkg specs =
    ground (arith, find_level-parse_specs pkg specs [], find_level-parse_specs [] specs [])

cut_last-none : (sep : ℕ) (s : Text) → any (λ c. c == sep) s ≡ false → cut_last sep s ≡ none
unfolding cut_last
cut_last-none sep [] h = refl
cut_last-none sep (c ∷ s) h = ground (arith, cut_last-none sep s)

cut_last-append :
    (sep : ℕ) (a b : Text)
    → any (λ c. c == sep) b ≡ false
    → cut_last sep (a ++ sep ∷ b) ≡ some (a, b)
unfolding cut_last
cut_last-append sep [] b h = ground (arith, cut_last-none sep b h)
cut_last-append sep (c ∷ a) b h = rw (cut_last-append sep a b h) refl

parse_spec-named :
    (spec : Text) (c : ℕ) (pkg level_str : Text)
    → cut_last b':' spec ≡ some (c ∷ pkg, level_str)
    → parse_spec spec ≡ with_level (c ∷ pkg) (level_of level_str)
unfolding parse_spec
parse_spec-named spec c pkg level_str e = rw (parse_spec, e) refl

level_of-level_name :
    (l : Level)
    → (level_of (level_name l) ≡ some l)
      × (any (λ c. c == b':') (level_name l) ≡ false)
      × (parse_spec (level_name l) ≡ some ([], l))
unfolding level_of parse_spec text_eq
level_of-level_name major = (refl, refl, refl)
level_of-level_name minor = (refl, refl, refl)
level_of-level_name patch = (refl, refl, refl)
level_of-level_name no_upgrade = (refl, refl, refl)

-- A specification printed from a package that has a name, which may hold colons, and a level is
-- read back as that package and level, and a level alone as the default.
pub parse_spec-printed :
    (c : ℕ) (pkg : Text) (l : Level)
    → (parse_spec ((c ∷ pkg) ++ b':' ∷ level_name l) ≡ some (c ∷ pkg, l))
      × (parse_spec (level_name l) ≡ some ([], l))
unfolding with_level
parse_spec-printed c pkg l =
    let (named, no_colon, alone) = level_of-level_name l in
    let e = cut_last-append b':' (c ∷ pkg) (level_name l) no_colon in
    (parse_spec-named _ c pkg (level_name l) e ∙ (λ i. with_level (c ∷ pkg) (named i)), alone)
