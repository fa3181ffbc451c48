-- ===== src/Upgrade/Tests.antt =====
-- Concrete upgrade configurations.
use osv_scanner.Upgrade.Defs.{get_level, no_upgrade, parse_spec, parse_upgrade_config, patch}
use osv_scanner.Upgrade.Specs.{
  get_level-parse_upgrade_config, last_for, or_else, or_major, parse_spec-printed,
}
use osv_scanner.Prelude.{List, Text, [], codes, refl, some, text_eq, ◌∷◌, ◌≡◌}

abbrev specs : List Text
specs = codes "minor" ∷ codes "a:patch" ∷ codes "npm:b:none" ∷ codes ":major" ∷ codes "a:none" ∷ []

level_of_a : get_level (codes "a") (parse_upgrade_config specs) ≡ no_upgrade
unfolding get_level parse_upgrade_config text_eq
level_of_a = refl

get_level-parse_upgrade_config_example :
    get_level (codes "npm:b") (parse_upgrade_config specs)
    ≡ or_major (or_else (last_for (codes "npm:b") specs) (last_for [] specs))
get_level-parse_upgrade_config_example = get_level-parse_upgrade_config (codes "npm:b") specs

parse_spec-printed_example :
    (parse_spec (codes "npm:b:patch") ≡ some (codes "npm:b", patch))
    × (parse_spec (codes "patch") ≡ some ([], patch))
parse_spec-printed_example = parse_spec-printed b'n' (codes "pm:b") patch
