-- ===== src/Semverlike/Tests.antt =====
-- Runs of internal/utility/semverlike/version-semver-like.go, and its theorems at concrete versions.
use osv_scanner.Prelude.{Ordering, [], codes, has_prefix, refl, true, ◌∷◌, ◌≡◌}
use osv_scanner.Semverlike.Defs.{
  cmp, decimal, digits_value, fetch, parse_semver_like, parse_semver_like_version,
}
use osv_scanner.Semverlike.Parse.{parse_semver_like-printed, printed}

program : Unit {0}
unfolding parse_semver_like_version parse_semver_like cmp fetch digits_value has_prefix decimal
program = tt

parse_runs :
    (parse_semver_like_version (codes "v1.20.3.4-rc") 3 ≡ record {
      leading_v = true;
      components = 1 ∷ 20 ∷ 3 ∷ [];
      build = codes "-rc.4";
      original = codes "v1.20.3.4-rc";
    })
    × (cmp (1 ∷ 2 ∷ []) (1 ∷ 2 ∷ 0 ∷ []) ≡ Ordering.eq)
    × (cmp (1 ∷ 10 ∷ []) (1 ∷ 9 ∷ 7 ∷ []) ≡ Ordering.gt)
unfolding program
parse_runs = (refl, refl, refl)

parse_semver_like-printed_example :
    parse_semver_like (printed true (1 ∷ 20 ∷ []) (codes "-rc1")) ≡ record {
      leading_v = true;
      components = 1 ∷ 20 ∷ [];
      build = codes "-rc1";
      original = printed true (1 ∷ 20 ∷ []) (codes "-rc1");
    }
parse_semver_like-printed_example = parse_semver_like-printed true 1 (20 ∷ []) (codes "-rc1") refl
