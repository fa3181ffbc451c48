-- ===== src/Vulns/Tests.antt =====
-- An advisory for one package, with versions compared as texts.
use osv_scanner.Prelude.{
  Text, [], any, codes, false, none, refl, some, text_cmp, text_eq, true, ◌∷◌, ◌≡◌,
}
use osv_scanner.Osv.{Event, Range, Vulnerability, git, semver}
use osv_scanner.Config.{Pkg}
use osv_scanner.Vulns.Defs.{
  Semantic, event_less, is_version_range, range_affects_version, range_contains_version, sort_slice,
}
use osv_scanner.Vulns.Ranges.{
  leading, range_affects_version_lem, range_contains_version_lem, stays_open,
}
use osv_scanner.Vulns.Fixed.{
  PackageKey, get_fixed_versions, get_fixed_versions_lem, of_affected, versions_at,
}

abbrev sem : Semantic
sem = record { compare = λ eco a b. text_cmp a b; same_ecosystem = text_eq }

abbrev event : Text → Text → Event
event introduced fixed = record {
  introduced = introduced;
  fixed = fixed;
  last_affected = [];
  limit = [];
}

abbrev range : Range
range = record {
  type = semver;
  repo = [];
  events = event [] (codes "2") ∷ event (codes "1") [] ∷ [];
}

abbrev git_range : Range
git_range = record { type = git; repo = codes "https://github.com/a/b"; events = [] }

abbrev vulnerability : Vulnerability
vulnerability = record {
  id = codes "GHSA-1";
  aliases = [];
  upstream = [];
  related = [];
  summary = [];
  details = [];
  severity = [];
  affected =
      record {
        pkg = some (record { name = codes "a"; ecosystem = codes "Debian:11"; purl = [] });
        ranges = git_range ∷ range ∷ [];
        versions = [];
        ecosystem_specific = none;
      }
      ∷ [];
}

abbrev pkg : Text → Pkg
pkg version = record {
  name = codes "a";
  version = version;
  commit = [];
  ecosystem_base = codes "Debian";
  ecosystem_full = codes "Debian:11";
  ecosystem_empty = false;
  ecosystem_valid = true;
  dep_groups = [];
  location = [];
}

range_contains_version_lem_example :
    range_contains_version sem range (pkg (codes "1"))
    ≡ stays_open sem (pkg (codes "1")) (sort_slice (event_less sem (codes "Debian")) range.events)
unfolding text_eq is_version_range
range_contains_version_lem_example =
    range_contains_version_lem sem (pkg (codes "1")) range refl refl

range_affects_version_lem_example :
    range_affects_version sem (git_range ∷ range ∷ []) (pkg (codes "1"))
    ≡ any
        (λ r. range_contains_version sem r (pkg (codes "1")))
        (leading sem (pkg (codes "1")) (git_range ∷ range ∷ []))
range_affects_version_lem_example =
    range_affects_version_lem sem (pkg (codes "1")) (git_range ∷ range ∷ [])

abbrev key : PackageKey
key = record { name = codes "a"; ecosystem = codes "Debian"; purl = [] }

get_fixed_versions_lem_example :
    versions_at key (get_fixed_versions vulnerability) ≡ of_affected key vulnerability.affected
get_fixed_versions_lem_example = get_fixed_versions_lem key vulnerability
