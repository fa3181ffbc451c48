-- ===== src/Config/Tests.antt =====
-- A directory with one configuration file.
use osv_scanner.Prelude.{[], codes, false, none, some, true, ◌++◌, ◌∷◌, ◌≡◌}
use osv_scanner.Config.Defs.{
  normalize_config_load_path, Config, Files, IgnoreEntry, Manager, PackageOverrideEntry, Pkg,
  empty_config, empty_override, get,
}
use osv_scanner.Config.Cache.{get_again}

abbrev line : IgnoreEntry
line = record { id = codes "GHSA-1"; ignore_until = 0; reason = []; address = 1 }

abbrev later : IgnoreEntry
later = record { id = codes "GHSA-1"; ignore_until = 5; reason = []; address = 2 }

abbrev config : Config
config = record empty_config { ignored_vulns = line ∷ [] }

abbrev files : Files
files = record {
  stat = λ p. some true;
  dir = λ p. p;
  join_path = λ d f. d ++ (b'/' ∷ f);
  decode_file = λ p. some (config, []);
}

abbrev manager : Manager
manager = record {
  override_config = none;
  default_config = empty_config;
  config_map = (codes "a/osv-scanner.toml", empty_config) ∷ [];
}

abbrev forced : Manager
forced = record manager { override_config = some (record config { load_path = codes "c.toml" }) }

abbrev pkg : Pkg
pkg = record {
  name = codes "lodash";
  version = codes "1.0.0";
  commit = [];
  ecosystem_base = codes "npm";
  ecosystem_full = codes "npm";
  ecosystem_empty = false;
  ecosystem_valid = true;
  dep_groups = codes "dev" ∷ [];
  location = codes "package-lock.json";
}

abbrev override : PackageOverrideEntry
override = record empty_override { name = codes "lodash"; group = codes "dev" }

-- The same files, of which none can be decoded any more.
abbrev broken : Files
broken = record files { decode_file = λ p. none }

get_again_example :
    get broken (get files manager (codes "b")).1 (codes "b") ≡ get files manager (codes "b")
unfolding normalize_config_load_path
get_again_example =
    get_again files broken manager (codes "b") (λ i. normalize_config_load_path files (codes "b"))
