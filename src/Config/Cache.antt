-- ===== src/Config/Cache.antt =====
-- The cache of configurations of internal/config/config.go.
use osv_scanner.Prelude.{
  Option-cases, Text, arith, inl, inr, none, some, text_eq_iff, text_eq_refl, ◌≡◌,
}
use osv_scanner.Config.Defs.{
  Config, Files, Manager, get, get_cached, lookup_config, normalize_config_load_path,
  try_load_config, use_override,
}

get_cached_again :
    (fs fs' : Files) (m : Manager) (path : Text)
    → m.override_config ≡ none
    → normalize_config_load_path fs' path ≡ normalize_config_load_path fs path
    → get fs' (get_cached fs m path).1 path ≡ get_cached fs m path
unfolding get
get_cached_again fs fs' m path free same =
    elim (Option-cases (normalize_config_load_path fs path)) [
      | inl e ↦ ground arith
      | inr (p, e) ↦ elim (Option-cases (lookup_config p m.config_map)) [
        | inl l ↦ ground (arith, text_eq_refl p)
        | inr (c, l) ↦ ground arith
      ]
    ]

-- If the path leads to the same configuration file as before, then whatever has become of the files
-- asking again for it gives the same configuration, and leaves the manager as the first call left it:
-- no file is read a second time.
pub get_again :
    (fs fs' : Files) (m : Manager) (path : Text)
    → normalize_config_load_path fs' path ≡ normalize_config_load_path fs path
    → get fs' (get fs m path).1 path ≡ get fs m path
unfolding get
get_again fs fs' m path same = elim (Option-cases m.override_config) [
  | inl free ↦ ground (arith, get_cached_again fs fs' m path free same)
  | inr (c, forced) ↦ ground arith
]

-- Configurations that are cached stay cached as they are, whatever is asked for.
pub get-keeps :
    (fs : Files) (m : Manager) (path p : Text) (c : Config)
    → lookup_config p m.config_map ≡ some c
    → lookup_config p (get fs m path).1.config_map ≡ some c
unfolding get
get-keeps fs m path p c h = elim (Option-cases (normalize_config_load_path fs path)) [
  | inl e ↦ ground arith
  | inr (q, e) ↦ ground (arith, text_eq_iff q p)
]

-- An override is returned for every path, and nothing is loaded.
pub get_overridden :
    (fs : Files) (m m' : Manager) (config_path path : Text)
    → use_override fs m config_path ≡ some m'
    → (c : Config) × (try_load_config fs config_path ≡ some c) × (get fs m' path ≡ (c, m'))
unfolding get use_override
get_overridden fs m m' config_path path h = elim (Option-cases (try_load_config fs config_path)) [
  | inl e ↦ ground arith
  | inr (c, e) ↦ (c, e, ground arith)
]
