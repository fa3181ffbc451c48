-- ===== src/Override.antt =====
-- internal/resolution/client/override_client.go: the versions that are put in front of a client's.
-- The keys of packages and of versions and the requirements are texts, `compare_versions` is `Compare` of the ecosystem's
-- versions, and the answers of the client behind are functions. `slices.BinarySearchFunc` on a sorted
-- slice finds an equal version, or else the place of the first greater one.
pub mod Laws
mod Tests
use osv_scanner.Prelude.{
  List, Option, Ordering, Text, [], assign, if◌then◌else◌, lookup, none, some, text_eq, ◌∷◌,
}

pub record ResolveVersion : Type 0 where
  pub package_key : Text
  pub version_key : Text
  pub version : Text

pub record OverrideClient : Type 0 where
  pub pkg_vers : List (Text × List ResolveVersion)
  pub ver_deps : List (Text × List Text)

unfoldable pub new_override_client : OverrideClient
new_override_client = record { pkg_vers = []; ver_deps = [] }

unfoldable pub insert_version :
    (Text → Text → Ordering) → ResolveVersion → List ResolveVersion → List ResolveVersion
insert_version compare_versions v [] = v ∷ []
insert_version compare_versions v (w ∷ ws) = elim (compare_versions w.version v.version) [
  | Ordering.lt ↦ w ∷ insert_version compare_versions v ws
  | Ordering.eq ↦ w ∷ ws
  | Ordering.gt ↦ v ∷ w ∷ ws
]

-- `c.pkgVers[k]`, nil if there is none.
abbrev pub versions_of : Text → List (Text × List ResolveVersion) → List ResolveVersion
versions_of k m = elim (lookup k m) [ none ↦ [] | some vs ↦ vs ]

unfoldable pub add_version :
    (Text → Text → Ordering) → ResolveVersion → List Text → OverrideClient → OverrideClient
unfolding insert_version
add_version compare_versions v deps c = record {
  pkg_vers =
      assign v.package_key
        (insert_version compare_versions v (versions_of v.package_key c.pkg_vers)) c.pkg_vers;
  ver_deps = assign v.version_key deps c.ver_deps;
}

-- The loop of `Version`.
unfoldable pub find_version : Text → List ResolveVersion → Option ResolveVersion
find_version vk [] = none
find_version vk (v ∷ vs) = if text_eq v.version_key vk then some v else find_version vk vs

-- `Version`, `Versions` and `Requirements`: `behind` is the answer of the client behind, and `found`
-- makes an answer of what is found.
unfoldable pub version : {A : Type 0} → (ResolveVersion → A) → A → Text → Text → OverrideClient → A
unfolding find_version
version found behind pk vk c = elim (find_version vk (versions_of pk c.pkg_vers)) [
  | none ↦ behind
  | some v ↦ found v
]

unfoldable pub versions : {A : Type 0} → (List ResolveVersion → A) → A → Text → OverrideClient → A
versions found behind pk c = elim (lookup pk c.pkg_vers) [ none ↦ behind | some vs ↦ found vs ]

unfoldable pub requirements : {A : Type 0} → (List Text → A) → A → Text → OverrideClient → A
requirements found behind vk c = elim (lookup vk c.ver_deps) [ none ↦ behind | some ds ↦ found ds ]
