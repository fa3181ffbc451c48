-- ===== src/Vulns/Fixed.antt =====
-- `GetFixedVersions` of internal/utility/vulns/vulnerability.go. The map is an association list, one
-- entry for a key.
use osv_scanner.Prelude.{
  &&-eq-true, Bool, Bool-cases, List, Option, Option-cases, Text, [], append-nil, append_assoc,
  arith, cut, false, if◌then◌else◌, inl, inr, none, not, refl, some, sym, text_eq, text_eq_iff,
  text_eq_refl, true, ◌&&◌, ◌++◌, ◌↔◌, ◌∙◌, ◌∷◌, ◌≡◌,
}
use osv_scanner.Osv.{Affected, Event, Package, Range, Vulnerability}

pub record PackageKey : Type 0 where
  pub name : Text
  pub ecosystem : Text
  pub purl : Text

unfoldable pub new_package_key : Package → PackageKey
new_package_key p = record { name = p.name; ecosystem = p.ecosystem; purl = p.purl }

unfoldable pub key_eq : PackageKey → PackageKey → Bool
key_eq a b = text_eq a.name b.name && (text_eq a.ecosystem b.ecosystem && text_eq a.purl b.purl)

abbrev pub FixedVersions : Type 0
FixedVersions = List (PackageKey × List Text)

-- `output[key]`, nil for a missing key.
unfoldable pub versions_at : PackageKey → FixedVersions → List Text
unfolding key_eq
versions_at key [] = []
versions_at key ((k, vs) ∷ m) = let rest = versions_at key m in if key_eq k key then vs else rest

-- `output[key] = append(output[key], v)`.
unfoldable pub append_version : PackageKey → Text → FixedVersions → FixedVersions
unfolding key_eq
append_version key v [] = (key, v ∷ []) ∷ []
append_version key v ((k, vs) ∷ m) =
    let rest = append_version key v m in
    if key_eq k key then (k, vs ++ v ∷ []) ∷ m else (k, vs) ∷ rest

-- The key with the ecosystem's part before the first colon, if there is a colon.
unfoldable pub unversioned_key : PackageKey → Option PackageKey
unversioned_key key = elim (cut b':' key.ecosystem) [
  | none ↦ none
  | some (eco, suffix) ↦ some (record key { ecosystem = eco })
]

-- A version appended for a key, and for the unversioned key if there is one.
unfoldable pub append_fixed : PackageKey → Option PackageKey → Text → FixedVersions → FixedVersions
unfolding append_version
append_fixed key none v m = append_version key v m
append_fixed key (some u) v m = append_version u v (append_version key v m)

-- The body of the loop over the events.
unfoldable pub add_event : PackageKey → Event → FixedVersions → FixedVersions
unfolding append_fixed unversioned_key
add_event key e m =
    if not (text_eq e.fixed []) then append_fixed key (unversioned_key key) e.fixed m else m

unfoldable pub add_events : PackageKey → List Event → FixedVersions → FixedVersions
unfolding add_event
add_events key [] m = m
add_events key (e ∷ es) m = add_events key es (add_event key e m)

unfoldable pub add_ranges : PackageKey → List Range → FixedVersions → FixedVersions
unfolding add_events
add_ranges key [] m = m
add_ranges key (r ∷ rs) m = add_ranges key rs (add_events key r.events m)

-- The loop over the affected entries.
unfoldable pub add_affected : List Affected → FixedVersions → FixedVersions
unfolding add_ranges new_package_key
add_affected [] m = m
add_affected (a ∷ as') m = add_affected as' (elim (a.pkg) [
  | none ↦ m
  | some p ↦ add_ranges (record (new_package_key p) { purl = [] }) a.ranges m
])

unfoldable pub get_fixed_versions : Vulnerability → FixedVersions
unfolding add_affected
get_fixed_versions v = add_affected v.affected []

key_eq_iff : (a b : PackageKey) → (key_eq a b ≡ true) ↔ (a ≡ b)
unfolding key_eq
key_eq_iff a b = (
  λ h.
      let (n, h') = &&-eq-true (text_eq a.name b.name) _ h in
      let (e, p) = &&-eq-true (text_eq a.ecosystem b.ecosystem) _ h' in
      let name = (text_eq_iff a.name b.name).0 n in
      let ecosystem = (text_eq_iff a.ecosystem b.ecosystem).0 e in
      let purl = (text_eq_iff a.purl b.purl).0 p in
      λ i. record { name = name i; ecosystem = ecosystem i; purl = purl i },
  λ e. rw e (rw (text_eq_refl b.name, text_eq_refl b.ecosystem, text_eq_refl b.purl) refl),
)

abbrev only_at : PackageKey → PackageKey → Text → List Text
only_at key k v = if key_eq k key then v ∷ [] else []

key_eq-other :
    (k' k key : PackageKey) → key_eq k' k ≡ false → key_eq k' key ≡ true → key_eq k key ≡ false
key_eq-other k' k key h e = elim (Bool-cases (key_eq k key)) [
  | inl same ↦
      let k'≡k = (key_eq_iff k' key).0 e ∙ sym ((key_eq_iff k key).0 same) in
      cc ((key_eq_iff k' k).1 k'≡k, h)
  | inr other ↦ other
]

-- What is appended for one key is seen at that key, and nowhere else.
versions_at-append_version :
    (key k : PackageKey) (v : Text) (m : FixedVersions)
    → versions_at key (append_version k v m) ≡ versions_at key m ++ only_at key k v
unfolding versions_at append_version
versions_at-append_version key k v [] = ground arith
versions_at-append_version key k v ((k', vs) ∷ m) = elim (Bool-cases (key_eq k' k)) [
  | inl same ↦
      let k'≡k = (key_eq_iff k' k).0 same in
      let keys : key_eq k' key ≡ key_eq k key = λ i. key_eq (k'≡k i) key in
      ground (arith, keys, append-nil (versions_at key m))
  | inr other ↦
      ground
        (arith, versions_at-append_version key k v m, key_eq-other k' k key other, append-nil vs)
]

-- What one fix adds for a key: the fix where the package's key is that key, and again where the key
-- without the ecosystem's suffix is.
abbrev pub of_fixed : PackageKey → PackageKey → Option PackageKey → Text → List Text
of_fixed key k none v = only_at key k v
of_fixed key k (some u) v = only_at key k v ++ only_at key u v

abbrev pub of_event : PackageKey → PackageKey → Event → List Text
of_event key k e =
    if not (text_eq e.fixed []) then of_fixed key k (unversioned_key k) e.fixed else []

abbrev pub of_events : PackageKey → PackageKey → List Event → List Text
of_events key k [] = []
of_events key k (e ∷ es) = of_event key k e ++ of_events key k es

abbrev pub of_ranges : PackageKey → PackageKey → List Range → List Text
of_ranges key k [] = []
of_ranges key k (r ∷ rs) = of_events key k r.events ++ of_ranges key k rs

abbrev pub of_affected : PackageKey → List Affected → List Text
of_affected key [] = []
of_affected key (a ∷ as') = elim (a.pkg) [
  | none ↦ of_affected key as'
  | some p ↦
      of_ranges key (record (new_package_key p) { purl = [] }) a.ranges ++ of_affected key as'
]

module _ (key : PackageKey) where
  versions_at-append_fixed :
      (k : PackageKey) (o : Option PackageKey) (v : Text) (m : FixedVersions)
      → versions_at key (append_fixed k o v m) ≡ versions_at key m ++ of_fixed key k o v
  unfolding append_fixed
  versions_at-append_fixed k none v m = versions_at-append_version key k v m
  versions_at-append_fixed k (some u) v m =
      versions_at-append_version key u v (append_version k v m)
      ∙ (λ i. versions_at-append_version key k v m i ++ only_at key u v)
      ∙ append_assoc (versions_at key m) (only_at key k v) (only_at key u v)

  versions_at-add_event :
      (k : PackageKey) (e : Event) (m : FixedVersions)
      → versions_at key (add_event k e m) ≡ versions_at key m ++ of_event key k e
  unfolding add_event
  versions_at-add_event k e m = elim (Bool-cases (text_eq e.fixed [])) [
    | inl h ↦ rw h (sym (append-nil (versions_at key m)))
    | inr h ↦ rw h (versions_at-append_fixed k (unversioned_key k) e.fixed m)
  ]

  versions_at-add_events :
      (k : PackageKey) (es : List Event) (m : FixedVersions)
      → versions_at key (add_events k es m) ≡ versions_at key m ++ of_events key k es
  unfolding add_events
  versions_at-add_events k [] m = sym (append-nil (versions_at key m))
  versions_at-add_events k (e ∷ es) m =
      versions_at-add_events k es (add_event k e m)
      ∙ (λ i. versions_at-add_event k e m i ++ of_events key k es)
      ∙ append_assoc (versions_at key m) (of_event key k e) (of_events key k es)

  versions_at-add_ranges :
      (k : PackageKey) (rs : List Range) (m : FixedVersions)
      → versions_at key (add_ranges k rs m) ≡ versions_at key m ++ of_ranges key k rs
  unfolding add_ranges
  versions_at-add_ranges k [] m = sym (append-nil (versions_at key m))
  versions_at-add_ranges k (r ∷ rs) m =
      versions_at-add_ranges k rs (add_events k r.events m)
      ∙ (λ i. versions_at-add_events k r.events m i ++ of_ranges key k rs)
      ∙ append_assoc (versions_at key m) (of_events key k r.events) (of_ranges key k rs)

  versions_at-add_affected :
      (as' : List Affected) (m : FixedVersions)
      → versions_at key (add_affected as' m) ≡ versions_at key m ++ of_affected key as'
  unfolding add_affected
  versions_at-add_affected [] m = sym (append-nil (versions_at key m))
  versions_at-add_affected (a ∷ as') m = elim (Option-cases (a.pkg)) [
    | inl e ↦ rw e (versions_at-add_affected as' m)
    | inr (p, e) ↦
        let k : PackageKey = record (new_package_key p) { purl = [] } in
        rw e (
          versions_at-add_affected as' (add_ranges k a.ranges m)
          ∙ (λ i. versions_at-add_ranges k a.ranges m i ++ of_affected key as')
          ∙ append_assoc (versions_at key m) (of_ranges key k a.ranges) (of_affected key as'))
  ]

  -- The fixed versions of a key are, in the order of the entries, ranges and events, each fix of an
  -- entry whose package has that name and ecosystem, and each fix of an entry whose ecosystem has
  -- a suffix without which it is the key's; the purl of the package is dropped.
  pub get_fixed_versions_lem :
      (v : Vulnerability) → versions_at key (get_fixed_versions v) ≡ of_affected key v.affected
  unfolding get_fixed_versions versions_at
  get_fixed_versions_lem v = versions_at-add_affected v.affected []
