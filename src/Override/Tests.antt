-- ===== src/Override/Tests.antt =====
-- A second version of a package, and a comparison by length.
use osv_scanner.Prelude.{
  Ordering, Text, [], any, arith, assign, codes, compare, false, flip, if◌then◌else◌, length,
  lookup, refl, text_eq, true, ◌∷◌, ◌≡◌,
}
use osv_scanner.Override.{
  OverrideClient, ResolveVersion, add_version, new_override_client, requirements, versions,
  versions_of,
}
use osv_scanner.Override.Laws.{add_version_lem, in_sequence, is_same}

abbrev compare_lengths : Text → Text → Ordering
compare_lengths a b = compare (length a) (length b)

compare_lengths-flip : (a b : Text) → compare_lengths b a ≡ flip (compare_lengths a b)
compare_lengths-flip a b = ground arith

compare_lengths_refl : (a : Text) → compare_lengths a a ≡ Ordering.eq
compare_lengths_refl a = ground arith

abbrev older : ResolveVersion
older = record { package_key = codes "p"; version_key = codes "p1"; version = codes "1" }

abbrev newer : ResolveVersion
newer = record { package_key = codes "p"; version_key = codes "p10"; version = codes "10" }

abbrev client : OverrideClient
client = add_version compare_lengths older [] new_override_client

abbrev added : OverrideClient
added = add_version compare_lengths newer (codes "p1" ∷ []) client

add_version_lem_example :
    ((vk : Text)
      → requirements length 0 vk added
        ≡ (if text_eq (codes "p10") vk then 1 else requirements length 0 vk client))
    × (in_sequence compare_lengths (versions_of (codes "p") added.pkg_vers) ≡ true)
    × (any (is_same compare_lengths newer) (versions_of (codes "p") added.pkg_vers) ≡ true)
    × ((pk : Text)
        → text_eq (codes "p") pk ≡ false
        → versions length 0 pk added ≡ versions length 0 pk client)
unfolding add_version new_override_client lookup assign text_eq
add_version_lem_example =
    add_version_lem compare_lengths compare_lengths-flip compare_lengths_refl length length 0 client
      newer (codes "p1" ∷ []) refl
