-- ===== src/Filter/Packages.antt =====
-- `filterUnscannablePackages`, `filterNonContainerRelevantPackages` and `filterIgnoredPackages` of
-- pkg/osvscanner/filter.go.
use osv_scanner.Prelude.{
  Bool, List, [], all, arith, false, if◌then◌else◌, keep, length, not, refl, true, ◌&&◌, ◌+◌, ◌||◌,
  ◌∷◌, ◌≡◌,
}
use osv_scanner.Config.{Pkg}
use osv_scanner.Filter.Defs.{filter_unscannable_packages, is_scannable, is_skipped}

stays : Pkg → Bool
stays p = not (not (is_scannable p) || is_skipped p)

filter_unscannable_packages_lem :
    (show_all : Bool) (ps : List Pkg)
    → filter_unscannable_packages show_all ps
      ≡ (keep stays ps, if show_all then keep (λ p. not (stays p)) ps else [])
unfolding filter_unscannable_packages stays
filter_unscannable_packages_lem show_all [] = ground arith
filter_unscannable_packages_lem show_all (p ∷ ps) =
    ground (arith, filter_unscannable_packages_lem show_all ps)

-- With --all-packages the packages are split in two without loss: as many stay or are returned as
-- were given, all that stay can be scanned, none that is returned can.
pub filter_unscannable_packages_split :
    (ps : List Pkg)
    → let (kept, filtered) = filter_unscannable_packages true ps in
      (length kept + length filtered ≡ length ps)
      × (all (λ p. is_scannable p && not (is_skipped p)) kept ≡ true)
      × (all (λ p. not (is_scannable p && not (is_skipped p))) filtered ≡ true)
unfolding filter_unscannable_packages
filter_unscannable_packages_split [] = (refl, refl, refl)
filter_unscannable_packages_split (p ∷ ps) = ground (arith, filter_unscannable_packages_split ps)

-- The packages that stay do not depend on --all-packages.
pub filter_unscannable_packages_same :
    (ps : List Pkg)
    → (filter_unscannable_packages false ps).0 ≡ (filter_unscannable_packages true ps).0
filter_unscannable_packages_same ps =
    rw (filter_unscannable_packages_lem false ps, filter_unscannable_packages_lem true ps) refl
