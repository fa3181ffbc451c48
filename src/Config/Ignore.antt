-- ===== src/Config/Ignore.antt =====
-- Which vulnerabilities and packages a configuration of internal/config/config.go ignores.
use osv_scanner.Prelude.{
  Bool, List, Text, [], any, arith, contains, false, find, none, refl, text_eq, text_eq_iff, true,
  ℕ, ◌++◌, ◌↔◌, ◌∷◌, ◌≡◌, ◌⊎◌,
}
use osv_scanner.Config.Defs.{Config, IgnoreEntry, PackageOverrideEntry, Pkg, matches, should_ignore}

find-append :
    {A : Type 0} (p : A → Bool) (xs ys : List A) → any p xs ≡ true → find p (xs ++ ys) ≡ find p xs
find-append p [] ys h = cc
find-append p (x ∷ xs) ys h = ground (arith, find-append p xs ys)

find-none : {A : Type 0} (p : A → Bool) (xs : List A) → any p xs ≡ false → find p xs ≡ none
find-none p [] h = refl
find-none p (x ∷ xs) h = ground (arith, find-none p xs)

-- Only the first line for an identifier counts: lines that are added behind a line for it, even for
-- the same identifier, change no answer.
pub should_ignore-append :
    (now : ℕ) (c : Config) (more : List IgnoreEntry) (vuln_id : Text)
    → any (λ e. text_eq e.id vuln_id) c.ignored_vulns ≡ true
    → should_ignore now (record c { ignored_vulns = c.ignored_vulns ++ more }) vuln_id
      ≡ should_ignore now c vuln_id
unfolding should_ignore
should_ignore-append now c more vuln_id h =
    ground (arith, find-append (λ e. text_eq e.id vuln_id) c.ignored_vulns more h)

-- A package is matched exactly if each of the four filters is empty or agrees with it: the name, the
-- version, the ecosystem with or without its suffix, and one of the dependency groups.
pub matches_iff :
    (e : PackageOverrideEntry) (pkg : Pkg)
    → (matches e pkg ≡ true)
      ↔ ((e.name ≡ []) ⊎ (e.name ≡ pkg.name))
        × ((e.version ≡ []) ⊎ (e.version ≡ pkg.version))
        × ((e.ecosystem ≡ [])
            ⊎ (e.ecosystem ≡ pkg.ecosystem_full)
            ⊎ (e.ecosystem ≡ pkg.ecosystem_base))
        × ((e.group ≡ []) ⊎ (contains pkg.dep_groups e.group ≡ true))
unfolding matches
matches_iff e pkg = ground (
  arith,
  text_eq_iff e.name [],
  text_eq_iff e.name pkg.name,
  text_eq_iff e.version [],
  text_eq_iff e.version pkg.version,
  text_eq_iff e.ecosystem [],
  text_eq_iff e.ecosystem pkg.ecosystem_full,
  text_eq_iff e.ecosystem pkg.ecosystem_base,
  text_eq_iff e.group [],
)
