-- ===== src/Filter/Groups.antt =====
-- `filterPackageVulns` of pkg/osvscanner/filter.go against a description without loops.
use osv_scanner.Osv.{Vulnerability}
use osv_scanner.Prelude.{
  Bool, Bool-cases, List, Option-cases, Text, [], all, all-keep, any, append-nil, append_assoc,
  arith, contains, false, find, if◌then◌else◌, inl, inr, keep, keep_of_all, length, length-keep-le,
  ltb, none, not, refl, some, sym, text_eq, true, ℕ, ◌++◌, ◌∙◌, ◌∷◌, ◌≡◌, ◌≤◌,
}
use osv_scanner.Models.{GroupInfo, PackageVulns}
use osv_scanner.Config.{Config, IgnoreEntry, Marks, should_ignore}
use osv_scanner.Filter.Defs.{
  Progress, filter_group, filter_groups, filter_package_vulns, ignored_line,
}

-- Some alias of the group is to be ignored.
unfoldable pub is_ignored : ℕ → Config → GroupInfo → Bool
is_ignored now c g = any (λ id. (should_ignore now c id).0) g.aliases

-- The aliases of the groups that are ignored.
abbrev pub ignored_ids : ℕ → Config → List GroupInfo → List Text
ignored_ids now c [] = []
ignored_ids now c (g ∷ gs) =
    if is_ignored now c g then g.aliases ++ ignored_ids now c gs else ignored_ids now c gs

abbrev pub kept_groups : ℕ → Config → List GroupInfo → List GroupInfo
kept_groups now c gs = keep (λ g. not (is_ignored now c g)) gs

all_outside :
    (vs : List Vulnerability) → all (λ (v : Vulnerability). not (contains [] v.id)) vs ≡ true
unfolding contains
all_outside [] = refl
all_outside (v ∷ vs) = all_outside vs

keep_if :
    (b : Bool) (xs : List Vulnerability)
    → let ys : List Vulnerability = if b then xs else [] in
      (if b then keep (λ (v : Vulnerability). not (contains [] v.id)) ys else []) ≡ ys
keep_if true xs = keep_of_all _ xs (all_outside xs)
keep_if false xs = refl

module _ (now : ℕ) (c : Config) where
  -- A line is returned with every answer that says "ignore".
  should_ignore-line :
      (id : Text)
      → (should_ignore now c id).0 ≡ true
      → (e : IgnoreEntry) × ((should_ignore now c id).1 ≡ some e)
  unfolding should_ignore
  should_ignore-line id h = elim (Option-cases (find (λ e. text_eq e.id id) c.ignored_vulns)) [
    | inl e ↦ ground arith
    | inr (e, p) ↦ (e, ground arith)
  ]

  ignored_line-none :
      (aliases : List Text)
      → any (λ id. (should_ignore now c id).0) aliases ≡ false
      → ignored_line now c aliases ≡ none
  unfolding ignored_line
  ignored_line-none [] h = refl
  ignored_line-none (id ∷ aliases) h = ground (arith, ignored_line-none aliases)

  ignored_line-some :
      (aliases : List Text)
      → any (λ id. (should_ignore now c id).0) aliases ≡ true
      → (e : IgnoreEntry) × (ignored_line now c aliases ≡ some e)
  unfolding ignored_line
  ignored_line-some [] h = cc
  ignored_line-some (id ∷ aliases) h = elim (Bool-cases (should_ignore now c id).0) [
    | inl e ↦ let (line, p) = should_ignore-line id e in (line, ground arith)
    | inr e ↦ let (line, p) = ignored_line-some aliases (ground arith) in (line, ground arith)
  ]

  filter_group-ignored :
      (g : GroupInfo) (p : Progress)
      → is_ignored now c g ≡ true
      → ((filter_group now c g p).new_groups ≡ p.new_groups)
        × ((filter_group now c g p).ignored_vulns ≡ p.ignored_vulns ++ g.aliases)
  unfolding filter_group is_ignored
  filter_group-ignored g p h = let (line, e) = ignored_line-some g.aliases h in ground arith

  filter_group-kept :
      (g : GroupInfo) (p : Progress)
      → is_ignored now c g ≡ false
      → filter_group now c g p ≡ record p { new_groups = p.new_groups ++ g ∷ [] }
  unfolding filter_group is_ignored
  filter_group-kept g p h = ground (arith, ignored_line-none g.aliases h)

  filter_groups_lem :
      (gs : List GroupInfo) (p : Progress)
      → ((filter_groups now c gs p).new_groups ≡ p.new_groups ++ kept_groups now c gs)
        × ((filter_groups now c gs p).ignored_vulns ≡ p.ignored_vulns ++ ignored_ids now c gs)
  unfolding filter_groups
  filter_groups_lem [] p = (sym (append-nil _), sym (append-nil _))
  filter_groups_lem (g ∷ gs) p = elim (Bool-cases (is_ignored now c g)) [
    | inl h ↦
        let (same, more) = filter_group-ignored g p h in
        let (kept, ignored) = filter_groups_lem gs (filter_group now c g p) in
        ground (arith, append_assoc p.ignored_vulns g.aliases (ignored_ids now c gs))
    | inr h ↦
        let (kept, ignored) = filter_groups_lem gs (filter_group now c g p) in
        ground (
          arith,
          filter_group-kept g p h,
          append_assoc p.new_groups (g ∷ []) (kept_groups now c gs),
        )
  ]

  -- The vulnerabilities that stay: none if no group stays, and otherwise those whose identifier is
  -- no alias of an ignored group.
  abbrev kept_vulns : List GroupInfo → List Vulnerability → List Vulnerability
  kept_vulns gs vs =
      if ltb 0 (length (kept_groups now c gs))
      then keep (λ (v : Vulnerability). not (contains (ignored_ids now c gs) v.id)) vs
      else []

  kept_vulns-le :
      (gs : List GroupInfo) (vs : List Vulnerability) → length (kept_vulns gs vs) ≤ length vs
  kept_vulns-le gs vs =
      ground (
        arith,
        length-keep-le (λ (v : Vulnerability). not (contains (ignored_ids now c gs) v.id)) vs,
      )

  -- What stays of a package: the groups without an alias that the configuration ignores, in order;
  -- if there are such groups, the vulnerabilities, in order, that are no alias of an ignored group;
  -- and everything else as it was.
  pub filter_package_vulns_lem :
      (pv : PackageVulns) (marks : Marks)
      → (filter_package_vulns now c pv marks).0 ≡ record pv {
        groups = kept_groups now c pv.groups;
        vulnerabilities = kept_vulns pv.groups pv.vulnerabilities;
      }
  unfolding filter_package_vulns
  filter_package_vulns_lem pv marks =
      let start : Progress = record { ignored_vulns = []; new_groups = []; marks = marks } in
      let (kept, ignored) = filter_groups_lem pv.groups start in rw (kept, ignored) refl

  ignored_ids-kept : (gs : List GroupInfo) → ignored_ids now c (kept_groups now c gs) ≡ []
  ignored_ids-kept [] = refl
  ignored_ids-kept (g ∷ gs) = ground (arith, ignored_ids-kept gs)

  kept_groups-kept :
      (gs : List GroupInfo) → kept_groups now c (kept_groups now c gs) ≡ kept_groups now c gs
  kept_groups-kept gs = keep_of_all _ (kept_groups now c gs) (all-keep _ gs)

  kept_vulns-kept :
      (gs : List GroupInfo) (vs : List Vulnerability)
      → kept_vulns (kept_groups now c gs) (kept_vulns gs vs) ≡ kept_vulns gs vs
  kept_vulns-kept gs vs =
      rw (kept_groups-kept gs, ignored_ids-kept gs)
        (keep_if (ltb 0 (length (kept_groups now c gs)))
          (keep (λ (v : Vulnerability). not (contains (ignored_ids now c gs) v.id)) vs))

  -- Filtering again with the same configuration at the same time changes nothing more.
  pub filter_package_vulns_again :
      (pv : PackageVulns) (marks marks' : Marks)
      → let once = (filter_package_vulns now c pv marks).0 in
        (filter_package_vulns now c once marks').0 ≡ once
  filter_package_vulns_again pv marks marks' =
      let rest = record pv {
        groups = kept_groups now c pv.groups;
        vulnerabilities = kept_vulns pv.groups pv.vulnerabilities;
      } in
      rw (filter_package_vulns_lem pv marks) (
        filter_package_vulns_lem rest marks' ∙ λ i. record pv {
          groups = kept_groups-kept pv.groups i;
          vulnerabilities = kept_vulns-kept pv.groups pv.vulnerabilities i;
        })

  -- No package has more vulnerabilities after the filter.
  pub filter_package_vulns-le :
      (pv : PackageVulns) (marks : Marks)
      → length (filter_package_vulns now c pv marks).0.vulnerabilities ≤ length pv.vulnerabilities
  filter_package_vulns-le pv marks =
      rw (filter_package_vulns_lem pv marks) (kept_vulns-le pv.groups pv.vulnerabilities)
