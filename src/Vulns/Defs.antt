-- ===== src/Vulns/Defs.antt =====
-- internal/utility/vulns/vulnerability.go and vulnerabilities.go. Comparing versions (`semantic`)
-- and ecosystems (`osvecosystem`) is third-party code, a parameter; `compare` is the order that
-- `CompareStr` returns in an ecosystem, its error ignored as in the source. The ecosystems
-- and versions are taken as ones `MustParse` accepts: on another one the source panics, and the model
-- answers.
use osv_scanner.Prelude.{
  Bool, List, Ordering, Text, [], any, codes, contains, drop, false, has_prefix, if◌then◌else◌,
  length, none, not, some, text_eq, true, ◌&&◌, ◌==◌, ◌||◌, ◌∷◌,
}
use osv_scanner.Osv.{
  Affected, Event, Package, Range, RangeType, Vulnerability, ecosystem, git, semver,
}
use osv_scanner.Config.{Pkg}

pub record Semantic : Type 0 where
  pub compare : Text → Text → Text → Ordering
  pub same_ecosystem : Text → Text → Bool

unfoldable pub is_lt : Ordering → Bool
is_lt Ordering.lt = true
is_lt _ = false

unfoldable pub is_gt : Ordering → Bool
is_gt Ordering.gt = true
is_gt _ = false

unfoldable pub include : List Vulnerability → Vulnerability → Bool
include vs vulnerability = any (λ (v : Vulnerability). text_eq v.id vulnerability.id) vs

unfoldable pub event_version : Event → Text
event_version e =
    if not (text_eq e.introduced [])
    then e.introduced
    else if not (text_eq e.fixed [])
    then e.fixed
    else if not (text_eq e.limit [])
    then e.limit
    else if not (text_eq e.last_affected [])
    then e.last_affected
    else []

-- The function given to `sort.Slice`.
unfoldable pub event_less : Semantic → Text → Event → Event → Bool
unfolding event_version is_lt
event_less sem eco a b =
    if text_eq a.introduced (codes "0")
    then true
    else if text_eq b.introduced (codes "0")
    then false
    else is_lt (sem.compare eco (event_version a) (event_version b))

-- `sort.Slice` on up to 12 elements is insertion sort: each element moves down past those it is
-- less than. The sorted part is held last element first.
unfoldable pub insert_down : (Event → Event → Bool) → Event → List Event → List Event
insert_down less x [] = x ∷ []
insert_down less x (p ∷ ps) =
    let rest = insert_down less x ps in if less x p then p ∷ rest else x ∷ p ∷ ps

unfoldable pub sort_onto : (Event → Event → Bool) → List Event → List Event → List Event
unfolding insert_down
sort_onto less [] sorted = sorted
sort_onto less (x ∷ xs) sorted = sort_onto less xs (insert_down less x sorted)

unfoldable pub reverse_onto : List Event → List Event → List Event
reverse_onto [] ys = ys
reverse_onto (x ∷ xs) ys = reverse_onto xs (x ∷ ys)

unfoldable pub sort_slice : (Event → Event → Bool) → List Event → List Event
unfolding sort_onto reverse_onto
sort_slice less xs = reverse_onto (sort_onto less xs []) []

-- The body of the loop over the events.
unfoldable pub step_event : Semantic → Pkg → Event → Bool → Bool
unfolding is_lt is_gt
step_event sem pkg e true =
    if not (text_eq e.fixed [])
    then is_lt (sem.compare pkg.ecosystem_base pkg.version e.fixed)
    else if not (text_eq e.last_affected [])
    then text_eq e.last_affected pkg.version
      || not (is_gt (sem.compare pkg.ecosystem_base pkg.version e.last_affected))
    else true
step_event sem pkg e false =
    if not (text_eq e.introduced [])
    then text_eq e.introduced (codes "0")
      || not (is_lt (sem.compare pkg.ecosystem_base pkg.version e.introduced))
    else false

unfoldable pub run_events : Semantic → Pkg → List Event → Bool → Bool
unfolding step_event
run_events sem pkg [] affected = affected
run_events sem pkg (e ∷ es) affected = run_events sem pkg es (step_event sem pkg e affected)

unfoldable pub is_version_range : RangeType → Bool
is_version_range ecosystem = true
is_version_range semver = true
is_version_range _ = false

unfoldable pub range_contains_version : Semantic → Range → Pkg → Bool
unfolding is_version_range run_events sort_slice event_less
range_contains_version sem ar pkg =
    if not (is_version_range ar.type)
    then false
    else if length ar.events == 0
    then false
    else run_events sem pkg (sort_slice (event_less sem pkg.ecosystem_base) ar.events) false

unfoldable pub range_affects_version : Semantic → List Range → Pkg → Bool
unfolding range_contains_version
range_affects_version sem [] pkg = false
range_affects_version sem (r ∷ rs) pkg =
    let rest = range_affects_version sem rs pkg in
    if not (is_version_range r.type)
    then false
    else if range_contains_version sem r pkg
    then true
    else rest

-- `GetName` and `GetEcosystem` of a package that may be nil.
abbrev ecosystem_of : Affected → Text
ecosystem_of a = elim (a.pkg) [ none ↦ [] | some p ↦ p.ecosystem ]

unfoldable pub affects_ecosystem : Semantic → Vulnerability → Text → Bool
affects_ecosystem sem v eco =
    any (λ (a : Affected). sem.same_ecosystem (ecosystem_of a) eco) v.affected

-- `strings.TrimPrefix` and `strings.TrimSuffix`.
unfoldable pub trim_prefix : Text → Text → Text
trim_prefix s prefix = if has_prefix s prefix then drop (length prefix) s else s

unfoldable pub trim_suffix : Text → Text → Text
trim_suffix [] suffix = []
trim_suffix (c ∷ s) suffix =
    let rest = trim_suffix s suffix in if text_eq (c ∷ s) suffix then [] else c ∷ rest

unfoldable pub normalize_repo : Text → Text
unfolding trim_prefix trim_suffix
normalize_repo repo =
    trim_suffix
      (trim_prefix (trim_prefix (trim_prefix repo (codes "https://")) (codes "http://"))
        (codes "git://"))
      (codes ".git")

unfoldable pub is_git : RangeType → Bool
is_git git = true
is_git _ = false

unfoldable pub has_git_range_for_repo : Affected → Text → Bool
unfolding is_git normalize_repo
has_git_range_for_repo a repo =
    any (λ (r : Range). is_git r.type && text_eq (normalize_repo r.repo) (normalize_repo repo))
      a.ranges

-- The first `if` of the loop of `IsAffected`.
unfoldable pub is_affected_commit : Affected → Pkg → Bool
unfolding has_git_range_for_repo
is_affected_commit a pkg =
    pkg.ecosystem_empty
    && (not (text_eq pkg.commit []) && not (text_eq pkg.version []))
    && (has_git_range_for_repo a pkg.name && contains a.versions pkg.version)

-- The second: the entry is about the package.
unfoldable pub is_about : Semantic → Package → Pkg → Bool
is_about sem p pkg = sem.same_ecosystem p.ecosystem pkg.ecosystem_full && text_eq p.name pkg.name

-- What is in the second `if`.
unfoldable pub is_affected_version : Semantic → Affected → Pkg → Bool
unfolding range_affects_version
is_affected_version sem a pkg =
    if length a.ranges == 0 && length a.versions == 0
    then false
    else if contains a.versions pkg.version
    then true
    else if range_affects_version sem a.ranges pkg
    then true
    else text_eq pkg.version []

-- The body of the loop: whether it returns true.
unfoldable pub is_affected_by : Semantic → Affected → Pkg → Bool
unfolding is_affected_commit is_about is_affected_version
is_affected_by sem a pkg = if is_affected_commit a pkg then true else elim (a.pkg) [
  | none ↦ false
  | some p ↦ if is_about sem p pkg then is_affected_version sem a pkg else false
]

unfoldable pub is_affected : Semantic → Vulnerability → Pkg → Bool
unfolding is_affected_by
is_affected sem v pkg = any (λ a. is_affected_by sem a pkg) v.affected
