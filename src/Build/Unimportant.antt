-- ===== src/Build/Unimportant.antt =====
-- What `isUnimportant` and `setUnimportant` of pkg/osvscanner/vulnerability_result.go mark.
use mathlib.Core.Path.{subst}
use osv_scanner.Osv.{Affected, Severity, SeverityType, Vulnerability}
use osv_scanner.Prelude.{
  Bool, Bool-cases, List, Option, Text, [], any, ap, arith, codes, contains, false, find,
  has_prefix, if◌then◌else◌, inl, inr, lookup, lookup-assign, none, not, refl, some, text_eq,
  text_eq_iff, true, ◌&&◌, ◌||◌, ◌∙◌, ◌∷◌, ◌≡◌,
}
use osv_scanner.Build.Analysis.{
  is_affected_unimportant, is_ubuntu_severity, is_unimportant, mark_group, mark_groups,
  set_unimportant, ubuntu_severity,
}
use osv_scanner.Models.{AnalysisInfo, GroupInfo, PackageVulns}

abbrev says : Option Text → Text → Bool
says none t = false
says (some u) t = text_eq u t

abbrev is_own : Severity → Bool
is_own s = elim (s.type) [
  | SeverityType.ubuntu ↦ true
  | SeverityType.unspecified ↦ true
  | _ ↦ false
]

-- The first severity of an Ubuntu advisory that is Ubuntu's, or of no type.
abbrev pub own_severity : Vulnerability → Option Severity
own_severity v = if has_prefix v.id (codes "UBUNTU-CVE-") then find is_own v.severity else none

-- If there is such a severity, it is negligible; else some entry is unimportant to Debian or of
-- negligible priority to Ubuntu.
abbrev pub judged : Vulnerability → Bool
judged v = elim (own_severity v) [
  | some s ↦ text_eq s.score (codes "negligible")
  | none ↦
      any
        (λ (a : Affected). elim (a.ecosystem_specific) [
          | none ↦ false
          | some es ↦
              says es.urgency (codes "unimportant") || says es.ubuntu_priority (codes "negligible")
        ])
        v.affected
]

ubuntu_severity-none :
    (id : Text) (ss : List Severity)
    → has_prefix id (codes "UBUNTU-CVE-") ≡ false
    → ubuntu_severity id ss ≡ none
unfolding ubuntu_severity
ubuntu_severity-none id [] h = refl
ubuntu_severity-none id (s ∷ ss) h = rw (ubuntu_severity, h) (ubuntu_severity-none id ss h)

-- The answer of a severity.
abbrev answer_of : Option Severity → Option Bool
answer_of none = none
answer_of (some s) = some (text_eq s.score (codes "negligible"))

ubuntu_severity-find :
    (id : Text) (ss : List Severity)
    → has_prefix id (codes "UBUNTU-CVE-") ≡ true
    → ubuntu_severity id ss ≡ answer_of (find is_own ss)
unfolding ubuntu_severity is_ubuntu_severity
ubuntu_severity-find id [] h = refl
ubuntu_severity-find id (s ∷ ss) h = go (ubuntu_severity-find id ss h) s.type refl
  where
    go :
        ubuntu_severity id ss ≡ answer_of (find is_own ss)
        → (t : SeverityType) → s.type ≡ t
        → ubuntu_severity id (s ∷ ss) ≡ answer_of (find is_own (s ∷ ss))
    go rest SeverityType.unspecified e = rw (ubuntu_severity, find, h, e) refl
    go rest SeverityType.cvss_v2 e = rw (ubuntu_severity, find, h, e) rest
    go rest SeverityType.cvss_v3 e = rw (ubuntu_severity, find, h, e) rest
    go rest SeverityType.cvss_v4 e = rw (ubuntu_severity, find, h, e) rest
    go rest SeverityType.ubuntu e = rw (ubuntu_severity, find, h, e) refl

-- What is answered in the end.
abbrev final : Bool → Option Bool → Bool
final otherwise none = otherwise
final otherwise (some b) = b

is_unimportant-judged : (v : Vulnerability) → is_unimportant v ≡ judged v
unfolding is_unimportant is_affected_unimportant has_prefix
is_unimportant-judged v = elim (Bool-cases (has_prefix v.id (codes "UBUNTU-CVE-"))) [
  | inl e ↦
      ap (final (any is_affected_unimportant v.affected)) (ubuntu_severity-find v.id v.severity e)
      ∙ rw e (by_severity (find _ v.severity))
  | inr e ↦
      ap (final (any is_affected_unimportant v.affected)) (ubuntu_severity-none v.id v.severity e)
      ∙ rw e refl
]
  where
    by_severity :
        (o : Option Severity)
        → final (any is_affected_unimportant v.affected) (answer_of o) ≡ (elim o [
          | some s ↦ text_eq s.score (codes "negligible")
          | none ↦ any is_affected_unimportant v.affected
        ])
    by_severity none = refl
    by_severity (some s) = refl

abbrev pub mark : AnalysisInfo
mark = record { called = true; unimportant = true }

abbrev pub is_in : List (List Text) → Text → Bool
is_in idss id = any (λ ids. contains ids id) idss

-- How a group becomes another behind groups with the identifiers `earlier`: an identifier that no
-- earlier group has, and that is an unimportant vulnerability's, gets the mark; other analyses stay.
pub record Marked (vs : List Vulnerability) (earlier : List (List Text)) (g g' : GroupInfo)
    : Type 0 where
  pub ids : g'.ids ≡ g.ids
  pub aliases : g'.aliases ≡ g.aliases
  pub max_severity : g'.max_severity ≡ g.max_severity
  pub analysis :
      (id : Text)
      → lookup id g'.experimental_analysis ≡ (
          if contains g.ids id
            && (not (is_in earlier id)
                && any (λ (v : Vulnerability). text_eq v.id id && judged v) vs)
          then some mark
          else lookup id g.experimental_analysis)

-- The groups, one by one.
abbrev pub AllMarked :
    List Vulnerability → List (List Text) → List GroupInfo → List GroupInfo → Type 0
AllMarked vs earlier [] [] = Unit
AllMarked vs earlier [] (g' ∷ gs') = ⊥
AllMarked vs earlier (g ∷ gs) [] = ⊥
AllMarked vs earlier (g ∷ gs) (g' ∷ gs') =
    Marked vs earlier g g' × AllMarked vs (g.ids ∷ earlier) gs gs'

AllMarked-nil : (earlier : List (List Text)) (gs : List GroupInfo) → AllMarked [] earlier gs gs
AllMarked-nil earlier [] = tt
AllMarked-nil earlier (g ∷ gs) = (
  record { ids = refl; aliases = refl; max_severity = refl; analysis = λ id. ground arith },
  AllMarked-nil (g.ids ∷ earlier) gs,
)

-- A vulnerability that is not unimportant, or that an earlier group has, changes nothing.
AllMarked-same :
    (v : Vulnerability) (earlier : List (List Text)) (gs : List GroupInfo)
    → (not (is_in earlier v.id) && judged v) ≡ false
    → AllMarked (v ∷ []) earlier gs gs
AllMarked-same v earlier [] h = tt
AllMarked-same v earlier (g ∷ gs) h = (
  record {
    ids = refl;
    aliases = refl;
    max_severity = refl;
    analysis = λ id. elim (Bool-cases (text_eq v.id id)) [
      | inl e ↦
          let here =
            subst (λ i. (not (is_in earlier i) && judged v) ≡ false) ((text_eq_iff v.id id).0 e)
              h in
          ground arith
      | inr e ↦ ground arith
    ];
  },
  AllMarked-same v (g.ids ∷ earlier) gs (ground arith),
)

AllMarked-mark_group :
    (v : Vulnerability) (earlier : List (List Text)) (gs : List GroupInfo)
    → judged v ≡ true
    → is_in earlier v.id ≡ false
    → AllMarked (v ∷ []) earlier gs (mark_group v.id gs)
unfolding mark_group
AllMarked-mark_group v earlier [] h k = tt
AllMarked-mark_group v earlier (g ∷ gs) h k = elim (Bool-cases (contains g.ids v.id)) [
  | inl e ↦
      rw (mark_group, e)
        (
          record {
            ids = refl;
            aliases = refl;
            max_severity = refl;
            analysis = λ id.
                lookup-assign v.id id mark g.experimental_analysis
                ∙ (elim (Bool-cases (text_eq v.id id)) [
                  | inl f ↦
                      let same = (text_eq_iff v.id id).0 f in
                      let has = subst (λ i. contains g.ids i ≡ true) same e in
                      let first = subst (λ i. is_in earlier i ≡ false) same k in
                      rw f (rw (has, first, h) refl)
                  | inr f ↦ rw f (ground arith)
                ]);
          },
          AllMarked-same v (g.ids ∷ earlier) gs (ground arith),
        )
  | inr e ↦
      rw (mark_group, e)
        (
          record {
            ids = refl;
            aliases = refl;
            max_severity = refl;
            analysis = λ id. elim (Bool-cases (text_eq v.id id)) [
              | inl f ↦
                  let has = subst (λ i. contains g.ids i ≡ false) ((text_eq_iff v.id id).0 f) e in
                  rw has refl
              | inr f ↦ ground arith
            ];
          },
          AllMarked-mark_group v (g.ids ∷ earlier) gs h (ground arith),
        )
]

AllMarked-cons :
    (v : Vulnerability) (vs : List Vulnerability) (earlier : List (List Text))
    (gs gs1 gs' : List GroupInfo)
    → AllMarked (v ∷ []) earlier gs gs1
    → AllMarked vs earlier gs1 gs'
    → AllMarked (v ∷ vs) earlier gs gs'
AllMarked-cons v vs earlier [] [] [] a b = tt
AllMarked-cons v vs earlier [] [] (g' ∷ gs') a b = b
AllMarked-cons v vs earlier [] (g1 ∷ gs1) gs' a b = absurd a
AllMarked-cons v vs earlier (g ∷ gs) [] gs' a b = absurd a
AllMarked-cons v vs earlier (g ∷ gs) (g1 ∷ gs1) [] a b = b
AllMarked-cons v vs earlier (g ∷ gs) (g1 ∷ gs1) (g' ∷ gs') (a, as') (b, bs) = (
  record {
    ids = b.ids ∙ a.ids;
    aliases = b.aliases ∙ a.aliases;
    max_severity = b.max_severity ∙ a.max_severity;
    analysis = λ id.
        let has : contains g1.ids id ≡ contains g.ids id = ap (λ ids. contains ids id) a.ids in
        ground (arith, a.analysis id, b.analysis id);
  },
  AllMarked-cons v vs (g.ids ∷ earlier) gs gs1 gs' as'
      (subst (λ ids. AllMarked vs (ids ∷ earlier) gs1 gs') a.ids bs),
)

AllMarked-mark_groups :
    (vs : List Vulnerability) (gs : List GroupInfo) → AllMarked vs [] gs (mark_groups vs gs)
unfolding mark_groups
AllMarked-mark_groups [] gs = AllMarked-nil [] gs
AllMarked-mark_groups (v ∷ vs) gs =
    let gs1 = if is_unimportant v then mark_group v.id gs else gs in
    AllMarked-cons v vs [] gs gs1 (mark_groups vs gs1)
      (elim (Bool-cases (judged v)) [
        | inl e ↦ rw (is_unimportant-judged v ∙ e) (AllMarked-mark_group v [] gs e refl)
        | inr e ↦ rw (is_unimportant-judged v ∙ e) (AllMarked-same v [] gs (ground arith))
      ])
      (AllMarked-mark_groups vs gs1)

-- After `setUnimportant`, an identifier's analysis is the mark that it is called and unimportant in
-- the first group that has it, if it is that of an unimportant vulnerability of the package, and is
-- what it was in all other cases and groups. Unimportant is, by its own severity, an Ubuntu advisory
-- whose first severity of Ubuntu's or of no type is negligible, and without such a severity what some
-- affected entry calls unimportant or of negligible priority. Nothing else of the package changes.
pub set_unimportant_lem :
    (pkg : PackageVulns)
    → AllMarked pkg.vulnerabilities [] pkg.groups (set_unimportant pkg).groups
      × (pkg ≡ record (set_unimportant pkg) { groups = pkg.groups })
unfolding set_unimportant
set_unimportant_lem pkg = (AllMarked-mark_groups pkg.vulnerabilities pkg.groups, refl)
