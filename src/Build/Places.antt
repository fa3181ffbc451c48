-- ===== src/Build/Places.antt =====
-- `groupedBySource` of pkg/osvscanner/vulnerability_result.go: what adding a package, analysing and
-- sorting do to the packages of a source.
use mathlib.Core.Path.{subst}
use osv_scanner.Prelude.{
  append-nil, &&-eq-true, Bool-cases, List, Ordering, [], ap, arith, false, if◌then◌else◌, inl, inr,
  insert_by, length, length-append, ltb, map, refl, sort_by, suc, sym, text_eq, text_eq_iff,
  text_eq_refl, total, total-sort_by, true, ℕ, ◌++◌, ◌↔◌, ◌∙◌, ◌∷◌, ◌≡◌, ◌≤◌,
}
use osv_scanner.Build.Sources.{add_package}
use osv_scanner.Models.{ExploitabilitySignal, PackageSource, PackageVulns, SourceInfo}
use osv_scanner.Ci.{source_eq}

-- The packages of the first entry that has the source, none if there is none.
abbrev pub packages_at : SourceInfo → List PackageSource → List PackageVulns
packages_at src [] = []
packages_at src (s ∷ ss) = if source_eq s.source src then s.packages else packages_at src ss

-- How many entries have the source.
abbrev pub entries_for : SourceInfo → List PackageSource → ℕ
entries_for src ss = total (λ (s : PackageSource). if source_eq s.source src then 1 else 0) ss

-- A source has one entry if it has packages, and none otherwise.
abbrev pub IsOnce : List PackageSource → Type 0
IsOnce ss =
    (src : SourceInfo) → entries_for src ss ≡ (if ltb 0 (length (packages_at src ss)) then 1 else 0)

pub source_eq_iff : (a b : SourceInfo) → (source_eq a b ≡ true) ↔ (a ≡ b)
unfolding source_eq
source_eq_iff a b = (
  λ h.
      let (p, t) = &&-eq-true (text_eq a.path b.path) (text_eq a.type b.type) h in
      let path = (text_eq_iff a.path b.path).0 p in
      let type = (text_eq_iff a.type b.type).0 t in λ i. record { path = path i; type = type i },
  λ e. rw e (rw (text_eq_refl b.path, text_eq_refl b.type) refl),
)

-- What is one source is no other.
apart : (a b c : SourceInfo) → source_eq a b ≡ false → source_eq a c ≡ true → source_eq b c ≡ false
apart a b c h k = elim (Bool-cases (source_eq b c)) [
  | inl e ↦
      let same = (source_eq_iff a c).0 k ∙ sym ((source_eq_iff b c).0 e) in
      ground (arith, (source_eq_iff a b).1 same)
  | inr e ↦ e
]

module _ (src : SourceInfo) (annotations : List ExploitabilitySignal) (pkg : PackageVulns) where
  pub packages_at-add_package :
      (src' : SourceInfo) (ss : List PackageSource)
      → packages_at src' (add_package src annotations pkg ss)
        ≡ packages_at src' ss ++ (if source_eq src src' then pkg ∷ [] else [])
  unfolding add_package
  packages_at-add_package src' [] = ground arith
  packages_at-add_package src' (s ∷ ss) = elim (Bool-cases (source_eq s.source src)) [
    | inl e ↦
        let same = (source_eq_iff s.source src).0 e in
        rw (add_package, e)
          (elim (Bool-cases (source_eq s.source src')) [
            | inl f ↦
                rw (packages_at, f)
                  (let h : source_eq src src' ≡ true =
                      subst (λ (x : SourceInfo). source_eq x src' ≡ true) same f in
                    rw h refl)
            | inr f ↦
                rw (packages_at, f)
                  (let h : source_eq src src' ≡ false =
                      subst (λ (x : SourceInfo). source_eq x src' ≡ false) same f in
                    rw h (sym (append-nil (packages_at src' ss))))
          ])
    | inr e ↦
        rw (add_package, e)
          (elim (Bool-cases (source_eq s.source src')) [
            | inl f ↦
                let h : source_eq src src' ≡ false = apart s.source src src' e f in
                rw (packages_at, f, h) (sym (append-nil s.packages))
            | inr f ↦ rw (packages_at, f) (packages_at-add_package src' ss)
          ])
  ]

  entries_for_some :
      (ss : List PackageSource) → 1 ≤ entries_for src (add_package src annotations pkg ss)
  unfolding add_package
  entries_for_some [] = rw ((source_eq_iff src src).1 refl) (omega arith)
  entries_for_some (s ∷ ss) = ground (arith, entries_for_some ss)

  entries_for_other :
      (src' : SourceInfo) (ss : List PackageSource)
      → source_eq src src' ≡ false
      → entries_for src' (add_package src annotations pkg ss) ≡ entries_for src' ss
  unfolding add_package
  entries_for_other src' [] h = rw h refl
  entries_for_other src' (s ∷ ss) h = ground (arith, entries_for_other src' ss h)

  entries_for_self :
      (ss : List PackageSource)
      → ((src' : SourceInfo) → entries_for src' ss ≤ 1)
      → entries_for src (add_package src annotations pkg ss) ≤ 1
  unfolding add_package
  entries_for_self [] h = ground arith
  entries_for_self (s ∷ ss) h = elim (Bool-cases (source_eq s.source src)) [
    | inl e ↦ ground (arith, h src)
    | inr e ↦ ground (arith, h src, entries_for_self ss (λ src'. omega (arith, h src')))
  ]

  pub IsOnce-add_package :
      (ss : List PackageSource) → IsOnce ss → IsOnce (add_package src annotations pkg ss)
  IsOnce-add_package ss once src' =
      let at = packages_at-add_package src' ss in
      elim (Bool-cases (source_eq src src')) [
        | inl e ↦
            let same = (source_eq_iff src src').0 e in
            let added : packages_at src' (add_package src annotations pkg ss)
                ≡ packages_at src' ss ++ pkg ∷ [] =
              at ∙ rw e refl in
            let n : length (packages_at src' (add_package src annotations pkg ss))
                ≡ suc (length (packages_at src' ss)) =
              ap length added ∙ length-append (packages_at src' ss) (pkg ∷ []) ∙ omega arith in
            let few : entries_for src' (add_package src annotations pkg ss) ≤ 1 =
              subst (λ (x : SourceInfo). entries_for x (add_package src annotations pkg ss) ≤ 1)
                same (entries_for_self ss (λ x. ground (arith, once x))) in
            let many : 1 ≤ entries_for src' (add_package src annotations pkg ss) =
              subst (λ (x : SourceInfo). 1 ≤ entries_for x (add_package src annotations pkg ss))
                same (entries_for_some ss) in
            rw n (ground (arith, few, many))
        | inr e ↦
            let kept : packages_at src' (add_package src annotations pkg ss) ≡ packages_at src' ss =
              at ∙ rw e (append-nil (packages_at src' ss)) in
            rw (entries_for_other src' ss e, kept) (once src')
      ]

-- An order of the entries changes nothing for a source with one entry at most.
module _ (cmp : PackageSource → PackageSource → Ordering) (src : SourceInfo) where
  packages_at-insert_by :
      (x : PackageSource) (ss : List PackageSource)
      → entries_for src (x ∷ ss) ≤ 1
      → packages_at src (insert_by cmp x ss) ≡ packages_at src (x ∷ ss)
  unfolding insert_by
  packages_at-insert_by x [] h = refl
  packages_at-insert_by x (y ∷ ys) h =
      let rest : entries_for src (x ∷ ys) ≤ 1
          → packages_at src (insert_by cmp x ys) ≡ packages_at src (x ∷ ys) =
        packages_at-insert_by x ys in
      elim (Bool-cases (source_eq y.source src)) [
        | inl e ↦ ground arith
        | inr e ↦ ground (arith, rest (ground arith))
      ]

  pub packages_at-sort_by :
      (ss : List PackageSource)
      → entries_for src ss ≤ 1
      → packages_at src (sort_by cmp ss) ≡ packages_at src ss
  unfolding sort_by
  packages_at-sort_by [] h = refl
  packages_at-sort_by (x ∷ xs) h =
      let same =
        total-sort_by (λ (s : PackageSource). if source_eq s.source src then 1 else 0) cmp xs in
      packages_at-insert_by x (sort_by cmp xs) (omega (arith, h, same))
      ∙ rw (packages_at-sort_by xs (omega (arith, h))) refl

module _ (analyse : SourceInfo → List PackageVulns → List PackageVulns) where
  abbrev pub analysed : List PackageSource → List PackageSource
  analysed ss = map (λ (s : PackageSource). record s { packages = analyse s.source s.packages }) ss

  pub entries_for-analysed :
      (src : SourceInfo) (ss : List PackageSource)
      → entries_for src (analysed ss) ≡ entries_for src ss
  entries_for-analysed src [] = refl
  entries_for-analysed src (s ∷ ss) = omega (arith, entries_for-analysed src ss)

  pub packages_at-analysed :
      (src : SourceInfo) (ss : List PackageSource)
      → analyse src [] ≡ []
      → packages_at src (analysed ss) ≡ analyse src (packages_at src ss)
  packages_at-analysed src [] h = sym h
  packages_at-analysed src (s ∷ ss) h = elim (Bool-cases (source_eq s.source src)) [
    | inl e ↦ rw (packages_at, e) (λ i. analyse ((source_eq_iff s.source src).0 e i) s.packages)
    | inr e ↦ rw (packages_at, e) (packages_at-analysed src ss h)
  ]
