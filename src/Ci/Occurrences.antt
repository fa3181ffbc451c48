-- ===== src/Ci/Occurrences.antt =====
-- What `DiffVulnerabilityResultsByOccurrences` of internal/ci/vulnerability_result_diff.go counts.
use osv_scanner.Prelude.{
  Bool, Bool-cases, List, Option, Option-cases, Text, [], ap, arith, false, if◌then◌else◌, inl, inr,
  ltb, none, not, refl, some, sym, text_eq, text_eq_comm, text_eq_iff, ℕ, ◌&&◌, ◌+◌, ◌||◌, ◌∙◌, ◌∷◌,
  ◌≡◌,
}
use osv_scanner.Models.{VulnerabilityResults}
use osv_scanner.Models.Flatten.{VulnerabilityFlattened, flatten}
use osv_scanner.Ci.Defs.{
  Counts, count_issues, delete, diff_vulnerability_results_by_occurrences, find_count, increment,
  issue_id, remove_old, remove_one,
}

-- How often an identifier occurs.
abbrev pub occurrences : Text → List VulnerabilityFlattened → ℕ
occurrences k [] = 0
occurrences k (vf ∷ vfs) = (if text_eq (issue_id vf) k then 1 else 0) + occurrences k vfs

abbrev plus : Option ℕ → ℕ → Option ℕ
plus none n = if ltb 0 n then some n else none
plus (some m) n = some (m + n)

abbrev is_key : Text → Text → ℕ
is_key k k' = if text_eq k' k then 1 else 0

find_count-increment :
    (k k' : Text) (m : Counts) → find_count k (increment k' m) ≡ plus (find_count k m) (is_key k k')
unfolding find_count increment
find_count-increment k k' [] = ground arith
find_count-increment k k' ((k1, n) ∷ m) = elim (Bool-cases (text_eq k1 k')) [
  | inl same ↦
      let k1≡k' = (text_eq_iff k1 k').0 same in
      let keys : text_eq k1 k ≡ text_eq k' k = λ i. text_eq (k1≡k' i) k in ground arith
  | inr other ↦ ground (arith, find_count-increment k k' m, text_eq_iff k1 k, text_eq_iff k' k)
]

plus-plus : (o : Option ℕ) (a b : ℕ) → plus (plus o a) b ≡ plus o (a + b)
plus-plus none a b = ground arith
plus-plus (some m) a b = ap some (omega arith)

plus_zero : (o : Option ℕ) → plus o 0 ≡ o
plus_zero none = refl
plus_zero (some m) = ap some (omega arith)

find_count-count_issues :
    (k : Text) (vfs : List VulnerabilityFlattened) (m : Counts)
    → find_count k (count_issues vfs m) ≡ plus (find_count k m) (occurrences k vfs)
unfolding count_issues
find_count-count_issues k [] m = sym (plus_zero (find_count k m))
find_count-count_issues k (vf ∷ vfs) m =
    find_count-count_issues k vfs (increment (issue_id vf) m)
    ∙ (λ i. plus (find_count-increment k (issue_id vf) m i) (occurrences k vfs))
    ∙ plus-plus (find_count k m) (is_key k (issue_id vf)) (occurrences k vfs)

-- Each key has one entry.
abbrev Unique : Counts → Type 0
Unique [] = Unit
Unique ((k, n) ∷ m) = (find_count k m ≡ none) × Unique m

increment-Unique : (k : Text) (m : Counts) → Unique m → Unique (increment k m)
unfolding increment find_count
increment-Unique k [] u = (refl, tt)
increment-Unique k ((k', n) ∷ m) (fresh, u) = elim (Bool-cases (text_eq k' k)) [
  | inl same ↦ rw same (fresh, u)
  | inr other ↦ rw other (
    find_count-increment k' k m ∙ rw (fresh, text_eq_comm k k', other) refl,
    increment-Unique k m u,
  )
]

count_issues-Unique :
    (vfs : List VulnerabilityFlattened) (m : Counts) → Unique m → Unique (count_issues vfs m)
unfolding count_issues
count_issues-Unique [] m u = u
count_issues-Unique (vf ∷ vfs) m u =
    count_issues-Unique vfs (increment (issue_id vf) m) (increment-Unique (issue_id vf) m u)

find_count-delete :
    (k k' : Text) (m : Counts)
    → find_count k (delete k' m) ≡ (if text_eq k' k then none else find_count k m)
unfolding delete find_count
find_count-delete k k' [] = ground arith
find_count-delete k k' ((k1, n) ∷ m) =
    ground (arith, find_count-delete k k' m, text_eq_iff k1 k, text_eq_iff k1 k', text_eq_iff k' k)

-- Some old entry for the key is at least the number.
abbrev beaten : Text → ℕ → Counts → Bool
beaten k n [] = false
beaten k n ((k', c) ∷ old) = text_eq k' k && not (ltb c n) || beaten k n old

abbrev unless_beaten : Text → Counts → Option ℕ → Option ℕ
unless_beaten k old none = none
unless_beaten k old (some n) = if beaten k n old then none else some n

unless_beaten_nil : (k : Text) (o : Option ℕ) → unless_beaten k [] o ≡ o
unless_beaten_nil k none = refl
unless_beaten_nil k (some n) = refl

unless_beaten_cons :
    (k k' : Text) (c : ℕ) (old : Counts) (o : Option ℕ)
    → unless_beaten k old (unless_beaten k ((k', c) ∷ []) o) ≡ unless_beaten k ((k', c) ∷ old) o
unless_beaten_cons k k' c old none = refl
unless_beaten_cons k k' c old (some n) = ground arith

find_count-remove_one :
    (k k' : Text) (c : ℕ) (m : Counts)
    → find_count k (remove_one k' c m) ≡ unless_beaten k ((k', c) ∷ []) (find_count k m)
unfolding remove_one
find_count-remove_one k k' c m = elim (Bool-cases (text_eq k' k)) [
  | inl same ↦
      let k'≡k = (text_eq_iff k' k).0 same in
      let found : find_count k' m ≡ find_count k m = λ i. find_count (k'≡k i) m in
      elim (Option-cases (find_count k m)) [
        | inl e ↦ ground (arith, found, find_count-delete k k' m)
        | inr (n, e) ↦ ground (arith, found, find_count-delete k k' m)
      ]
  | inr other ↦ elim (Option-cases (find_count k m)) [
    | inl e ↦ ground (arith, find_count-delete k k' m)
    | inr (n, e) ↦ ground (arith, find_count-delete k k' m)
  ]
]

find_count-remove_old :
    (k : Text) (old m : Counts)
    → find_count k (remove_old old m) ≡ unless_beaten k old (find_count k m)
unfolding remove_old
find_count-remove_old k [] m = sym (unless_beaten_nil k (find_count k m))
find_count-remove_old k ((k', c) ∷ old) m =
    find_count-remove_old k old (remove_one k' c m)
    ∙ (λ i. unless_beaten k old (find_count-remove_one k k' c m i))
    ∙ unless_beaten_cons k k' c old (find_count k m)

beaten_absent : (k : Text) (n : ℕ) (old : Counts) → find_count k old ≡ none → beaten k n old ≡ false
unfolding find_count
beaten_absent k n [] h = refl
beaten_absent k n ((k', c) ∷ old) h = ground (arith, beaten_absent k n old)

at_most : ℕ → Option ℕ → Bool
at_most n none = false
at_most n (some c) = not (ltb c n)

beaten-Unique :
    (k : Text) (n : ℕ) (old : Counts) → Unique old → beaten k n old ≡ at_most n (find_count k old)
unfolding find_count at_most
beaten-Unique k n [] u = refl
beaten-Unique k n ((k', c) ∷ old) (fresh, u) = elim (Bool-cases (text_eq k' k)) [
  | inl same ↦
      let k'≡k = (text_eq_iff k' k).0 same in
      let free : find_count k old ≡ none = sym (λ i. find_count (k'≡k i) old) ∙ fresh in
      ground (arith, beaten_absent k n old free)
  | inr other ↦ rw other (beaten-Unique k n old u)
]

-- If both results can be flattened, an identifier is in the difference exactly if it occurs more
-- often in the new result than in the old one, and then with its number of occurrences in the new.
pub diff_vulnerability_results_by_occurrences_lem :
    (old new : VulnerabilityResults) (old_flat new_flat : List VulnerabilityFlattened) (k : Text)
    → flatten old ≡ some old_flat
    → flatten new ≡ some new_flat
    → (m : Counts) × (diff_vulnerability_results_by_occurrences old new ≡ some m)
      × (find_count k m ≡ (
          if ltb (occurrences k old_flat) (occurrences k new_flat)
          then some (occurrences k new_flat)
          else none))
unfolding diff_vulnerability_results_by_occurrences find_count at_most
diff_vulnerability_results_by_occurrences_lem old new old_flat new_flat k h h' =
    let old_counts = count_issues old_flat [] in
    let new_counts = count_issues new_flat [] in
    let old_count : find_count k old_counts ≡ plus none (occurrences k old_flat) =
      find_count-count_issues k old_flat [] in
    let new_count : find_count k new_counts ≡ plus none (occurrences k new_flat) =
      find_count-count_issues k new_flat [] in
    let unique = count_issues-Unique old_flat [] tt in
    (
      remove_old old_counts new_counts,
      rw (diff_vulnerability_results_by_occurrences, h, h') refl,
      find_count-remove_old k old_counts new_counts
          ∙ ground (
            arith,
            old_count,
            new_count,
            beaten-Unique k (occurrences k new_flat) old_counts unique,
          ),
    )
