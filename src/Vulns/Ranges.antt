-- ===== src/Vulns/Ranges.antt =====
-- What the loops over events, ranges and affected entries of
-- internal/utility/vulns/vulnerability.go compute.
use osv_scanner.Config.{Pkg}
use osv_scanner.Prelude.{
  &&-eq-true, Bool, Bool-cases, List, Option-cases, Text, [], all, any, arith, codes, false,
  has_prefix, if◌then◌else◌, inl, inr, length, none, not, refl, some, sym, text_eq, true, ◌&&◌,
  ◌++◌, ◌==◌, ◌||◌, ◌∙◌, ◌∷◌, ◌≡◌,
}
use osv_scanner.Osv.{Affected, Event, Range, Vulnerability}
use osv_scanner.Vulns.Defs.{
  Semantic, event_less, insert_down, is_about, is_affected, is_affected_by, is_affected_commit,
  is_affected_version, is_gt, is_lt, is_version_range, normalize_repo, range_affects_version,
  range_contains_version, reverse_onto, run_events, sort_onto, sort_slice, step_event, trim_prefix,
  trim_suffix,
}

abbrev Events : Type 0
Events = List Event

-- An event says one of introduced, fixed and last affected, as the OSV schema asks.
abbrev pub is_single : Event → Bool
is_single e = text_eq e.introduced [] || (text_eq e.fixed [] && text_eq e.last_affected [])

still_open :
    (opens closes none_closes stays : Bool)
    → (opens ≡ true → closes ≡ false)
    → (not closes && none_closes || stays)
      ≡ (not closes && none_closes || (opens && none_closes || stays))
still_open true true n s h = cc (h refl)
still_open true false true s h = refl
still_open true false false s h = refl
still_open false c n s h = refl

module _ (sem : Semantic) (pkg : Pkg) where
  -- The version is at or behind what the event introduces.
  abbrev pub opens : Event → Bool
  opens e =
      not (text_eq e.introduced [])
      && (text_eq e.introduced (codes "0")
          || not (is_lt (sem.compare pkg.ecosystem_base pkg.version e.introduced)))

  -- The version is at or behind the fix, or behind the last affected version.
  abbrev pub closes : Event → Bool
  closes e =
      if not (text_eq e.fixed [])
      then not (is_lt (sem.compare pkg.ecosystem_base pkg.version e.fixed))
      else not (text_eq e.last_affected [])
        && (not (text_eq e.last_affected pkg.version)
            && is_gt (sem.compare pkg.ecosystem_base pkg.version e.last_affected))

  -- Some event opens, and none behind it closes.
  abbrev pub stays_open : Events → Bool
  stays_open [] = false
  stays_open (e ∷ es) = opens e && all (λ e. not (closes e)) es || stays_open es

  step_event-true : (e : Event) → step_event sem pkg e true ≡ not (closes e)
  unfolding step_event
  step_event-true e = ground arith

  step_event-false : (e : Event) → step_event sem pkg e false ≡ opens e
  unfolding step_event
  step_event-false e = ground arith

  opens-closes : (e : Event) → is_single e ≡ true → opens e ≡ true → closes e ≡ false
  opens-closes e h k = ground arith

  -- From either state: still affected if nothing closes, or opened and not closed since.
  run_events_lem :
      (es : Events) (affected : Bool)
      → all is_single es ≡ true
      → run_events sem pkg es affected ≡ (affected && all (λ e. not (closes e)) es || stays_open es)
  unfolding run_events
  run_events_lem [] affected h = ground arith
  run_events_lem (e ∷ es) true h =
      let (now, later) = &&-eq-true (is_single e) (all is_single es) h in
      run_events_lem es (step_event sem pkg e true) later
      ∙ rw (step_event-true e) (
          still_open (opens e) (closes e) (all (λ e. not (closes e)) es) (stays_open es)
            (opens-closes e now))
  run_events_lem (e ∷ es) false h =
      let (now, later) = &&-eq-true (is_single e) (all is_single es) h in
      run_events_lem es (step_event sem pkg e false) later ∙ rw (step_event-false e) refl

  all_single-insert_down :
      (less : Event → Event → Bool) (x : Event) (es : Events)
      → is_single x ≡ true
      → all is_single es ≡ true
      → all is_single (insert_down less x es) ≡ true
  unfolding insert_down
  all_single-insert_down less x [] h k = rw h refl
  all_single-insert_down less x (p ∷ ps) h k =
      let (now, later) = &&-eq-true (is_single p) (all is_single ps) k in
      elim (Bool-cases (less x p)) [
        | inl e ↦ rw (e, now) (all_single-insert_down less x ps h later)
        | inr e ↦ rw (e, h, now) later
      ]

  all_single-sort_onto :
      (less : Event → Event → Bool) (es sorted : Events)
      → all is_single es ≡ true
      → all is_single sorted ≡ true
      → all is_single (sort_onto less es sorted) ≡ true
  unfolding sort_onto
  all_single-sort_onto less [] sorted h k = k
  all_single-sort_onto less (x ∷ xs) sorted h k =
      let (now, later) = &&-eq-true (is_single x) (all is_single xs) h in
      all_single-sort_onto less xs _ later (all_single-insert_down less x sorted now k)

  all_single-reverse_onto :
      (es ys : Events)
      → all is_single es ≡ true
      → all is_single ys ≡ true
      → all is_single (reverse_onto es ys) ≡ true
  unfolding reverse_onto
  all_single-reverse_onto [] ys h k = k
  all_single-reverse_onto (x ∷ xs) ys h k =
      let (now, later) = &&-eq-true (is_single x) (all is_single xs) h in
      all_single-reverse_onto xs (x ∷ ys) later (rw now k)

  contains_of_events :
      (less : Event → Event → Bool) (es : Events)
      → all is_single es ≡ true
      → (if length es == 0 then false else run_events sem pkg (sort_slice less es) false)
        ≡ stays_open (sort_slice less es)
  unfolding sort_slice reverse_onto sort_onto
  contains_of_events less [] h = refl
  contains_of_events less (x ∷ xs) h =
      let es : Events = x ∷ xs in
      let sorted = reverse_onto (sort_onto less es []) [] in
      let single : all is_single sorted ≡ true =
        all_single-reverse_onto _ [] (all_single-sort_onto less es [] h refl) refl in
      let some_event : (length es == 0) ≡ false = ground arith in
      rw some_event (run_events_lem sorted false single)

  -- If each event says one of introduced, fixed and last affected, a range of versions contains the
  -- version exactly when, in the sorted events, one introduces it and none behind that one closes;
  -- a range without events contains none.
  pub range_contains_version_lem :
      (ar : Range)
      → is_version_range ar.type ≡ true
      → all is_single ar.events ≡ true
      → range_contains_version sem ar pkg
        ≡ stays_open (sort_slice (event_less sem pkg.ecosystem_base) ar.events)
  unfolding range_contains_version sort_slice
  range_contains_version_lem ar h k =
      let less = event_less sem pkg.ecosystem_base in rw h (contains_of_events less ar.events k)

  -- The ranges before the first that is not a range of versions.
  abbrev pub leading : List Range → List Range
  leading [] = []
  leading (r ∷ rs) = if is_version_range r.type then r ∷ leading rs else []

  -- A version is affected by ranges exactly if one of them contains it that stands before the first
  -- range of another type: whatever stands behind a GIT range is not looked at.
  pub range_affects_version_lem :
      (rs : List Range)
      → range_affects_version sem rs pkg ≡ any (λ r. range_contains_version sem r pkg) (leading rs)
  unfolding range_affects_version
  range_affects_version_lem [] = refl
  range_affects_version_lem (r ∷ rs) = ground (arith, range_affects_version_lem rs)

  -- The entry is about the package, and lists ranges or versions.
  abbrev pub is_about_with_data : Affected → Bool
  is_about_with_data a = elim (a.pkg) [
    | none ↦ false
    | some p ↦ is_about sem p pkg && not (length a.ranges == 0 && length a.versions == 0)
  ]

  is_affected_by_unversioned :
      (a : Affected)
      → text_eq pkg.version [] ≡ true
      → is_affected_by sem a pkg ≡ is_about_with_data a
  unfolding is_affected_by is_affected_commit is_affected_version
  is_affected_by_unversioned a h = elim (Option-cases (a.pkg)) [
    | inl e ↦ ground arith
    | inr (p, e) ↦ ground arith
  ]

  -- A package without a version is affected exactly if some entry is about it that has ranges or
  -- versions, whatever these are.
  pub is_affected_unversioned :
      (v : Vulnerability)
      → text_eq pkg.version [] ≡ true
      → is_affected sem v pkg ≡ any is_about_with_data v.affected
  unfolding is_affected
  is_affected_unversioned v h = go v.affected
    where
      go :
          (as' : List Affected)
          → any (λ a. is_affected_by sem a pkg) as' ≡ any is_about_with_data as'
      go [] = refl
      go (a ∷ as') = rw (is_affected_by_unversioned a h, go as') refl

-- The prefix "https://" of a repository's address does not matter, if the rest has none.
pub normalize_repo_https :
    (r : Text)
    → has_prefix r (codes "https://") ≡ false
    → normalize_repo (codes "https://" ++ r) ≡ normalize_repo r
unfolding normalize_repo trim_prefix has_prefix
normalize_repo_https r h =
    let trimmed : trim_prefix (codes "https://" ++ r) (codes "https://") ≡ r = refl in
    let untouched : trim_prefix r (codes "https://") ≡ r = rw h refl in
    λ i.
      trim_suffix
        (trim_prefix (trim_prefix ((trimmed ∙ sym untouched) i) (codes "http://")) (codes "git://"))
        (codes ".git")
