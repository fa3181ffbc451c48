-- ===== src/Exclude/Laws.antt =====
-- What `parseExcludePatterns` of pkg/osvscanner/exclude.go accepts, and where each pattern goes.
use osv_scanner.Prelude.{
  &&-eq-true, Bool, Bool-cases, CutOf, List, Option, Text, [], all, any, append-nil, append_assoc,
  arith, codes, cut, cut-CutOf, false, if◌then◌else◌, inl, inr, map, none, refl, some, text_eq,
  text_eq_iff, true, ◌++◌, ◌==◌, ◌||◌, ◌∙◌, ◌∷◌, ◌≡◌, ◌⊎◌,
}
use osv_scanner.Exclude.Defs.{
  Sorted, add_pattern, combined, compile_all, err, invalid_glob, invalid_regex, ok,
  parse_exclude_arg, parse_exclude_patterns, sort_patterns, unknown_pattern_type,
}

abbrev pub contains_colon : Text → Bool
contains_colon s = any (λ c. c == b':') s

-- The patterns of one type, in the order of the arguments.
abbrev pub of_type : Text → List (Text × Text) → List Text
of_type t [] = []
of_type t ((pattern_type, pattern') ∷ ps) =
    if text_eq pattern_type t then pattern' ∷ of_type t ps else of_type t ps

abbrev pub is_known : Text → Bool
is_known t = text_eq t [] || (text_eq t (codes "g") || text_eq t (codes "r"))

abbrev only : Text → Text → Text → List Text
only t k x = if text_eq t k then x ∷ [] else []

of_type-cons :
    (k t x : Text) (ps : List (Text × Text)) → of_type k ((t, x) ∷ ps) ≡ only t k x ++ of_type k ps
of_type-cons k t x ps = elim (Bool-cases (text_eq t k)) [ inl h ↦ rw h | inr h ↦ rw h ]

add_pattern-ok :
    (p t x : Text) (s : Sorted)
    → is_known t ≡ true
    → add_pattern p t x s
      ≡ ok (record {
        dirs_to_skip = s.dirs_to_skip ++ only t [] x;
        glob_patterns = s.glob_patterns ++ only t (codes "g") x;
        regex_patterns = s.regex_patterns ++ only t (codes "r") x;
      })
unfolding add_pattern
add_pattern-ok p t x s h = ground (
  arith,
  text_eq_iff t [],
  text_eq_iff t (codes "g"),
  text_eq_iff t (codes "r"),
  append-nil s.dirs_to_skip,
  append-nil s.glob_patterns,
  append-nil s.regex_patterns,
)

add_pattern-err :
    (p t x : Text) (s : Sorted)
    → is_known t ≡ false
    → add_pattern p t x s ≡ err (unknown_pattern_type t p)
unfolding add_pattern
add_pattern-err p t x s h = ground arith

module _ (parse_arg : Text → Text × Text) where
  abbrev pub all_known : List Text → Bool
  all_known ps = all (λ p. is_known (parse_arg p).0) ps

  abbrev pub parsed : List Text → List (Text × Text)
  parsed ps = map parse_arg ps

  -- If every pattern has one of the three types, the loop ends with each list behind what it held:
  -- the patterns of its type in order.
  sort_patterns-ok :
      (ps : List Text) (s : Sorted)
      → all_known ps ≡ true
      → sort_patterns parse_arg ps s
        ≡ ok (record {
          dirs_to_skip = s.dirs_to_skip ++ of_type [] (parsed ps);
          glob_patterns = s.glob_patterns ++ of_type (codes "g") (parsed ps);
          regex_patterns = s.regex_patterns ++ of_type (codes "r") (parsed ps);
        })
  unfolding sort_patterns
  sort_patterns-ok [] s h = simp append-nil
  sort_patterns-ok (p ∷ ps) s h =
      let t = (parse_arg p).0 in
      let x = (parse_arg p).1 in
      let (now, later) = &&-eq-true (is_known t) (all_known ps) h in
      rw (add_pattern-ok p t x s now) (
        sort_patterns-ok ps _ later
        ∙ cc (
          of_type-cons [] t x (parsed ps),
          of_type-cons (codes "g") t x (parsed ps),
          of_type-cons (codes "r") t x (parsed ps),
          append_assoc s.dirs_to_skip (only t [] x) (of_type [] (parsed ps)),
          append_assoc s.glob_patterns (only t (codes "g") x) (of_type (codes "g") (parsed ps)),
          append_assoc s.regex_patterns (only t (codes "r") x) (of_type (codes "r") (parsed ps)),
        ))

  -- Otherwise it fails with the first pattern of another type.
  sort_patterns-err :
      (ps : List Text) (s : Sorted)
      → all_known ps ≡ false
      → (p : Text) × (sort_patterns parse_arg ps s ≡ err (unknown_pattern_type (parse_arg p).0 p))
        × (is_known (parse_arg p).0 ≡ false)
  unfolding sort_patterns
  sort_patterns-err [] s h = cc
  sort_patterns-err (p ∷ ps) s h = elim (Bool-cases (is_known (parse_arg p).0)) [
    | inl known ↦
        rw (add_pattern-ok p (parse_arg p).0 (parse_arg p).1 s known)
          (sort_patterns-err ps _ (ground arith))
    | inr other ↦ (p, rw (add_pattern-err p (parse_arg p).0 (parse_arg p).1 s other) refl, other)
  ]

module _ {Glob Regexp : Type 0} (parse_arg : Text → Text × Text) (compile_glob : Text → Option Glob)
    (compile_regex : Text → Option Regexp) where
  -- If some pattern has a type other than the empty one, "g" and "r", all are refused, and the error
  -- names such a pattern and its type.
  pub parse_exclude_patterns_unknown :
      (ps : List Text)
      → all (λ p. is_known (parse_arg p).0) ps ≡ false
      → (p : Text) × (parse_exclude_patterns parse_arg compile_glob compile_regex ps
          ≡ err (unknown_pattern_type (parse_arg p).0 p))
        × (is_known (parse_arg p).0 ≡ false)
  unfolding parse_exclude_patterns
  parse_exclude_patterns_unknown ps h =
      let start : Sorted = record { dirs_to_skip = []; glob_patterns = []; regex_patterns = [] } in
      let (p, e, other) = sort_patterns-err parse_arg ps start h in (p, rw e refl, other)

  -- If all types are known and the combined patterns compile, the result skips the directories
  -- without a type, in order, and holds the compiled combination of the globs and of the regular
  -- expressions, or none where there are none.
  pub parse_exclude_patterns-ok :
      (ps : List Text) (g : Option Glob) (r : Option Regexp)
      → let globs = of_type (codes "g") (map parse_arg ps) in
        let regexes = of_type (codes "r") (map parse_arg ps) in
        all (λ p. is_known (parse_arg p).0) ps ≡ true
        → compile_all compile_glob invalid_glob
            (combined (codes "{") (codes ",") (codes "}") globs)
            globs
          ≡ ok g
        → compile_all compile_regex invalid_regex
            (combined (codes "(") (codes "|") (codes ")") regexes)
            regexes
          ≡ ok r
        → parse_exclude_patterns parse_arg compile_glob compile_regex ps
          ≡ ok (record {
            dirs_to_skip = of_type [] (map parse_arg ps);
            glob_pattern = g;
            regex_pattern = r;
          })
  unfolding parse_exclude_patterns
  parse_exclude_patterns-ok ps g r known eg er =
      rw (sort_patterns-ok parse_arg ps _ known) (rw eg (rw er refl))

-- Off Windows, an argument without a colon is a directory name, and any other is split at its first
-- colon: the type in front of it holds none, and the two parts with the colon between them are the
-- argument.
pub parse_exclude_arg_lem :
    (is_abs : Text → Bool) (arg : Text)
    → let (t, x) = parse_exclude_arg false is_abs arg in
      (contains_colon arg ≡ false) × (t ≡ []) × (x ≡ arg)
      ⊎ (contains_colon t ≡ false) × (arg ≡ t ++ (b':' ∷ x))
unfolding parse_exclude_arg
parse_exclude_arg_lem is_abs arg = go (cut b':' arg) (cut-CutOf b':' arg)
  where
    go :
        (o : Option (Text × Text))
        → CutOf b':' arg o
        → let r : Text × Text = elim o [ none ↦ ([], arg) | some (a, b) ↦ (a, b) ] in
          (contains_colon arg ≡ false) × (r.0 ≡ []) × (r.1 ≡ arg)
          ⊎ (contains_colon r.0 ≡ false) × (arg ≡ r.0 ++ (b':' ∷ r.1))
    go none h = inl (h, refl, refl)
    go (some (a, b)) (h, e) = inr (h, e)
