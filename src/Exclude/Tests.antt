-- ===== src/Exclude/Tests.antt =====
-- Concrete arguments, with compilers that refuse the empty text.
use osv_scanner.Prelude.{
  List, Option, Text, [], codes, cut, false, none, refl, some, text_eq, ◌∷◌, ◌≡◌,
}
use osv_scanner.Exclude.Defs.{
  combined, compile_all, err, ok, parse_exclude_patterns, unknown_pattern_type,
}
use osv_scanner.Exclude.Laws.{is_known, parse_exclude_patterns-ok, parse_exclude_patterns_unknown}

abbrev parse_arg : Text → Text × Text
parse_arg s = elim (cut b':' s) [ none ↦ ([], s) | some p ↦ p ]

abbrev compile : Text → Option Text
compile [] = none
compile (c ∷ s) = some (c ∷ s)

abbrev good : List Text
good = codes "g:*.md" ∷ codes "node_modules" ∷ codes "g:doc" ∷ []

abbrev bad : List Text
bad = codes "vendor" ∷ codes "x:y" ∷ []

parse_exclude_patterns_unknown_example :
    (p : Text) × (parse_exclude_patterns parse_arg compile compile bad
      ≡ err (unknown_pattern_type (parse_arg p).0 p))
    × (is_known (parse_arg p).0 ≡ false)
unfolding text_eq cut
parse_exclude_patterns_unknown_example =
    parse_exclude_patterns_unknown parse_arg compile compile bad refl

parse_exclude_patterns-ok_example :
    parse_exclude_patterns parse_arg compile compile good
    ≡ ok (record {
      dirs_to_skip = codes "node_modules" ∷ [];
      glob_pattern = some (codes "{*.md,doc}");
      regex_pattern = none;
    })
unfolding text_eq cut compile_all combined
parse_exclude_patterns-ok_example =
    parse_exclude_patterns-ok parse_arg compile compile good (some (codes "{*.md,doc}")) none refl
      refl refl
