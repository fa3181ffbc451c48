-- ===== src/Spdx/Tests.antt =====
-- Runs of the parser of internal/spdx/satisfies.go, and the theorems at concrete licenses.
use osv_scanner.Prelude.{
  Text, [], codes, contains, false, if◌then◌else◌, keep, leb, map, or_of_right, refl, text_eq, true,
  ◌&&◌, ◌+◌, ◌↔◌, ◌∷◌, ◌≡◌, ◌≢◌,
}
use osv_scanner.Spdx.Node.{kw_and, leaf, satisfied_by}
use osv_scanner.Spdx.Outcome.{Ends, err, missing_closing_bracket, ok, panic, unexpected}
use osv_scanner.Spdx.Descent.{
  allowed, close_bracket, is_next_valid, kw_close, kw_end, next_and_is_next_next_valid, parse,
  parse_license, parse_or, satisfies,
}
use osv_scanner.Spdx.Lexer.{is_bracket, is_space, tokenise}
use osv_scanner.Spdx.Tokens.{concat, concat-tokenise, not_space}
use osv_scanner.Spdx.Grammar.{OrExpr}
use osv_scanner.Spdx.Parser.{parse-OrExpr}
use osv_scanner.Spdx.Trailing.{parse-unopened}
use osv_scanner.Spdx.Satisfies.{satisfies-Ends, satisfies_mono, satisfies-panic_iff}
use osv_scanner.Spdx.Tokens.{concat, concat-tokenise, not_space}

-- ASCII lower case, for the argument `to_lower`.
lower : Text → Text
lower [] = []
lower (c ∷ s) = (if leb b'A' c && leb c b'Z' then c + 32 else c) ∷ lower s

program : Unit {0}
unfolding satisfies satisfied_by tokenise parse parse_or is_next_valid allowed text_eq lower
    not_space contains is_bracket is_space next_and_is_next_next_valid parse_license close_bracket
program = tt

abbrev mit : Text
mit = codes "MIT"

-- AND binds tighter than OR, and brackets bind tightest.
satisfies_runs :
    (satisfies lower (codes "MIT AND (A OR B)") (codes "mit" ∷ codes "b" ∷ []) ≡ ok true)
    × (satisfies lower (codes "MIT AND A OR B") (codes "B" ∷ []) ≡ ok true)
    × (satisfies lower (codes "MIT AND A OR B") (mit ∷ []) ≡ ok false)
    × (satisfies lower (codes "(MIT") (mit ∷ []) ≡ err missing_closing_bracket)
    × (satisfies lower (codes "MIT AND ") (mit ∷ []) ≡ err (unexpected kw_end kw_and))
    × (satisfies lower (codes "GPL WITH X") (codes "gpl with x" ∷ []) ≡ ok true)
unfolding program
satisfies_runs = (refl, refl, refl, refl, refl, refl)

-- Whatever stands behind a closing bracket that nothing opened is not read.
satisfies_unopened : satisfies lower (codes "MIT ) AND AND (") (mit ∷ []) ≡ ok true
unfolding program
satisfies_unopened = refl

satisfies_empty : satisfies lower [] (mit ∷ []) ≡ panic
unfolding program
satisfies_empty = refl

parse-OrExpr_example :
    Ends (λ (n, rest). OrExpr (mit ∷ kw_and ∷ mit ∷ []) n rest) (parse (mit ∷ kw_and ∷ mit ∷ []))
parse-OrExpr_example = parse-OrExpr (mit ∷ kw_and ∷ mit ∷ []) (λ e. cc)

parse-unopened_example :
    parse (mit ∷ kw_close ∷ kw_and ∷ []) ≡ ok (leaf mit, kw_close ∷ kw_and ∷ [])
unfolding program
parse-unopened_example = parse-unopened mit (kw_and ∷ []) refl

concat-tokenise_example : concat (tokenise (codes "A AND (B)")) ≡ keep not_space (codes "A AND (B)")
concat-tokenise_example = concat-tokenise (codes "A AND (B)")

satisfies-panic_iff_example :
    (satisfies lower (codes "  ") (mit ∷ []) ≡ panic) ↔ (keep not_space (codes "  ") ≡ [])
satisfies-panic_iff_example = satisfies-panic_iff lower (codes "  ") (mit ∷ [])

satisfies-Ends_example : Ends (λ _. Unit) (satisfies lower (codes "A (") (mit ∷ []))
satisfies-Ends_example = satisfies-Ends lower (codes "A (") (mit ∷ []) ne
  where
    ne : keep not_space (codes "A (") ≢ []
    ne = unfold not_space is_space in (λ e. cc)

satisfies_mono_example : satisfies lower (codes "MIT OR A") (codes "X" ∷ mit ∷ []) ≡ ok true
satisfies_mono_example =
    satisfies_mono lower (codes "MIT OR A") (mit ∷ []) (codes "X" ∷ mit ∷ []) more
      (unfold program in refl)
  where
    more :
        (v : Text)
        → contains (map lower (mit ∷ [])) v ≡ true
        → contains (map lower (codes "X" ∷ mit ∷ [])) v ≡ true
    more v h = unfold contains in or_of_right (text_eq (lower (codes "X")) v) _ h
