-- ===== src/Spdx/Descent.antt =====
-- The recursive-descent parser. The receiver `ts *tokens` is passed on explicitly; the calls and
-- rounds of the loops are counted by fuel, and `satisfies` gives three units for each token.
use osv_scanner.Prelude.{
  Bool, List, Option, Text, [], codes, contains, if◌then◌else◌, length, none, some, suc, text_eq,
  zero, ℕ, ◌*◌, ◌++◌, ◌+◌, ◌∷◌,
}
use osv_scanner.Spdx.Node.{Node, leaf, branch, kw_and, kw_or, satisfied_by}
use osv_scanner.Spdx.Lexer.{tokenise}
use osv_scanner.Spdx.Outcome.{
  unexpected, missing_closing_bracket, Outcome, ok, err, panic, out_of_fuel, ◌>>=◌,
}

abbrev pub Tokens : Type 0
Tokens = List Text

abbrev pub kw_with : Text
kw_with = codes "WITH"

abbrev pub kw_open : Text
kw_open = codes "("

abbrev pub kw_close : Text
kw_close = codes ")"

abbrev pub kw_exp : Text
kw_exp = codes "EXP"

abbrev pub kw_end : Text
kw_end = codes "END"

unfoldable pub peek : Tokens → Text
peek [] = []
peek (t ∷ ts) = t

-- `tokens.next`: `ts.tokens[0]` is out of range on no tokens.
unfoldable pub next : Tokens → Outcome (Text × Tokens)
next [] = panic
next (t ∷ ts) = ok (t, ts)

abbrev pub after_exp : List Text
after_exp = kw_with ∷ kw_and ∷ kw_or ∷ kw_close ∷ kw_end ∷ []

-- The map `allowed`; `none` is a missing key.
unfoldable pub allowed : Text → Option (List Text)
allowed t =
    if text_eq t kw_with
    then some (kw_exp ∷ [])
    else if text_eq t kw_and
    then some (kw_exp ∷ kw_open ∷ [])
    else if text_eq t kw_or
    then some (kw_exp ∷ kw_open ∷ [])
    else if text_eq t kw_open
    then some (kw_exp ∷ kw_open ∷ [])
    else if text_eq t kw_close
    then some (kw_close ∷ kw_and ∷ kw_or ∷ kw_end ∷ [])
    else if text_eq t kw_exp
    then some after_exp
    else if text_eq t kw_end
    then some []
    else none

abbrev next_or_end : Tokens → Text
next_or_end [] = kw_end
next_or_end (t ∷ ts) = t

-- A token that is no key of `allowed` is taken for an expression.
abbrev key_or_exp : Text → Text
key_or_exp t = elim (allowed t) [ none ↦ kw_exp | some _ ↦ t ]

abbrev allowed_or_exp : Text → List Text
allowed_or_exp t = elim (allowed t) [ none ↦ after_exp | some l ↦ l ]

unfoldable pub is_next_valid : Tokens → Text → Outcome (Unit {0})
unfolding contains
is_next_valid ts cur =
    let following = key_or_exp (next_or_end ts) in
    if contains (allowed_or_exp cur) following
    then ok tt
    else err (unexpected following (key_or_exp cur))

unfoldable pub next_and_is_next_next_valid : Tokens → Outcome (Text × Tokens)
unfolding next
next_and_is_next_next_valid ts = next ts >>= λ (t, rest). is_next_valid rest t >>= λ _. ok (t, rest)

-- The tail of `parseExpression` from `if tokens.peek() == "WITH"` on.
unfoldable pub parse_license : Text → Tokens → Outcome (Node × Tokens)
unfolding peek next
parse_license t ts =
    if text_eq (peek ts) kw_with
    then (next_and_is_next_next_valid ts >>= λ (nex2, ts').
        next ts' >>= λ (x, ts''). ok (leaf (t ++ codes " " ++ nex2 ++ codes " " ++ x), ts''))
    else ok (leaf t, ts)

-- What follows the inner expression of a bracket.
unfoldable pub close_bracket : Node → Tokens → Outcome (Node × Tokens)
unfolding peek
close_bracket expr ts =
    if text_eq (peek ts) kw_close
    then (next_and_is_next_next_valid ts >>= λ (_, ts'). ok (expr, ts'))
    else err missing_closing_bracket

unfoldable mutual
  pub parse_or : ℕ → Tokens → Outcome (Node × Tokens)
  parse_or zero ts = out_of_fuel
  parse_or (suc f) ts = parse_and f ts >>= λ (left, ts'). or_loop f left ts'

  -- `for tokens.peek() == "OR"`
  pub or_loop : ℕ → Node → Tokens → Outcome (Node × Tokens)
  or_loop zero left ts = out_of_fuel
  or_loop (suc f) left ts =
      let round = next_and_is_next_next_valid ts >>= λ (operator, ts').
      parse_and f ts' >>= λ (right, ts''). or_loop f (branch left operator right) ts'' in
      if text_eq (peek ts) kw_or then round else ok (left, ts)

  pub parse_and : ℕ → Tokens → Outcome (Node × Tokens)
  parse_and zero ts = out_of_fuel
  parse_and (suc f) ts = parse_expression f ts >>= λ (left, ts'). and_loop f left ts'

  -- `for tokens.peek() == "AND"`
  pub and_loop : ℕ → Node → Tokens → Outcome (Node × Tokens)
  and_loop zero left ts = out_of_fuel
  and_loop (suc f) left ts =
      let round = next_and_is_next_next_valid ts >>= λ (operator, ts').
      parse_expression f ts' >>= λ (right, ts''). and_loop f (branch left operator right) ts'' in
      if text_eq (peek ts) kw_and then round else ok (left, ts)

  pub parse_expression : ℕ → Tokens → Outcome (Node × Tokens)
  parse_expression zero ts = out_of_fuel
  parse_expression (suc f) ts = next_and_is_next_next_valid ts >>= λ (t, ts').
      let bracketed = parse_or f ts' >>= λ (expr, ts''). close_bracket expr ts'' in
      if text_eq t kw_open then bracketed else parse_license t ts'

-- `parse`, with the fuel that the tokens need.
unfoldable pub parse : Tokens → Outcome (Node × Tokens)
parse ts = parse_or (3 * length ts + 3) ts

unfoldable pub satisfies : (Text → Text) → Text → List Text → Outcome Bool
satisfies to_lower license allowlist =
    parse (tokenise license) >>= λ (nod, _). ok (satisfied_by to_lower nod allowlist)
