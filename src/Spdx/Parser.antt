-- ===== src/Spdx/Parser.antt =====
-- The parser of internal/spdx/satisfies.go follows the grammar, ends within its fuel, and panics
-- on no tokens alone.
use osv_scanner.Prelude.{
  Bool-cases, Text, [], ap, arith, codes, false, inl, inr, length, refl, suc, text_eq, text_eq_iff,
  zero, ℕ, ◌*◌, ◌++◌, ◌+◌, ◌<◌, ◌↔◌, ◌∷◌, ◌≡◌, ◌≢◌, ◌≤◌,
}
use osv_scanner.Spdx.Node.{Node, branch, kw_and, kw_or, leaf}
use osv_scanner.Spdx.Outcome.{
  Ends, Ends-bind, Ends-map, Outcome, err, ok, out_of_fuel, panic, ◌>>=◌,
}
use osv_scanner.Spdx.Descent.{
  Tokens, and_loop, close_bracket, kw_close, kw_open, kw_with, next, next_and_is_next_next_valid,
  or_loop, parse, parse_and, parse_expression, parse_license, parse_or, peek,
}
use osv_scanner.Spdx.Grammar.{
  AndExpr, Expression, OrExpr, and_more, and_one, bracketed, is_next_valid-ne-nil, keyword-Ends,
  license, ne_of_text_eq, next_and_is_next_next_valid-Ends, or_more, or_one, with_exception,
}

exception-Ends :
    (t : Text) (rest : Tokens)
    → t ≢ kw_open
    → rest ≢ []
    → Ends
        (λ (n, rest'). Expression (t ∷ kw_with ∷ rest) n rest' × (length rest' < length rest))
        (next rest >>= λ (x, rest'). ok (leaf (t ++ codes " " ++ kw_with ++ codes " " ++ x), rest'))
unfolding next
exception-Ends t [] plain more = absurd (more refl)
exception-Ends t (x ∷ rest) plain more = (with_exception plain, omega arith)

parse_license-Ends :
    (t : Text) (ts : Tokens)
    → text_eq t kw_open ≡ false
    → Ends
        (λ (n, rest). Expression (t ∷ ts) n rest × (length rest ≤ length ts))
        (parse_license t ts)
unfolding parse_license
parse_license-Ends t ts plain = elim (Bool-cases (text_eq (peek ts) kw_with)) [
  | inl h ↦ rw h (
      Ends-bind _ _ (next_and_is_next_next_valid ts) _ (keyword-Ends kw_with ts h (λ e. cc))
        λ (u, rest) _ (p, q, v).
          let more = is_next_valid-ne-nil kw_with rest (inr (inr (inr refl))) v in
          rw (p, q)
            (Ends-map _ _
              (next rest >>= λ (x, rest').
                ok (leaf (t ++ codes " " ++ kw_with ++ codes " " ++ x), rest'))
              (exception-Ends t rest (ne_of_text_eq plain) more) (λ _ (e, l). (e, omega arith))))
  | inr h ↦ rw h (license (ne_of_text_eq plain), omega arith)
]

close_bracket-Ends :
    (ts0 : Tokens) (n : Node) (ts : Tokens)
    → OrExpr ts0 n ts
    → Ends
        (λ (m, rest). Expression (kw_open ∷ ts0) m rest × (length rest < length ts))
        (close_bracket n ts)
unfolding close_bracket
close_bracket-Ends ts0 n ts inner = elim (Bool-cases (text_eq (peek ts) kw_close)) [
  | inl h ↦ rw h (
      Ends-bind _ _ (next_and_is_next_next_valid ts) _ (keyword-Ends kw_close ts h (λ e. cc))
        λ (u, rest) _ (p, q, v). (bracketed (rw q at inner), omega (arith, ap length q)))
  | inr h ↦ rw h tt
]

abbrev Reads : (Tokens → Node → Tokens → Type 0) → Tokens → Outcome (Node × Tokens) → Type 0
Reads R ts r = Ends (λ (n, rest). R ts n rest × (length rest < length ts)) r

mutual
  unfolding parse_or

  parse_or-Reads :
      (f : ℕ) (ts : Tokens) → ts ≢ [] → 3 * length ts + 3 ≤ f → Reads OrExpr ts (parse_or f ts)
  parse_or-Reads zero ts ne h = absurd (omega arith)
  parse_or-Reads (suc f) ts ne h =
      Ends-bind _ _ (parse_and f ts) _ (parse_and-Reads f ts ne (omega arith))
        λ (left, ts') _ (e, l). or_loop-Reads f ts left ts' (or_one e) l (omega arith)

  or_loop-Reads :
      (f : ℕ) (ts0 : Tokens) (left : Node) (ts : Tokens)
      → OrExpr ts0 left ts
      → length ts < length ts0
      → 3 * length ts + 1 ≤ f
      → Reads OrExpr ts0 (or_loop f left ts)
  or_loop-Reads zero ts0 left ts e l h = absurd (omega arith)
  or_loop-Reads (suc f) ts0 left ts e l h = elim (Bool-cases (text_eq (peek ts) kw_or)) [
    | inl k ↦ rw k (
        Ends-bind _ _ (next_and_is_next_next_valid ts) _ (keyword-Ends kw_or ts k (λ e. cc))
          λ (op, ts') _ (p, q, v).
            let ne = is_next_valid-ne-nil kw_or ts' (inr (inl refl)) v in
            Ends-bind _ _ (parse_and f ts') _
              (parse_and-Reads f ts' ne (omega (arith, ap length q)))
              λ (right, ts'') _ (e', l').
                or_loop-Reads f ts0 (branch left op right) ts'' (rw p (or_more (rw q at e) e'))
                  (omega (arith, ap length q)) (omega (arith, ap length q)))
    | inr k ↦ rw k (e, l)
  ]

  parse_and-Reads :
      (f : ℕ) (ts : Tokens) → ts ≢ [] → 3 * length ts + 2 ≤ f → Reads AndExpr ts (parse_and f ts)
  parse_and-Reads zero ts ne h = absurd (omega arith)
  parse_and-Reads (suc f) ts ne h =
      Ends-bind _ _ (parse_expression f ts) _ (parse_expression-Reads f ts ne (omega arith))
        λ (left, ts') _ (e, l). and_loop-Reads f ts left ts' (and_one e) l (omega arith)

  and_loop-Reads :
      (f : ℕ) (ts0 : Tokens) (left : Node) (ts : Tokens)
      → AndExpr ts0 left ts
      → length ts < length ts0
      → 3 * length ts + 1 ≤ f
      → Reads AndExpr ts0 (and_loop f left ts)
  and_loop-Reads zero ts0 left ts e l h = absurd (omega arith)
  and_loop-Reads (suc f) ts0 left ts e l h = elim (Bool-cases (text_eq (peek ts) kw_and)) [
    | inl k ↦ rw k (
        Ends-bind _ _ (next_and_is_next_next_valid ts) _ (keyword-Ends kw_and ts k (λ e. cc))
          λ (op, ts') _ (p, q, v).
            let ne = is_next_valid-ne-nil kw_and ts' (inl refl) v in
            Ends-bind _ _ (parse_expression f ts') _
              (parse_expression-Reads f ts' ne (omega (arith, ap length q)))
              λ (right, ts'') _ (e', l').
                and_loop-Reads f ts0 (branch left op right) ts'' (rw p (and_more (rw q at e) e'))
                  (omega (arith, ap length q)) (omega (arith, ap length q)))
    | inr k ↦ rw k (e, l)
  ]

  parse_expression-Reads :
      (f : ℕ) (ts : Tokens)
      → ts ≢ []
      → 3 * length ts + 1 ≤ f
      → Reads Expression ts (parse_expression f ts)
  parse_expression-Reads zero ts ne h = absurd (omega arith)
  parse_expression-Reads (suc f) [] ne h = absurd (ne refl)
  parse_expression-Reads (suc f) (t ∷ ts) ne h =
      Ends-bind _ _ (next_and_is_next_next_valid (t ∷ ts)) _ (next_and_is_next_next_valid-Ends t ts)
        λ (u, ts') _ (p, q, v).
          rw (p, q)
            (elim (Bool-cases (text_eq t kw_open)) [
              | inl k ↦ rw k (
                  let open_paren = (text_eq_iff t kw_open).0 k in
                  let more =
                    is_next_valid-ne-nil kw_open ts (inr (inr (inl refl))) (rw open_paren at v) in
                  Ends-bind _ _ (parse_or f ts) _ (parse_or-Reads f ts more (omega arith))
                    λ (expr, ts'') _ (e, l).
                      Ends-map _ _ (close_bracket expr ts'') (close_bracket-Ends ts expr ts'' e)
                        (λ _ (e', l'). (rw open_paren e', omega arith)))
              | inr k ↦ rw k (
                  Ends-map _ _ (parse_license t ts) (parse_license-Ends t ts k)
                    (λ _ (e, l). (e, omega arith)))
            ])

-- If there is a token, `parse` ends without a panic and within its fuel: in an error, or with an
-- expression of the grammar at the front of the tokens and the tokens behind it.
pub parse-OrExpr : (ts : Tokens) → ts ≢ [] → Ends (λ (n, rest). OrExpr ts n rest) (parse ts)
unfolding parse
parse-OrExpr ts ne =
    Ends-map _ _ (parse_or (3 * length ts + 3) ts) (parse_or-Reads _ ts ne (omega arith))
      (λ _ (e, l). e)

Ends-ne-panic : {A : Type 0} (P : A → Type 0) (r : Outcome A) → Ends P r → r ≢ panic
Ends-ne-panic P (ok a) h e = cc
Ends-ne-panic P (err x) h e = cc
Ends-ne-panic P panic h e = h
Ends-ne-panic P out_of_fuel h e = h

parse-nil : parse [] ≡ panic
unfolding parse parse_or next_and_is_next_next_valid
parse-nil = refl

-- `parse` panics on no tokens, and on nothing else.
pub parse-panic_iff : (ts : Tokens) → (parse ts ≡ panic) ↔ (ts ≡ [])
parse-panic_iff [] = (λ _. refl, λ _. parse-nil)
parse-panic_iff (t ∷ ts) =
    (λ e. absurd (Ends-ne-panic _ (parse (t ∷ ts)) (parse-OrExpr (t ∷ ts) (λ x. cc)) e), λ e. cc)
