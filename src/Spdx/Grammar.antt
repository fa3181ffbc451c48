-- ===== src/Spdx/Grammar.antt =====
-- The grammar of license expressions of internal/spdx/satisfies.go, with AND binding tighter than
-- OR and both to the left, and what a step over one keyword of the tokens gives.
use osv_scanner.Prelude.{
  Bool, Text, [], arith, codes, false, if◌then◌else◌, inl, inr, refl, sym, text_eq, text_eq_iff,
  true, ◌++◌, ◌∙◌, ◌∷◌, ◌≡◌, ◌≢◌, ◌⊎◌,
}
use osv_scanner.Spdx.Node.{Node, branch, kw_and, kw_or, leaf}
use osv_scanner.Spdx.Outcome.{Ends, Ends-bind, Ends-map, Outcome, ParseError, err, ok, unexpected}
use osv_scanner.Spdx.Descent.{
  Tokens, allowed, is_next_valid, kw_close, kw_end, kw_open, kw_with, next_and_is_next_next_valid,
  peek,
}

pub ne_of_text_eq : {a b : Text} → text_eq a b ≡ false → a ≢ b
ne_of_text_eq {a} {b} h e = ground (arith, text_eq_iff a b)

-- The tokens `ts` begin with an expression of the grammar, read as `n`, and `rest` follows it.
mutual
  pub data OrExpr : Tokens → Node → Tokens → Type 0 where
    or_one : {ts rest : Tokens} {n : Node} → AndExpr ts n rest → OrExpr ts n rest
    or_more :
        {ts mid rest : Tokens} {a b : Node}
        → OrExpr ts a (kw_or ∷ mid)
        → AndExpr mid b rest
        → OrExpr ts (branch a kw_or b) rest

  pub data AndExpr : Tokens → Node → Tokens → Type 0 where
    and_one : {ts rest : Tokens} {n : Node} → Expression ts n rest → AndExpr ts n rest
    and_more :
        {ts mid rest : Tokens} {a b : Node}
        → AndExpr ts a (kw_and ∷ mid)
        → Expression mid b rest
        → AndExpr ts (branch a kw_and b) rest

  pub data Expression : Tokens → Node → Tokens → Type 0 where
    license : {t : Text} {rest : Tokens} → t ≢ kw_open → Expression (t ∷ rest) (leaf t) rest
    with_exception :
        {t x : Text} {rest : Tokens}
        → t ≢ kw_open
        → Expression
            (t ∷ kw_with ∷ x ∷ rest)
            (leaf (t ++ codes " " ++ kw_with ++ codes " " ++ x))
            rest
    bracketed :
        {ts rest : Tokens} {n : Node}
        → OrExpr ts n (kw_close ∷ rest)
        → Expression (kw_open ∷ ts) n rest

-- An operator or an opening bracket at the end of the tokens is refused.
nothing_after :
    (is_next_valid [] kw_and ≡ err (unexpected kw_end kw_and))
    × (is_next_valid [] kw_or ≡ err (unexpected kw_end kw_or))
    × (is_next_valid [] kw_open ≡ err (unexpected kw_end kw_open))
    × (is_next_valid [] kw_with ≡ err (unexpected kw_end kw_with))
unfolding is_next_valid allowed text_eq
nothing_after = (refl, refl, refl, refl)

-- A successful check behind an operator or an opening bracket shows another token.
pub is_next_valid-ne-nil :
    (cur : Text) (ts : Tokens)
    → (cur ≡ kw_and) ⊎ (cur ≡ kw_or) ⊎ (cur ≡ kw_open) ⊎ (cur ≡ kw_with)
    → is_next_valid ts cur ≡ ok tt
    → ts ≢ []
is_next_valid-ne-nil cur ts k h e = elim k [
  | inl p ↦ cc (nothing_after.0)
  | inr (inl p) ↦ cc (nothing_after.1)
  | inr (inr (inl p)) ↦ cc (nothing_after.2)
  | inr (inr (inr p)) ↦ cc (nothing_after.3)
]

guard-Ends :
    (b : Bool) (e : ParseError)
    → let r : Outcome (Unit {0}) = if b then ok tt else err e in Ends (λ _. r ≡ ok tt) r
guard-Ends true e = refl
guard-Ends false e = tt

is_next_valid-Ends :
    (ts : Tokens) (t : Text) → Ends (λ _. is_next_valid ts t ≡ ok tt) (is_next_valid ts t)
unfolding is_next_valid
is_next_valid-Ends ts t = guard-Ends _ _

-- `nextAndIsNextNextValid` at a token that is there takes it off or fails.
pub next_and_is_next_next_valid-Ends :
    (t : Text) (ts : Tokens)
    → Ends
        (λ (u, rest). (u ≡ t) × (rest ≡ ts) × (is_next_valid ts t ≡ ok tt))
        (next_and_is_next_next_valid (t ∷ ts))
unfolding next_and_is_next_next_valid
next_and_is_next_next_valid-Ends t ts =
    Ends-bind _ _ (is_next_valid ts t) _ (is_next_valid-Ends ts t) (λ _ e _. (refl, refl, e))

-- A keyword at the front is taken off, or what follows it is refused.
pub keyword-Ends :
    (op : Text) (ts : Tokens)
    → text_eq (peek ts) op ≡ true
    → op ≢ []
    → Ends
        (λ (u, rest). (u ≡ op) × (ts ≡ op ∷ rest) × (is_next_valid rest op ≡ ok tt))
        (next_and_is_next_next_valid ts)
unfolding peek
keyword-Ends op [] h ne = absurd (ne (sym ((text_eq_iff _ _).0 h)))
keyword-Ends op (t ∷ ts) h ne =
    let same = (text_eq_iff t op).0 h in
    Ends-map _ _ (next_and_is_next_next_valid (t ∷ ts)) (next_and_is_next_next_valid-Ends t ts)
      (λ (u, rest) (p, q, v). (p ∙ same, cc, cc))
