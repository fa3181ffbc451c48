-- ===== src/Spdx/Lexer.antt =====
-- `tokenise`: the loop over the runes of the license, with the tokens so far and `current`.
use osv_scanner.Prelude.{Bool, List, Text, [], if◌then◌else◌, ℕ, ◌++◌, ◌==◌, ◌||◌, ◌∷◌}

unfoldable pub is_space : ℕ → Bool
is_space c = c == b' '

unfoldable pub is_bracket : ℕ → Bool
is_bracket c = c == b'(' || c == b')'

-- `if current != "" { ts.tokens = append(ts.tokens, current) }`
unfoldable pub flush : List Text → Text → List Text
flush ts [] = ts
flush ts (c ∷ current) = ts ++ (c ∷ current) ∷ []

unfoldable pub tokenise_from : List Text → Text → Text → List Text
unfolding flush
tokenise_from ts current [] = flush ts current
tokenise_from ts current (c ∷ s) =
    let bracket = tokenise_from (flush ts current ++ (c ∷ []) ∷ []) [] s in
    let space = tokenise_from (flush ts current) [] s in
    let word = tokenise_from ts (current ++ c ∷ []) s in
    if is_bracket c then bracket else if is_space c then space else word

unfoldable pub tokenise : Text → List Text
unfolding tokenise_from
tokenise license = tokenise_from [] [] license
