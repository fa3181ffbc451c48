-- ===== src/Spdx/Trailing.antt =====
-- What `parse` of internal/spdx/satisfies.go leaves unread.
use osv_scanner.Prelude.{
  Text, [], arith, contains, false, length, none, refl, some, suc, text_eq, true, ℕ, ◌*◌, ◌+◌, ◌∷◌,
  ◌≡◌,
}
use osv_scanner.Spdx.Node.{kw_and, kw_or, leaf}
use osv_scanner.Spdx.Outcome.{ok}
use osv_scanner.Spdx.Descent.{
  Tokens, after_exp, allowed, is_next_valid, kw_close, kw_end, kw_open, next_and_is_next_next_valid,
  parse, parse_license, parse_or, peek,
}

closing_is_key : allowed kw_close ≡ some (kw_close ∷ kw_and ∷ kw_or ∷ kw_end ∷ [])
unfolding allowed text_eq
closing_is_key = refl

close_after_exp : contains after_exp kw_close ≡ true
unfolding contains text_eq
close_after_exp = refl

is_next_valid-unopened :
    (t : Text) (junk : Tokens) → allowed t ≡ none → is_next_valid (kw_close ∷ junk) t ≡ ok tt
unfolding is_next_valid
is_next_valid-unopened t junk h = ground (arith, closing_is_key, close_after_exp)

not_open : (t : Text) → allowed t ≡ none → text_eq t kw_open ≡ false
unfolding allowed
not_open t h = ground arith

parse_license-unopened :
    (t : Text) (junk : Tokens) → parse_license t (kw_close ∷ junk) ≡ ok (leaf t, kw_close ∷ junk)
unfolding parse_license text_eq
parse_license-unopened t junk = refl

parse_or-unopened :
    (t : Text) (junk : Tokens) (f : ℕ)
    → allowed t ≡ none
    → parse_or (suc (suc (suc f))) (t ∷ kw_close ∷ junk) ≡ ok (leaf t, kw_close ∷ junk)
unfolding parse_or next_and_is_next_next_valid text_eq peek
parse_or-unopened t junk f h =
    rw (is_next_valid-unopened t junk h, not_open t h, parse_license-unopened t junk) refl

-- A license identifier that is no keyword, with a closing bracket behind it, parses whatever comes
-- after the bracket: `parse` does not look at the tokens that are left.
pub parse-unopened :
    (t : Text) (junk : Tokens)
    → allowed t ≡ none
    → parse (t ∷ kw_close ∷ junk) ≡ ok (leaf t, kw_close ∷ junk)
unfolding parse
parse-unopened t junk h =
    let n = length junk in
    let fuel : 3 * suc (suc n) + 3 ≡ suc (suc (suc (3 * n + 6))) = omega arith in
    rw fuel (parse_or-unopened t junk _ h)
