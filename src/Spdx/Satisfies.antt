-- ===== src/Spdx/Satisfies.antt =====
-- `Satisfies` of internal/spdx/satisfies.go, from the text of the license to the answer.
use osv_scanner.Prelude.{List, Text, [], ap, contains, keep, map, refl, true, ◌↔◌, ◌≡◌, ◌≢◌}
use osv_scanner.Spdx.Lexer.{tokenise}
use osv_scanner.Spdx.Tokens.{not_space, tokenise-nil_iff}
use osv_scanner.Spdx.Node.{Node, satisfied_by}
use osv_scanner.Spdx.Allowlist.{satisfied_by_mono}
use osv_scanner.Spdx.Outcome.{Ends, Ends-bind, Outcome, err, ok, out_of_fuel, panic, ◌>>=◌}
use osv_scanner.Spdx.Parser.{parse-OrExpr, parse-panic_iff}
use osv_scanner.Spdx.Descent.{parse, satisfies}

bind-panic : {A B : Type 0} (r : Outcome A) (f : A → B) → (r >>= λ a. ok (f a)) ≡ panic → r ≡ panic
bind-panic (ok a) f h = cc
bind-panic (err e) f h = cc
bind-panic panic f h = refl
bind-panic out_of_fuel f h = cc

module _ (to_lower : Text → Text) (license : Text) where
  -- `Satisfies` panics exactly on the licenses that hold no code points but spaces, the empty one
  -- among them.
  pub satisfies-panic_iff :
      (allowlist : List Text)
      → (satisfies to_lower license allowlist ≡ panic) ↔ (keep not_space license ≡ [])
  unfolding satisfies
  satisfies-panic_iff allowlist = (
    λ e.
        (tokenise-nil_iff license).0
          ((parse-panic_iff _).0 (bind-panic (parse (tokenise license)) _ e)),
    λ e. rw ((parse-panic_iff _).1 ((tokenise-nil_iff license).1 e)) refl,
  )

  -- On every other license it answers or returns an error.
  pub satisfies-Ends :
      (allowlist : List Text)
      → keep not_space license ≢ []
      → Ends (λ _. Unit) (satisfies to_lower license allowlist)
  unfolding satisfies
  satisfies-Ends allowlist ne =
      Ends-bind _ _ (parse (tokenise license)) _
        (parse-OrExpr (tokenise license) (λ e. ne ((tokenise-nil_iff license).0 e))) (λ _ _ _. tt)

  -- A license that an allowlist satisfies stays satisfied by every allowlist whose lower-cased
  -- entries include those of the first.
  pub satisfies_mono :
      (xs ys : List Text)
      → ((v : Text) → contains (map to_lower xs) v ≡ true → contains (map to_lower ys) v ≡ true)
      → satisfies to_lower license xs ≡ ok true
      → satisfies to_lower license ys ≡ ok true
  unfolding satisfies
  satisfies_mono xs ys sub h = go (parse (tokenise license)) h
    where
      go :
          (r : Outcome (Node × List Text))
          → (r >>= λ (n, _). ok (satisfied_by to_lower n xs)) ≡ ok true
          → (r >>= λ (n, _). ok (satisfied_by to_lower n ys)) ≡ ok true
      go (ok (n, rest)) e = ap ok (satisfied_by_mono to_lower n xs ys sub (cc))
      go (err x) e = cc
      go panic e = cc
      go out_of_fuel e = cc
