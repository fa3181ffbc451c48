-- ===== src/Spdx/Tokens.antt =====
-- What `tokenise` of internal/spdx/satisfies.go keeps of a license expression.
use osv_scanner.Prelude.{
  Bool, Bool-cases, List, Text, [], all, ap, append-nil, append_assoc, arith, false, inl, inr, keep,
  not, refl, sym, true, ℕ, ◌&&◌, ◌++◌, ◌||◌, ◌↔◌, ◌∙◌, ◌∷◌, ◌≡◌,
}
use osv_scanner.Spdx.Lexer.{flush, is_bracket, is_space, tokenise, tokenise_from}

-- The tokens' code points in order.
abbrev pub concat : List Text → Text
concat [] = []
concat (t ∷ ts) = t ++ concat ts

unfoldable pub not_space : ℕ → Bool
not_space c = not (is_space c)

unfoldable pub is_word_char : ℕ → Bool
is_word_char c = not (is_bracket c || is_space c)

-- A single bracket, or a word with no bracket and no space in it.
abbrev pub is_token : Text → Bool
is_token [] = false
is_token (c ∷ []) = not (is_space c)
is_token (c ∷ d ∷ t) = is_word_char c && all is_word_char (d ∷ t)

is_bracket-not_space : (c : ℕ) → is_bracket c ≡ true → not_space c ≡ true
unfolding is_bracket not_space is_space
is_bracket-not_space c h = ground arith

is_space-not_space : (c : ℕ) → is_space c ≡ true → not_space c ≡ false
unfolding not_space
is_space-not_space c h = ground arith

not_space_of_word : (c : ℕ) → is_space c ≡ false → not_space c ≡ true
unfolding not_space
not_space_of_word c h = ground arith

concat-append : (xs ys : List Text) → concat (xs ++ ys) ≡ concat xs ++ concat ys
concat-append [] ys = refl
concat-append (x ∷ xs) ys = simp (concat-append xs ys, append_assoc)

concat-flush : (ts : List Text) (current : Text) → concat (flush ts current) ≡ concat ts ++ current
unfolding flush
concat-flush ts [] = sym (append-nil (concat ts))
concat-flush ts (c ∷ current) = simp (concat-append, append-nil)

concat-tokenise_from :
    (s : Text) (ts : List Text) (current : Text)
    → concat (tokenise_from ts current s) ≡ concat ts ++ (current ++ keep not_space s)
unfolding tokenise_from
concat-tokenise_from [] ts current = simp (concat-flush, append-nil)
concat-tokenise_from (c ∷ s) ts current = elim (Bool-cases (is_bracket c)) [
  | inl b ↦
      rw (b, is_bracket-not_space c b)
        (simp (concat-tokenise_from s, concat-append, concat-flush, append_assoc, append-nil))
  | inr b ↦ elim (Bool-cases (is_space c)) [
    | inl e ↦
        rw (b, e, is_space-not_space c e)
          (simp (concat-tokenise_from s, concat-flush, append_assoc))
    | inr e ↦ rw (b, e, not_space_of_word c e) (simp (concat-tokenise_from s, append_assoc))
  ]
]

-- The tokens hold every code point of the license but the spaces, in order.
pub concat-tokenise : (license : Text) → concat (tokenise license) ≡ keep not_space license
unfolding tokenise
concat-tokenise license = concat-tokenise_from license [] []

all-append :
    {A : Type 0} (p : A → Bool) (xs ys : List A) → all p (xs ++ ys) ≡ (all p xs && all p ys)
all-append p [] ys = refl
all-append p (x ∷ xs) ys = ground (arith, all-append p xs ys)

module _ {A : Type 0} (p : A → Bool) where
  all-append_intro : (xs ys : List A) → all p xs ≡ true → all p ys ≡ true → all p (xs ++ ys) ≡ true
  all-append_intro xs ys h k = rw (all-append p xs ys, h) k

is_token-word : (c : ℕ) (t : Text) → all is_word_char (c ∷ t) ≡ true → is_token (c ∷ t) ≡ true
unfolding is_word_char
is_token-word c [] h = ground arith
is_token-word c (d ∷ t) h = ground arith

is_token-bracket : (c : ℕ) → is_bracket c ≡ true → is_token (c ∷ []) ≡ true
unfolding is_bracket is_space
is_token-bracket c h = ground arith

is_word_char-intro : (c : ℕ) → is_bracket c ≡ false → is_space c ≡ false → is_word_char c ≡ true
unfolding is_word_char
is_word_char-intro c h k = ground arith

all-flush :
    (ts : List Text) (current : Text)
    → all is_token ts ≡ true
    → all is_word_char current ≡ true
    → all is_token (flush ts current) ≡ true
unfolding flush
all-flush ts [] h w = h
all-flush ts (c ∷ current) h w =
    all-append_intro is_token ts _ h (ground (arith, is_token-word c current w))

all-tokenise_from :
    (s : Text) (ts : List Text) (current : Text)
    → all is_token ts ≡ true
    → all is_word_char current ≡ true
    → all is_token (tokenise_from ts current s) ≡ true
unfolding tokenise_from
all-tokenise_from [] ts current h w = all-flush ts current h w
all-tokenise_from (c ∷ s) ts current h w = elim (Bool-cases (is_bracket c)) [
  | inl b ↦ rw b (
      all-tokenise_from s _ []
        (all-append_intro is_token (flush ts current) _ (all-flush ts current h w)
          (ground (arith, is_token-bracket c b)))
        refl)
  | inr b ↦ elim (Bool-cases (is_space c)) [
    | inl e ↦ rw (b, e) (all-tokenise_from s _ [] (all-flush ts current h w) refl)
    | inr e ↦
        rw (b, e)
          (all-tokenise_from s ts _ h
            (all-append_intro is_word_char current _ w (ground (arith, is_word_char-intro c b e))))
  ]
]

-- Every token is a single bracket, or a word of at least one code point without brackets and
-- spaces.
pub all-tokenise : (license : Text) → all is_token (tokenise license) ≡ true
unfolding tokenise
all-tokenise license = all-tokenise_from license [] [] refl refl

concat-ne-nil : (ts : List Text) → all is_token ts ≡ true → concat ts ≡ [] → ts ≡ []
concat-ne-nil [] h e = refl
concat-ne-nil ([] ∷ ts) h e = ground arith
concat-ne-nil ((c ∷ t) ∷ ts) h e = cc

-- A license has no tokens exactly when it has no code points but spaces.
pub tokenise-nil_iff : (license : Text) → (tokenise license ≡ []) ↔ (keep not_space license ≡ [])
tokenise-nil_iff license = (
  λ e. sym (concat-tokenise license) ∙ ap concat e,
  λ e. concat-ne-nil (tokenise license) (all-tokenise license) (concat-tokenise license ∙ e),
)
