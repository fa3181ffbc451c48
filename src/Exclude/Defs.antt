-- ===== src/Exclude/Defs.antt =====
-- `parseExcludeArg` and `parseExcludePatterns`. The compiled globs and regular expressions come
-- from third-party packages: their types and compilers are parameters, and `none` is a pattern
-- that does not compile.
use osv_scanner.Prelude.{
  Bool, List, Option, Text, [], codes, cut, has_prefix, if◌then◌else◌, none, not, some, text_eq,
  ◌&&◌, ◌++◌, ◌||◌, ◌∷◌,
}

-- `windows` stands for `runtime.GOOS == "windows"`, and `is_abs` for `filepath.IsAbs`.
unfoldable pub parse_exclude_arg : Bool → (Text → Bool) → Text → Text × Text
parse_exclude_arg windows is_abs arg =
    if windows && (not (has_prefix arg (codes "r:") || has_prefix arg (codes "g:")) && is_abs arg)
    then ([], arg)
    else elim (cut b':' arg) [
      | none ↦ ([], arg)
      | some (pattern_type, pattern') ↦ (pattern_type, pattern')
    ]

pub data ExcludeError : Type 0 where
  unknown_pattern_type : (pattern_type arg : Text) → ExcludeError
  invalid_glob : Text → ExcludeError
  invalid_regex : Text → ExcludeError

pub data Result {ℓ} (A : Type ℓ) : Type ℓ where
  ok : A → Result A
  err : ExcludeError → Result A

infixl 5 ◌>>=◌
abbrev pub ◌>>=◌ {ℓ κ} : {A : Type ℓ} {B : Type κ} → Result A → (A → Result B) → Result B
ok a >>= f = f a
err e >>= f = err e

-- The three lists that the loop over the patterns fills.
pub record Sorted : Type 0 where
  pub dirs_to_skip : List Text
  pub glob_patterns : List Text
  pub regex_patterns : List Text

-- The switch on the pattern type.
unfoldable pub add_pattern : Text → Text → Text → Sorted → Result Sorted
add_pattern p pattern_type pattern' s =
    if text_eq pattern_type []
    then ok (record s { dirs_to_skip = s.dirs_to_skip ++ pattern' ∷ [] })
    else if text_eq pattern_type (codes "g")
    then ok (record s { glob_patterns = s.glob_patterns ++ pattern' ∷ [] })
    else if text_eq pattern_type (codes "r")
    then ok (record s { regex_patterns = s.regex_patterns ++ pattern' ∷ [] })
    else err (unknown_pattern_type pattern_type p)

-- The loop over the patterns.
unfoldable pub sort_patterns : (Text → Text × Text) → List Text → Sorted → Result Sorted
unfolding add_pattern
sort_patterns parse_arg [] s = ok s
sort_patterns parse_arg (p ∷ patterns) s =
    add_pattern p (parse_arg p).0 (parse_arg p).1 s >>= λ s'. sort_patterns parse_arg patterns s'

-- `strings.Join(patterns, sep)`.
unfoldable pub join : Text → List Text → Text
join sep [] = []
join sep (p ∷ []) = p
join sep (p ∷ q ∷ ps) = p ++ (sep ++ join sep (q ∷ ps))

-- A single pattern alone, several between brackets with a separator.
unfoldable pub combined : Text → Text → Text → List Text → Text
unfolding join
combined opening sep closing (p ∷ []) = p
combined opening sep closing ps = opening ++ (join sep ps ++ closing)

pub record ExcludePatterns (Glob Regexp : Type 0) : Type 0 where
  pub dirs_to_skip : List Text
  pub glob_pattern : Option Glob
  pub regex_pattern : Option Regexp

module _ {P : Type 0} where
  -- `if len(patterns) > 0 { compile }`, with the error that names the combined pattern.
  unfoldable pub compile_all :
      (Text → Option P) → (Text → ExcludeError) → Text → List Text → Result (Option P)
  compile_all compile invalid text [] = ok none
  compile_all compile invalid text (p ∷ ps) = elim (compile text) [
    | none ↦ err (invalid text)
    | some c ↦ ok (some c)
  ]

module _ {Glob Regexp : Type 0} where
  unfoldable pub parse_exclude_patterns :
      (Text → Text × Text)
      → (Text → Option Glob)
      → (Text → Option Regexp)
      → List Text
      → Result (ExcludePatterns Glob Regexp)
  unfolding sort_patterns combined compile_all
  parse_exclude_patterns parse_arg compile_glob compile_regex patterns =
      sort_patterns parse_arg patterns
        (record { dirs_to_skip = []; glob_patterns = []; regex_patterns = [] })
      >>= λ s.
          compile_all compile_glob invalid_glob
            (combined (codes "{") (codes ",") (codes "}") s.glob_patterns) s.glob_patterns
          >>= λ g.
              compile_all compile_regex invalid_regex
                (combined (codes "(") (codes "|") (codes ")") s.regex_patterns) s.regex_patterns
              >>= λ r.
                  ok (record { dirs_to_skip = s.dirs_to_skip; glob_pattern = g; regex_pattern = r })
