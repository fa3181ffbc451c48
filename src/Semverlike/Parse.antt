-- ===== src/Semverlike/Parse.antt =====
-- The parser of internal/utility/semverlike/version-semver-like.go reads back what a version prints
-- as.
use osv_scanner.Prelude.{
  Bool, Bool-cases, List, Text, [], all, ap, append-nil, append_assoc, arith, codes, false,
  has_prefix, inl, inr, leb, length, not, refl, suc, sym, take, true, zero, ℕ, ◌%◌, ◌++◌, ◌+◌, ◌/◌,
  ◌<◌, ◌==◌, ◌||◌, ◌∙◌, ◌∷◌, ◌≡◌, ◌≢◌, ◌≤◌,
}
use osv_scanner.Semverlike.Defs.{
  Components, Version, decimal, decimal_onto, digits_value, end_component,
  fetch_components_and_build, is_digit, parse_components, parse_semver_like,
  parse_semver_like_version, trim_v,
}

digits_value-decimal_onto :
    (fuel n : ℕ) (out : Text)
    → n < fuel
    → digits_value 0 (decimal_onto fuel n out) ≡ digits_value n out
unfolding decimal_onto digits_value
digits_value-decimal_onto zero n out h = absurd (omega arith)
digits_value-decimal_onto (suc fuel) n out h =
    ground (arith, digits_value-decimal_onto fuel (n / 10) ((b'0' + n % 10) ∷ out))

all_digits-decimal_onto :
    (fuel n : ℕ) (out : Text)
    → n < fuel
    → all is_digit out ≡ true
    → (all is_digit (decimal_onto fuel n out) ≡ true) × (decimal_onto fuel n out ≢ [])
unfolding decimal_onto
all_digits-decimal_onto zero n out h d = absurd (omega arith)
all_digits-decimal_onto (suc fuel) n out h d =
    ground (arith, all_digits-decimal_onto fuel (n / 10) ((b'0' + n % 10) ∷ out))

decimal-lem :
    (n : ℕ)
    → (digits_value 0 (decimal n) ≡ n) × (all is_digit (decimal n) ≡ true) × (decimal n ≢ [])
unfolding decimal digits_value
decimal-lem n =
    let (d, ne) = all_digits-decimal_onto (suc n) n [] (omega arith) refl in
    (digits_value-decimal_onto (suc n) n [] (omega arith), d, ne)

-- The components with dots between them.
abbrev pub dotted : Components → Text
dotted [] = []
dotted (c ∷ []) = decimal c
dotted (c ∷ d ∷ cs) = decimal c ++ (b'.' ∷ dotted (d ∷ cs))

-- What can follow the components: nothing, or a build, which begins with no digit and no dot.
abbrev pub is_build : Text → Bool
is_build [] = true
is_build (c ∷ build) = not (is_digit c || c == b'.')

parse_components-digits :
    (ds rest : Text) (cs : Components) (current : Text)
    → all is_digit ds ≡ true
    → parse_components cs current (ds ++ rest) ≡ parse_components cs (current ++ ds) rest
unfolding parse_components
parse_components-digits [] rest cs current h = rw append-nil
parse_components-digits (c ∷ ds) rest cs current h = ground (
  arith,
  parse_components-digits ds rest cs (current ++ c ∷ []),
  append_assoc current (c ∷ []) ds,
)

end_component-ne_nil :
    (cs : Components) (ds : Text) → ds ≢ [] → end_component cs ds ≡ cs ++ digits_value 0 ds ∷ []
unfolding end_component
end_component-ne_nil cs [] ne = absurd (ne refl)
end_component-ne_nil cs (c ∷ ds) ne = refl

end_component-decimal : (cs : Components) (n : ℕ) → end_component cs (decimal n) ≡ cs ++ n ∷ []
end_component-decimal cs n =
    let (value, d, ne) = decimal-lem n in
    end_component-ne_nil cs (decimal n) ne ∙ ap (λ v. cs ++ v ∷ []) value

parse_components-build :
    (cs : Components) (current build : Text)
    → is_build build ≡ true
    → parse_components cs current build ≡ (end_component cs current, build)
unfolding parse_components
parse_components-build cs current [] h = refl
parse_components-build cs current (c ∷ build) h = ground arith

parse_components-dot :
    (cs : Components) (current rest : Text)
    → parse_components cs current (b'.' ∷ rest)
      ≡ parse_components (end_component cs current) [] rest
unfolding parse_components
parse_components-dot cs current rest = refl

parse_components-dotted :
    (cs : Components) (c : ℕ) (more : Components) (build : Text)
    → is_build build ≡ true
    → parse_components cs [] (dotted (c ∷ more) ++ build) ≡ (cs ++ c ∷ more, build)
parse_components-dotted cs c [] build h =
    parse_components-digits (decimal c) build cs [] (decimal-lem c).1
    ∙ parse_components-build cs (decimal c) build h
    ∙ ap (λ e. (e, build)) (end_component-decimal cs c)
parse_components-dotted cs c (d ∷ more) build h =
    let rest = dotted (d ∷ more) ++ build in
    rw append_assoc (parse_components-digits (decimal c) (b'.' ∷ rest) cs [] (decimal-lem c).1)
    ∙ parse_components-dot cs (decimal c) rest
    ∙ ap (λ e. parse_components e [] rest) (end_component-decimal cs c)
    ∙ parse_components-dotted (cs ++ c ∷ []) d more build h
    ∙ ap (λ e. (e, build)) (append_assoc cs (c ∷ []) (d ∷ more))

-- A version printed: the optional v, the components with dots between them, and the build.
abbrev pub printed : Bool → Components → Text → Text
printed true cs build = b'v' ∷ (dotted cs ++ build)
printed false cs build = dotted cs ++ build

digit-not_v : (ds rest : Text) → all is_digit ds ≡ true → ds ≢ [] → trim_v (ds ++ rest) ≡ ds ++ rest
unfolding trim_v
digit-not_v [] rest h ne = absurd (ne refl)
digit-not_v (d ∷ ds) rest h ne = ground arith

digit-no_prefix :
    (ds rest : Text)
    → all is_digit ds ≡ true
    → ds ≢ []
    → has_prefix (ds ++ rest) (codes "v") ≡ false
unfolding has_prefix
digit-no_prefix [] rest h ne = absurd (ne refl)
digit-no_prefix (d ∷ ds) rest h ne = ground arith

-- The print begins with the digits of the first component.
dotted-head : (c : ℕ) (more : Components) → (rest : Text) × (dotted (c ∷ more) ≡ decimal c ++ rest)
dotted-head c [] = ([], sym (append-nil (decimal c)))
dotted-head c (d ∷ more) = (b'.' ∷ dotted (d ∷ more), refl)

trim_v-printed :
    (lead : Bool) (c : ℕ) (more : Components) (build : Text)
    → (trim_v (printed lead (c ∷ more) build) ≡ dotted (c ∷ more) ++ build)
      × (has_prefix (printed lead (c ∷ more) build) (codes "v") ≡ lead)
trim_v-printed true c more build = unfold trim_v has_prefix in (refl, refl)
trim_v-printed false c more build =
    let (rest, e) = dotted-head c more in
    let (_, d, ne) = decimal-lem c in
    rw (e, append_assoc)
      (
        digit-not_v (decimal c) (rest ++ build) d ne,
        digit-no_prefix (decimal c) (rest ++ build) d ne,
      )

-- Parsing a printed version gives its components, its build and whether it had a leading v, for
-- every version of at least one component whose build does not begin with a digit or a dot.
pub parse_semver_like-printed :
    (lead : Bool) (c : ℕ) (more : Components) (build : Text)
    → is_build build ≡ true
    → parse_semver_like (printed lead (c ∷ more) build) ≡ record {
      leading_v = lead;
      components = c ∷ more;
      build = build;
      original = printed lead (c ∷ more) build;
    }
unfolding parse_semver_like
parse_semver_like-printed lead c more build h =
    let (trimmed, prefixed) = trim_v-printed lead c more build in
    rw (trimmed, prefixed, parse_components-dotted [] c more build h) refl

take-le : {A : Type 0} (n : ℕ) (xs : List A) → length (take n xs) ≤ n
take-le zero xs = omega arith
take-le (suc n) [] = omega arith
take-le (suc n) (x ∷ xs) = omega (arith, take-le n xs)

take-all : {A : Type 0} (n : ℕ) (xs : List A) → length xs ≤ n → take n xs ≡ xs
take-all zero [] h = refl
take-all zero (x ∷ xs) h = absurd (omega arith)
take-all (suc n) [] h = refl
take-all (suc n) (x ∷ xs) h = ap (◌∷◌ x) (take-all n xs (omega arith))

fetch_components_and_build_lem :
    (v : Version) (n : ℕ)
    → ((fetch_components_and_build v n).0 ≡ take n v.components)
      × (length v.components ≤ n → (fetch_components_and_build v n).1 ≡ v.build)
unfolding fetch_components_and_build
fetch_components_and_build_lem v n = elim (Bool-cases (leb (length v.components) n)) [
  | inl few ↦ ground (arith, take-all n v.components)
  | inr many ↦ ground arith
]

-- `ParseSemverLikeVersion` keeps at most the given number of components, the first ones that the
-- parser found, and leaves the build as it was found if no component is left over.
pub parse_semver_like_version_lem :
    (line : Text) (max_components : ℕ)
    → let v = parse_semver_like_version line max_components in
      (length v.components ≤ max_components)
      × (v.components ≡ take max_components (parse_semver_like line).components)
      × (length (parse_semver_like line).components ≤ max_components
          → v.build ≡ (parse_semver_like line).build)
unfolding parse_semver_like_version
parse_semver_like_version_lem line max_components =
    let (kept, same) = fetch_components_and_build_lem (parse_semver_like line) max_components in
    (rw kept (take-le max_components _), kept, same)
