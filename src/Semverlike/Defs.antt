-- ===== src/Semverlike/Defs.antt =====
-- `Components`, `Version` and the parser. A `big.Int` is a natural number, since components are
-- runs of decimal digits.
use osv_scanner.Prelude.{
  Bool, List, Ordering, Text, [], codes, compare, drop, get_or, has_prefix, if◌then◌else◌, leb,
  length, ltb, max, suc, take, zero, ℕ, ◌%◌, ◌&&◌, ◌*◌, ◌++◌, ◌+◌, ◌-◌, ◌/◌, ◌==◌, ◌∷◌,
}

abbrev pub Components : Type 0
Components = List ℕ

unfoldable pub fetch : Components → ℕ → ℕ
fetch components n = if leb (length components) n then 0 else get_or components n 0

-- The loop of `Cmp` over `i`, with the rounds that are left.
unfoldable pub cmp_from : ℕ → ℕ → Components → Components → Ordering
cmp_from zero i a b = Ordering.eq
cmp_from (suc left) i a b =
    let rest = cmp_from left (suc i) a b in
    elim (compare (fetch a i) (fetch b i)) [
      | Ordering.lt ↦ Ordering.lt
      | Ordering.gt ↦ Ordering.gt
      | Ordering.eq ↦ rest
    ]

unfoldable pub cmp : Components → Components → Ordering
unfolding cmp_from
cmp components b = cmp_from (max (length components) (length b)) 0 components b

pub record Version : Type 0 where
  pub leading_v : Bool
  pub components : Components
  pub build : Text
  pub original : Text

abbrev pub is_digit : ℕ → Bool
is_digit c = leb b'0' c && leb c b'9'

-- `SetString(currentCom, 10)` on decimal digits.
unfoldable pub digits_value : ℕ → Text → ℕ
digits_value acc [] = acc
digits_value acc (c ∷ s) = digits_value (acc * 10 + (c - b'0')) s

-- `if currentCom != "" { components = append(components, v) }`
unfoldable pub end_component : Components → Text → Components
unfolding digits_value
end_component components [] = components
end_component components (c ∷ current) = components ++ digits_value 0 (c ∷ current) ∷ []

-- The loop over the runes while `foundBuild` is false, and what follows it. From the first rune of
-- the build on, all runes are appended to it.
unfoldable pub parse_components : Components → Text → Text → Components × Text
unfolding end_component
parse_components components current [] = (end_component components current, [])
parse_components components current (c ∷ line) =
    let digit = parse_components components (current ++ c ∷ []) line in
    let dot = parse_components (end_component components current) [] line in
    if is_digit c
    then digit
    else if c == b'.'
    then dot
    else (end_component components current, c ∷ line)

unfoldable pub trim_v : Text → Text
trim_v [] = []
trim_v (c ∷ line) = if c == b'v' then line else c ∷ line

unfoldable pub parse_semver_like : Text → Version
unfolding parse_components trim_v
parse_semver_like line =
    let (components, build) = parse_components [] [] (trim_v line) in
    record {
      leading_v = has_prefix line (codes "v");
      components = components;
      build = build;
      original = line;
    }

-- `fmt.Sprintf("%d", c)`, from the last digit on; `fuel` bounds the number of digits.
unfoldable pub decimal_onto : ℕ → ℕ → Text → Text
decimal_onto zero n out = out
decimal_onto (suc fuel) n out =
    let digit = b'0' + n % 10 in
    let rest = decimal_onto fuel (n / 10) (digit ∷ out) in if ltb n 10 then digit ∷ out else rest

unfoldable pub decimal : ℕ → Text
unfolding decimal_onto
decimal n = decimal_onto (suc n) n []

-- The loop that writes the extra components behind the build.
unfoldable pub write_extra : Text → Components → Text
unfolding decimal
write_extra build [] = build
write_extra build (c ∷ extra) = write_extra (build ++ b'.' ∷ decimal c) extra

unfoldable pub fetch_components_and_build : Version → ℕ → Components × Text
unfolding write_extra
fetch_components_and_build v max_components =
    if leb (length v.components) max_components
    then (v.components, v.build)
    else (take max_components v.components, write_extra v.build (drop max_components v.components))

unfoldable pub parse_semver_like_version : Text → ℕ → Version
unfolding parse_semver_like fetch_components_and_build
parse_semver_like_version line max_components =
    let v = parse_semver_like line in
    let (components, build) = fetch_components_and_build v max_components in
    record {
      leading_v = v.leading_v;
      components = components;
      build = build;
      original = v.original;
    }
