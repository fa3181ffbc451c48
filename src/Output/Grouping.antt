-- ===== src/Output/Grouping.antt =====
-- Which vulnerabilities of a package internal/output/output_result.go shows and which it hides.
use osv_scanner.Prelude.{
  Bool, Bool-cases, List, Option, Text, [], all, any, ap, arith, assign, contains, false,
  if◌then◌else◌, inl, inr, length, lookup, ltb, map, none, not, of_some, refl, some, sym, text_eq,
  text_eq_iff, true, ℕ, ◌&&◌, ◌<◌, ◌||◌, ◌∙◌, ◌∷◌, ◌≡◌,
}
use osv_scanner.Models.{GroupInfo, is_called, is_group_unimportant}
use osv_scanner.Severity.{Cvss}
use osv_scanner.Output.Counts.{
  VulnResult, vuln_type_regular, vuln_type_uncalled, vuln_type_unimportant,
}
use osv_scanner.Output.Vulns.{
  VulnMap, group_result, place_group, process_group, process_vuln_groups,
}

-- The group is called and not unimportant.
abbrev pub is_regular : GroupInfo → Bool
is_regular g = is_called g && not (is_group_unimportant g)

-- The identifier that represents the group.
abbrev pub representative : GroupInfo → Text
representative g = elim (g.ids) [ [] ↦ [] | id ∷ ids ↦ id ]

-- A group of the kind has the representative.
abbrev pub represented : Bool → Text → GroupInfo → Bool
represented regular a g =
    (if regular then is_regular g else not (is_regular g)) && text_eq (representative g) a

abbrev pub keys : VulnMap → List Text
keys m = map (λ (e : Text × VulnResult). e.0) m

-- Each entry stands at its identifier and is in order.
abbrev pub Keyed : (VulnResult → Bool) → VulnMap → Type 0
Keyed ok [] = Unit
Keyed ok ((k, v) ∷ m) = (v.id ≡ k) × (ok v ≡ true) × Keyed ok m

pub contains-assign :
    (k : Text) (v : VulnResult) (m : VulnMap) (a : Text)
    → contains (keys (assign k v m)) a ≡ (text_eq k a || contains (keys m) a)
unfolding assign contains
contains-assign k v [] a = refl
contains-assign k v ((j, w) ∷ m) a =
    ground (arith, contains-assign k v m a, text_eq_iff j k, text_eq_iff k a, text_eq_iff j a)

module _ (ok : VulnResult → Bool) where
  pub Keyed-assign :
      (k : Text) (v : VulnResult) (m : VulnMap)
      → v.id ≡ k
      → ok v ≡ true
      → Keyed ok m
      → Keyed ok (assign k v m)
  unfolding assign
  Keyed-assign k v [] e o h = (e, o, tt)
  Keyed-assign k v ((j, w) ∷ m) e o (here, fine, rest) = elim (Bool-cases (text_eq j k)) [
    | inl same ↦ rw (assign, same) (e ∙ sym ((text_eq_iff j k).0 same), o, rest)
    | inr other_key ↦ rw (assign, other_key) (here, fine, Keyed-assign k v m e o rest)
  ]

  pub lookup-Keyed :
      (k : Text) (m : VulnMap) (r : VulnResult)
      → Keyed ok m
      → lookup k m ≡ some r
      → (r.id ≡ k) × (contains (keys m) k ≡ true)
  unfolding lookup contains
  lookup-Keyed k [] r h e = cc
  lookup-Keyed k ((j, w) ∷ m) r (here, fine, rest) e = elim (Bool-cases (text_eq j k)) [
    | inl same ↦
        of_some (λ (x : VulnResult). (x.id ≡ k) × ((text_eq j k || contains (keys m) k) ≡ true))
          (rw (lookup, same) at e) (here ∙ (text_eq_iff j k).0 same, ground arith)
    | inr other_key ↦
        let (id, member) = lookup-Keyed k m r rest (rw (lookup, other_key) at e) in
        (id, ground arith)
  ]

-- The maps hold what they held and the groups of their kind.
pub record Split (ok : VulnResult → Bool) (gs : List GroupInfo) (maps maps' : VulnMap × VulnMap)
    : Type 0 where
  pub regular_keyed : Keyed ok maps'.0
  pub hidden_keyed : Keyed ok maps'.1
  pub regular_ids :
      (a : Text)
      → contains (keys maps'.0) a ≡ (contains (keys maps.0) a || any (represented true a) gs)
  pub hidden_ids :
      (a : Text)
      → contains (keys maps'.1) a ≡ (contains (keys maps.1) a || any (represented false a) gs)

-- A group of one kind, of which the result is stored.
Split-regular :
    (ok : VulnResult → Bool) (g : GroupInfo) (v : VulnResult) (regular hidden : VulnMap)
    → v.id ≡ representative g
    → ok v ≡ true
    → is_regular g ≡ true
    → Keyed ok regular
    → Keyed ok hidden
    → Split ok (g ∷ []) (regular, hidden) (assign v.id v regular, hidden)
Split-regular ok g v regular hidden e fine shown kr kh = record {
  regular_keyed = Keyed-assign ok v.id v regular refl fine kr;
  hidden_keyed = kh;
  regular_ids =
      λ a. ground (arith, contains-assign v.id v regular a, ap (λ (r : Text). text_eq r a) e);
  hidden_ids = λ a. ground arith;
}

Split-hidden :
    (ok : VulnResult → Bool) (g : GroupInfo) (v : VulnResult) (regular hidden : VulnMap)
    → v.id ≡ representative g
    → ok v ≡ true
    → is_regular g ≡ false
    → Keyed ok regular
    → Keyed ok hidden
    → Split ok (g ∷ []) (regular, hidden) (regular, assign v.id v hidden)
Split-hidden ok g v regular hidden e fine concealed kr kh = record {
  regular_keyed = kr;
  hidden_keyed = Keyed-assign ok v.id v hidden refl fine kh;
  regular_ids = λ a. ground arith;
  hidden_ids =
      λ a. ground (arith, contains-assign v.id v hidden a, ap (λ (r : Text). text_eq r a) e);
}

module _ (parse_float : Text → Option ℕ) (cvss : Cvss) (ok : VulnResult → Bool)
    (fresh : (v : VulnResult) → v.is_fixable ≡ false → ok v ≡ true) where
  place_group-Split :
      (id : Text) (g : GroupInfo) (regular hidden : VulnMap)
      → id ≡ representative g
      → Keyed ok regular
      → Keyed ok hidden
      → Split ok (g ∷ []) (regular, hidden) (place_group parse_float cvss id g (regular, hidden))
  unfolding place_group group_result
  place_group-Split id g regular hidden rep kr kh =
      let v = group_result parse_float cvss id g in
      elim (Bool-cases (is_regular g)) [
        | inl shown ↦
            rw (place_group, shown)
              (Split-regular ok g (record v { vuln_analysis_type = vuln_type_regular }) regular
                hidden rep (fresh _ refl) shown kr kh)
        | inr concealed ↦ elim (Bool-cases (is_group_unimportant g)) [
          | inl minor ↦
              rw (place_group, concealed, minor)
                (Split-hidden ok g (record v { vuln_analysis_type = vuln_type_unimportant }) regular
                  hidden rep (fresh _ refl) concealed kr kh)
          | inr uncalled ↦
              rw (place_group, concealed, uncalled)
                (Split-hidden ok g (record v { vuln_analysis_type = vuln_type_uncalled }) regular
                  hidden rep (fresh _ refl) concealed kr kh)
        ]
      ]

  process_group-Split :
      (g : GroupInfo) (maps : VulnMap × VulnMap)
      → 0 < length g.ids
      → Keyed ok maps.0
      → Keyed ok maps.1
      → (maps' : VulnMap × VulnMap) × (process_group parse_float cvss g maps ≡ some maps')
        × Split ok (g ∷ []) maps maps'
  unfolding process_group
  process_group-Split g maps h kr kh = go g.ids refl h
    where
      place : VulnMap × VulnMap → List Text → Option (VulnMap × VulnMap)
      place maps [] = none
      place maps (id ∷ ids) = some (place_group parse_float cvss id g maps)

      go :
          (ids : List Text)
          → g.ids ≡ ids
          → 0 < length ids
          → (maps' : VulnMap × VulnMap) × (process_group parse_float cvss g maps ≡ some maps')
            × Split ok (g ∷ []) maps maps'
      go [] e h = absurd (omega arith)
      go (id ∷ ids) e h =
          let rep : id ≡ representative g =
            ap (λ (xs : List Text). elim xs [ [] ↦ [] | i ∷ is ↦ i ]) (sym e) in
          (
            place_group parse_float cvss id g maps,
            ap (place maps) e,
            place_group-Split id g maps.0 maps.1 rep kr kh,
          )

  -- Groups with identifiers are split by their kind.
  pub process_vuln_groups-Split :
      (gs : List GroupInfo) (maps : VulnMap × VulnMap)
      → all (λ (g : GroupInfo). ltb 0 (length g.ids)) gs ≡ true
      → Keyed ok maps.0
      → Keyed ok maps.1
      → (maps' : VulnMap × VulnMap) × (process_vuln_groups parse_float cvss gs maps ≡ some maps')
        × Split ok gs maps maps'
  unfolding process_vuln_groups
  process_vuln_groups-Split [] maps h kr kh = (
    maps,
    refl,
    record {
      regular_keyed = kr;
      hidden_keyed = kh;
      regular_ids = λ a. ground arith;
      hidden_ids = λ a. ground arith;
    },
  )
  process_vuln_groups-Split (g ∷ gs) maps h kr kh =
      let (maps1, e1, s1) = process_group-Split g maps (ground arith) kr kh in
      let (maps2, e2, s2) =
        process_vuln_groups-Split gs maps1 (ground arith) s1.regular_keyed s1.hidden_keyed in
      (
        maps2,
        rw (process_vuln_groups, e1) e2,
        record {
          regular_keyed = s2.regular_keyed;
          hidden_keyed = s2.hidden_keyed;
          regular_ids = λ a. ground (arith, s1.regular_ids a, s2.regular_ids a);
          hidden_ids = λ a. ground (arith, s1.hidden_ids a, s2.hidden_ids a);
        },
      )
