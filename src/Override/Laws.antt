-- ===== src/Override/Laws.antt =====
-- What adding a version to the client of internal/resolution/client/override_client.go does.
use mathlib.Core.Path.{subst}
use osv_scanner.Prelude.{
  Bool, List, Option, Ordering, Text, [], any, ap, arith, assign, false, flip, if◌then◌else◌,
  lookup, lookup-assign, none, refl, some, sym, text_eq, text_eq_refl, true, ◌&&◌, ◌∙◌, ◌∷◌, ◌≡◌,
}
use osv_scanner.Override.{
  OverrideClient, ResolveVersion, add_version, insert_version, requirements, versions, versions_of,
}

-- What is answered for a key, from what is found at it.
abbrev answer : {A B : Type 0} → (B → A) → A → Option B → A
answer found behind none = behind
answer found behind (some b) = found b

answer_if :
    {A B : Type 0} (found : B → A) (behind : A) (t : Bool) (b : B) (o : Option B)
    → answer found behind (if t then some b else o) ≡ (if t then found b else answer found behind o)
answer_if found behind true b o = refl
answer_if found behind false b o = refl

module _ (compare_versions : Text → Text → Ordering) where
  abbrev pub is_before : ResolveVersion → ResolveVersion → Bool
  is_before v w = elim (compare_versions v.version w.version) [ Ordering.lt ↦ true | _ ↦ false ]

  abbrev pub in_sequence_from : ResolveVersion → List ResolveVersion → Bool
  in_sequence_from v [] = true
  in_sequence_from v (w ∷ ws) = is_before v w && in_sequence_from w ws

  -- Each version is less than the next one.
  abbrev pub in_sequence : List ResolveVersion → Bool
  in_sequence [] = true
  in_sequence (v ∷ vs) = in_sequence_from v vs

  abbrev pub is_same : ResolveVersion → ResolveVersion → Bool
  is_same v w = elim (compare_versions w.version v.version) [ Ordering.eq ↦ true | _ ↦ false ]

  module _ (flips : (a b : Text) → compare_versions b a ≡ flip (compare_versions a b))
      (refls : (a : Text) → compare_versions a a ≡ Ordering.eq) where
    in_sequence_from-insert_version :
        (u v : ResolveVersion) (ws : List ResolveVersion)
        → is_before u v ≡ true
        → in_sequence_from u ws ≡ true
        → in_sequence_from u (insert_version compare_versions v ws) ≡ true
    unfolding insert_version
    in_sequence_from-insert_version u v [] h k = ground arith
    in_sequence_from-insert_version u v (w ∷ ws) h k =
        ground (arith, flips w.version v.version, in_sequence_from-insert_version w v ws)

    in_sequence-insert_version :
        (v : ResolveVersion) (ws : List ResolveVersion)
        → in_sequence ws ≡ true
        → in_sequence (insert_version compare_versions v ws) ≡ true
    unfolding insert_version
    in_sequence-insert_version v [] h = refl
    in_sequence-insert_version v (w ∷ ws) h =
        ground (arith, flips w.version v.version, in_sequence_from-insert_version w v ws)

    any-insert_version :
        (v : ResolveVersion) (ws : List ResolveVersion)
        → any (is_same v) (insert_version compare_versions v ws) ≡ true
    unfolding insert_version
    any-insert_version v [] = ground (arith, refls v.version)
    any-insert_version v (w ∷ ws) = ground (arith, refls v.version, any-insert_version v ws)

    -- After a version is added, its requirements are those that were given and those of other
    -- versions are as before; the versions of its package, were they increasing, are increasing and
    -- have one that is as great; and those of other packages are as before.
    pub add_version_lem :
        {A : Type 0} (found : List ResolveVersion → A) (found_deps : List Text → A) (behind : A)
        (c : OverrideClient) (v : ResolveVersion) (deps : List Text)
        → let c' = add_version compare_versions v deps c in
          in_sequence (versions_of v.package_key c.pkg_vers) ≡ true
          → ((vk : Text)
              → requirements found_deps behind vk c' ≡ (
                  if text_eq v.version_key vk
                  then found_deps deps
                  else requirements found_deps behind vk c))
            × (in_sequence (versions_of v.package_key c'.pkg_vers) ≡ true)
            × (any (is_same v) (versions_of v.package_key c'.pkg_vers) ≡ true)
            × ((pk : Text)
                → text_eq v.package_key pk ≡ false
                → versions found behind pk c' ≡ versions found behind pk c)
    unfolding add_version requirements versions
    add_version_lem found found_deps behind c v deps h =
        let inserted = insert_version compare_versions v (versions_of v.package_key c.pkg_vers) in
        let at_own : lookup v.package_key (assign v.package_key inserted c.pkg_vers)
            ≡ some inserted =
          lookup-assign v.package_key v.package_key inserted c.pkg_vers
          ∙ rw (text_eq_refl v.package_key) refl in
        let own : versions_of v.package_key (assign v.package_key inserted c.pkg_vers) ≡ inserted =
          ap (answer (λ vs. vs) []) at_own in
        (
          λ vk.
              ap (answer found_deps behind) (lookup-assign v.version_key vk deps c.ver_deps)
              ∙ answer_if found_deps behind (text_eq v.version_key vk) deps (lookup vk c.ver_deps),
          subst (λ vs. in_sequence vs ≡ true) (sym own)
              (in_sequence-insert_version v (versions_of v.package_key c.pkg_vers) h),
          subst (λ vs. any (is_same v) vs ≡ true) (sym own)
              (any-insert_version v (versions_of v.package_key c.pkg_vers)),
          λ pk apart.
              ap (answer found behind) (lookup-assign v.package_key pk inserted c.pkg_vers)
              ∙ answer_if found behind (text_eq v.package_key pk) inserted (lookup pk c.pkg_vers)
              ∙ rw apart refl,
        )
