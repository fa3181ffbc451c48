-- ===== src/Output/Best.antt =====
-- The loops of internal/output/output_result.go that look for the least and the greatest version:
-- both keep a version, which is the sentinel before the first one, and replace it by a better one.
use mathlib.Core.Path.{subst}
use osv_scanner.Prelude.{
  Bool, Bool-cases, List, Text, [], all, ap, arith, contains, false, if◌then◌else◌, inl, inr,
  length, ltb, not, refl, sym, text_eq, text_eq_comm, text_eq_iff, text_eq_refl, true, ◌++◌, ◌||◌,
  ◌∙◌, ◌∷◌, ◌≡◌, ◌⊎◌,
}

abbrev pub is_other : Text → Text → Bool
is_other sentinel c = not (text_eq c sentinel)

module _ (sentinel : Text) (better : Text → Text → Bool) where
  unfoldable pub best : Text → List Text → Text
  best cur [] = cur
  best cur (c ∷ cs) = best (if text_eq cur sentinel || better c cur then c else cur) cs

  pub best-append : (cur : Text) (cs ds : List Text) → best cur (cs ++ ds) ≡ best (best cur cs) ds
  unfolding best
  best-append cur [] ds = refl
  best-append cur (c ∷ cs) ds =
      best-append (if text_eq cur sentinel || better c cur then c else cur) cs ds

  -- What holds of the versions holds of the result.
  pub all-best :
      (p : Text → Bool) (cur : Text) (cs : List Text)
      → p cur ≡ true
      → all p cs ≡ true
      → p (best cur cs) ≡ true
  unfolding best
  all-best p cur [] h k = h
  all-best p cur (c ∷ cs) h k = elim (Bool-cases (text_eq cur sentinel || better c cur)) [
    | inl e ↦ rw e (all-best p c cs (ground arith) (ground arith))
    | inr e ↦ rw e (all-best p cur cs h (ground arith))
  ]

  module _ (trans : (a b c : Text) → better a b ≡ true → better b c ≡ true → better a c ≡ true)
      (irrefl : (a : Text) → better a a ≡ false) where
    -- A result is the version that the loop starts with, or better.
    abbrev AtLeast : Text → Text → Type 0
    AtLeast r cur = (r ≡ cur) ⊎ (better r cur ≡ true)

    best-AtLeast :
        (cs : List Text) (cur : Text)
        → is_other sentinel cur ≡ true
        → all (is_other sentinel) cs ≡ true
        → AtLeast (best cur cs) cur
    unfolding best
    best-AtLeast [] cur h k = inl refl
    best-AtLeast (c ∷ cs) cur h k = elim (Bool-cases (better c cur)) [
      | inl e ↦
          let same : (text_eq cur sentinel || better c cur) ≡ true = ground arith in
          rw (best, same)
            (elim (best-AtLeast cs c (ground arith) (ground arith)) [
              | inl r ↦ inr (rw r e)
              | inr r ↦ inr (trans _ _ _ r e)
            ])
      | inr e ↦
          let same : (text_eq cur sentinel || better c cur) ≡ false = ground arith in
          rw (best, same) (best-AtLeast cs cur h (ground arith))
    ]

    -- What is not better than a version is not better than a result that is at least it.
    not_better_of : (c r cur : Text) → AtLeast r cur → better c cur ≡ false → better c r ≡ false
    not_better_of c r cur (inl e) h = rw e h
    not_better_of c r cur (inr e) h = elim (Bool-cases (better c r)) [
      | inl k ↦ absurd (ground (arith, trans c r cur k e))
      | inr k ↦ k
    ]

    -- A version that the loop starts with or meets, and no version that it meets is better.
    abbrev Found : Text → List Text → Text → Type 0
    Found cur cs r =
        ((text_eq r cur || contains cs r) ≡ true) × (all (λ c. not (better c r)) cs ≡ true)

    Found-later :
        (cur c r : Text) (cs : List Text) → better c r ≡ false → Found c cs r → Found cur (c ∷ cs) r
    unfolding contains
    Found-later cur c r cs h (member, rest) = (ground (arith, text_eq_comm c r), ground arith)

    Found-still :
        (cur c r : Text) (cs : List Text)
        → better c r ≡ false
        → Found cur cs r
        → Found cur (c ∷ cs) r
    unfolding contains
    Found-still cur c r cs h (member, rest) = (ground arith, ground arith)

    best-Found :
        (cs : List Text) (cur : Text)
        → is_other sentinel cur ≡ true
        → all (is_other sentinel) cs ≡ true
        → Found cur cs (best cur cs)
    unfolding best contains
    best-Found [] cur h k = (rw (text_eq_refl cur) refl, refl)
    best-Found (c ∷ cs) cur h k = elim (Bool-cases (better c cur)) [
      | inl e ↦
          let replaced : (text_eq cur sentinel || better c cur) ≡ true = ground arith in
          let step : best cur (c ∷ cs) ≡ best c cs =
            ap (λ b. best (if b then c else cur) cs) replaced in
          let at_least = best-AtLeast cs c (ground arith) (ground arith) in
          subst (Found cur (c ∷ cs)) (sym step) (
            Found-later cur c (best c cs) cs (not_better_of c (best c cs) c at_least (irrefl c))
              (best-Found cs c (ground arith) (ground arith)))
      | inr e ↦
          let kept : (text_eq cur sentinel || better c cur) ≡ false = ground arith in
          let step : best cur (c ∷ cs) ≡ best cur cs =
            ap (λ b. best (if b then c else cur) cs) kept in
          let at_least = best-AtLeast cs cur h (ground arith) in
          subst (Found cur (c ∷ cs)) (sym step) (
            Found-still cur c (best cur cs) cs (not_better_of c (best cur cs) cur at_least e)
              (best-Found cs cur h (ground arith)))
    ]

  is_other_of_contained :
      (cs : List Text) (r : Text)
      → all (is_other sentinel) cs ≡ true
      → contains cs r ≡ true
      → is_other sentinel r ≡ true
  unfolding contains
  is_other_of_contained [] r h k = cc
  is_other_of_contained (c ∷ cs) r h k = elim (Bool-cases (text_eq c r)) [
    | inl e ↦
        let same = (text_eq_iff c r).0 e in
        subst (λ x. is_other sentinel x ≡ true) same (ground arith)
    | inr e ↦ is_other_of_contained cs r (ground arith) (ground arith)
  ]

  -- Of versions that are not the sentinel, one is found exactly if there are any, and none is better.
  abbrev pub IsBest : List Text → Text → Type 0
  IsBest cs r =
      (contains cs r ≡ ltb 0 (length cs))
      × (all (λ c. not (better c r)) cs ≡ true)
      × (is_other sentinel r ≡ ltb 0 (length cs))

  pub best-IsBest :
      ((a b c : Text) → better a b ≡ true → better b c ≡ true → better a c ≡ true)
      → ((a : Text) → better a a ≡ false)
      → (cs : List Text) → all (is_other sentinel) cs ≡ true
      → IsBest cs (best sentinel cs)
  unfolding best contains
  best-IsBest trans irrefl [] h = (refl, refl, ground (arith, text_eq_refl sentinel))
  best-IsBest trans irrefl (c ∷ cs) h =
      let step : best sentinel (c ∷ cs) ≡ best c cs =
        ap (λ b. best (if b || better c sentinel then c else sentinel) cs)
          (text_eq_refl sentinel) in
      let found = best-Found trans irrefl cs c (ground arith) (ground arith) in
      let at_least = best-AtLeast trans irrefl cs c (ground arith) (ground arith) in
      let first = not_better_of trans irrefl c (best c cs) c at_least (irrefl c) in
      let (member, rest) = Found-later trans irrefl sentinel c (best c cs) cs first found in
      let among : contains (c ∷ cs) (best c cs) ≡ true =
        ground (arith, found.0, text_eq_comm c (best c cs)) in
      let nonempty : true ≡ ltb 0 (length (c ∷ cs)) = ground arith in
      subst (IsBest (c ∷ cs)) (sym step)
        (among ∙ nonempty, rest, is_other_of_contained (c ∷ cs) (best c cs) h among ∙ nonempty)
