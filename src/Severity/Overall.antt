-- ===== src/Severity/Overall.antt =====
-- `CalculateOverallScore` of internal/utility/severity/severity.go.
use osv_scanner.Prelude.{
  &&-eq-true, Bool, Bool-cases, List, Text, [], all, arith, false, inl, inr, none, not, refl, some,
  sym, true, ◌∷◌, ◌≡◌, ◌⊎◌,
}
use osv_scanner.Osv.{Severity}
use osv_scanner.Severity.Defs.{
  Cvss, Score, Scored, calculate_overall_score, calculate_score, overall_from, score_gt,
  unknown_rating,
}

-- No severity of the list has a larger score.
abbrev pub Covers : Cvss → Score → List Severity → Type 0
Covers cvss s [] = Unit
Covers cvss s (x ∷ xs) = (score_gt (calculate_score cvss x).score s ≡ false) × Covers cvss s xs

-- The score and the rating are those of one severity of the list.
abbrev pub Attained : Cvss → Scored → List Severity → Type 0
Attained cvss r [] = ⊥
Attained cvss r (x ∷ xs) =
    (((calculate_score cvss x).score ≡ r.score) × ((calculate_score cvss x).rating ≡ r.rating))
    ⊎ Attained cvss r xs

-- No severity of the list fails to parse.
abbrev pub none_fails : Cvss → List Severity → Bool
none_fails cvss xs = all (λ x. not (calculate_score cvss x).failed) xs

score_gt_trans :
    (a b c : Score) → score_gt a b ≡ false → score_gt b c ≡ false → score_gt a c ≡ false
unfolding score_gt
score_gt_trans none b c h k = refl
score_gt_trans (some a) none c h k = cc
score_gt_trans (some a) (some b) none h k = cc
score_gt_trans (some a) (some b) (some c) h k = ground arith

score_gt_irrefl : (a : Score) → score_gt a a ≡ false
unfolding score_gt
score_gt_irrefl none = refl
score_gt_irrefl (some a) = ground arith

score_gt-asymm : (a b : Score) → score_gt a b ≡ true → score_gt b a ≡ false
unfolding score_gt
score_gt-asymm none b h = cc
score_gt-asymm (some a) none h = refl
score_gt-asymm (some a) (some b) h = ground arith

module _ (cvss : Cvss) where
  overall_from-up :
      (x : Severity) (xs : List Severity) (s : Score) (r : Text)
      → (calculate_score cvss x).failed ≡ false
      → score_gt (calculate_score cvss x).score s ≡ true
      → overall_from cvss s r (x ∷ xs)
        ≡ overall_from cvss (calculate_score cvss x).score (calculate_score cvss x).rating xs
  unfolding overall_from
  overall_from-up x xs s r h up = rw (h, up) refl

  overall_from-same :
      (x : Severity) (xs : List Severity) (s : Score) (r : Text)
      → (calculate_score cvss x).failed ≡ false
      → score_gt (calculate_score cvss x).score s ≡ false
      → overall_from cvss s r (x ∷ xs) ≡ overall_from cvss s r xs
  unfolding overall_from
  overall_from-same x xs s r h same = rw (h, same) refl

  -- The loop has a result that is not an error, is not below its start, covers the list, and is
  -- the start or the score and rating of a severity.
  abbrev Good : Score → Text → List Severity → Scored → Type 0
  Good s r xs o =
      (o.failed ≡ false)
      × (score_gt s o.score ≡ false)
      × Covers cvss o.score xs
      × (((o.score ≡ s) × (o.rating ≡ r)) ⊎ Attained cvss o xs)

  Good-along :
      (s : Score) (r : Text) (xs : List Severity) (o o' : Scored)
      → o ≡ o'
      → Good s r xs o'
      → Good s r xs o
  Good-along s r xs o o' e g = rw e g

  Good-up :
      (x : Severity) (xs : List Severity) (s : Score) (r : Text) (o : Scored)
      → score_gt (calculate_score cvss x).score s ≡ true
      → Good (calculate_score cvss x).score (calculate_score cvss x).rating xs o
      → Good s r (x ∷ xs) o
  Good-up x xs s r o up (fine, above, covers, inl (p, q)) = (
    fine,
    score_gt_trans s (calculate_score cvss x).score o.score (score_gt-asymm _ s up) above,
    (above, covers),
    inr (inl (sym p, sym q)),
  )
  Good-up x xs s r o up (fine, above, covers, inr a) = (
    fine,
    score_gt_trans s (calculate_score cvss x).score o.score (score_gt-asymm _ s up) above,
    (above, covers),
    inr (inr a),
  )

  Good-same :
      (x : Severity) (xs : List Severity) (s : Score) (r : Text) (o : Scored)
      → score_gt (calculate_score cvss x).score s ≡ false
      → Good s r xs o
      → Good s r (x ∷ xs) o
  Good-same x xs s r o same (fine, above, covers, inl e) =
      (fine, above, (score_gt_trans _ s o.score same above, covers), inl e)
  Good-same x xs s r o same (fine, above, covers, inr a) =
      (fine, above, (score_gt_trans _ s o.score same above, covers), inr (inr a))

  overall_from_lem :
      (xs : List Severity) (s : Score) (r : Text)
      → none_fails cvss xs ≡ true
      → Good s r xs (overall_from cvss s r xs)
  unfolding overall_from
  overall_from_lem [] s r h = (refl, score_gt_irrefl s, tt, inl (refl, refl))
  overall_from_lem (x ∷ xs) s r h =
      let (now, later) = &&-eq-true (not (calculate_score cvss x).failed) (none_fails cvss xs) h in
      let new = calculate_score cvss x in
      let fine : new.failed ≡ false = ground arith in
      elim (Bool-cases (score_gt new.score s)) [
        | inl up ↦
            Good-along s r (x ∷ xs) _ _ (overall_from-up x xs s r fine up)
              (Good-up x xs s r _ up (overall_from_lem xs new.score new.rating later))
        | inr same ↦
            Good-along s r (x ∷ xs) _ _ (overall_from-same x xs s r fine same)
              (Good-same x xs s r _ same (overall_from_lem xs s r later))
      ]

  -- If every severity can be scored, the overall score is no error, no severity has a larger one,
  -- and it is the score and rating of one of them, or no score with the rating UNKNOWN.
  pub calculate_overall_score_lem :
      (xs : List Severity)
      → none_fails cvss xs ≡ true
      → let o = calculate_overall_score cvss xs in
        (o.failed ≡ false)
        × Covers cvss o.score xs
        × (((o.score ≡ none) × (o.rating ≡ unknown_rating)) ⊎ Attained cvss o xs)
  unfolding calculate_overall_score
  calculate_overall_score_lem xs h =
      let (fine, above, covers, which) = overall_from_lem xs none unknown_rating h in
      (fine, covers, which)

  -- If some severity cannot be scored, the overall score is an error without a score, whatever the
  -- others say.
  overall_from-failed :
      (xs : List Severity) (s : Score) (r : Text)
      → none_fails cvss xs ≡ false
      → overall_from cvss s r xs ≡ record { score = none; rating = unknown_rating; failed = true }
  unfolding overall_from
  overall_from-failed [] s r h = cc
  overall_from-failed (x ∷ xs) s r h = elim (Bool-cases (calculate_score cvss x).failed) [
    | inl bad ↦ rw bad refl
    | inr fine ↦ rw fine (overall_from-failed xs _ _ (ground arith))
  ]

  -- If some severity cannot be scored, the overall score is an error: no score, the rating UNKNOWN.
  pub calculate_overall_score-failed :
      (xs : List Severity)
      → none_fails cvss xs ≡ false
      → calculate_overall_score cvss xs
        ≡ record { score = none; rating = unknown_rating; failed = true }
  unfolding calculate_overall_score
  calculate_overall_score-failed xs h = overall_from-failed xs none unknown_rating h
