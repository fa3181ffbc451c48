-- ===== src/Semverlike/Compare.antt =====
-- `Components.Cmp` of internal/utility/semverlike/version-semver-like.go is an order on the
-- components, with missing ones read as zero.
use native.Mathlib.Decide.{dec_lt}
use osv_scanner.Identifiers.Order.{IsComparator}
use osv_scanner.Prelude.{
  Ordering, ap, arith, flip, length, max, refl, suc, sym, zero, ℕ, ◌+◌, ◌-◌, ◌<◌, ◌↔◌, ◌∙◌, ◌≡◌,
  ◌≤◌,
}
use osv_scanner.Semverlike.Defs.{Components, cmp, cmp_from, fetch}

fetch_beyond : (a : Components) (i : ℕ) → length a ≤ i → fetch a i ≡ 0
unfolding fetch
fetch_beyond a i h = ground arith

cmp_from-flip : (left i : ℕ) (a b : Components) → cmp_from left i b a ≡ flip (cmp_from left i a b)
unfolding cmp_from
cmp_from-flip zero i a b = refl
cmp_from-flip (suc left) i a b = ground (arith, cmp_from-flip left (suc i) a b)

-- Rounds beyond both lengths change nothing.
cmp_from_beyond :
    (left i : ℕ) (a b : Components)
    → length a ≤ i
    → length b ≤ i
    → cmp_from left i a b ≡ Ordering.eq
unfolding cmp_from
cmp_from_beyond zero i a b h k = refl
cmp_from_beyond (suc left) i a b h k =
    ground (arith, cmp_from_beyond left (suc i) a b, fetch_beyond a i h, fetch_beyond b i k)

cmp_from_enough :
    (left more i : ℕ) (a b : Components)
    → length a ≤ i + left
    → length b ≤ i + left
    → cmp_from (left + more) i a b ≡ cmp_from left i a b
unfolding cmp_from
cmp_from_enough zero more i a b h k = cmp_from_beyond (0 + more) i a b (omega arith) (omega arith)
cmp_from_enough (suc left) more i a b h k =
    let rounds : suc left + more ≡ suc (left + more) = omega arith in
    rw rounds (ground (arith, cmp_from_enough left more (suc i) a b))

cmp_from-tail :
    (left i : ℕ) (a b : Components)
    → cmp_from (suc left) i a b ≡ Ordering.eq
    → (fetch a i ≡ fetch b i) × (cmp_from left (suc i) a b ≡ Ordering.eq)
unfolding cmp_from
cmp_from-tail left i a b h = ground arith

cmp_from-cons :
    (left i : ℕ) (a b : Components)
    → fetch a i ≡ fetch b i
    → cmp_from left (suc i) a b ≡ Ordering.eq
    → cmp_from (suc left) i a b ≡ Ordering.eq
unfolding cmp_from
cmp_from-cons left i a b h k = ground arith

cmp_from-eq_iff :
    (left i : ℕ) (a b : Components)
    → (cmp_from left i a b ≡ Ordering.eq) ↔ ((k : ℕ) → i ≤ k → k < i + left → fetch a k ≡ fetch b k)
cmp_from-eq_iff zero i a b = (λ _ k h l. absurd (omega arith), λ _. unfold cmp_from in refl)
cmp_from-eq_iff (suc left) i a b = (
  λ h k lo hi.
      let (now, later) = cmp_from-tail left i a b h in
      elim (dec_lt i k) [
        | yes lt ↦ (cmp_from-eq_iff left (suc i) a b).0 later k (omega arith) (omega arith)
        | no n ↦ let here : i ≡ k = omega arith in rw here at now
      ],
  λ all_eq.
      cmp_from-cons left i a b (all_eq i (omega arith) (omega arith))
        ((cmp_from-eq_iff left (suc i) a b).1 (λ k lo hi. all_eq k (omega arith) (omega arith))),
)

cmp_from_trans :
    (left i : ℕ) (a b c : Components)
    → cmp_from left i a b ≡ Ordering.lt
    → cmp_from left i b c ≡ Ordering.lt
    → cmp_from left i a c ≡ Ordering.lt
unfolding cmp_from
cmp_from_trans zero i a b c h k = cc
cmp_from_trans (suc left) i a b c h k = ground (arith, cmp_from_trans left (suc i) a b c)

-- Any number of rounds that covers both lengths compares alike.
cmp_rounds : (n : ℕ) (a b : Components) → length a ≤ n → length b ≤ n → cmp a b ≡ cmp_from n 0 a b
unfolding cmp
cmp_rounds n a b h k =
    let m = max (length a) (length b) in
    let rounds : m + (n - m) ≡ n = omega arith in
    sym (
      ap (λ t. cmp_from t 0 a b) (sym rounds)
      ∙ cmp_from_enough m (n - m) 0 a b (omega arith) (omega arith))

-- `Cmp` answers 0 exactly when all components are equal, those that one side lacks being 0.
cmp-eq_iff : (a b : Components) → (cmp a b ≡ Ordering.eq) ↔ ((k : ℕ) → fetch a k ≡ fetch b k)
unfolding cmp
cmp-eq_iff a b =
    let m = max (length a) (length b) in
    (
      λ h k. elim (dec_lt k m) [
        | yes lt ↦ (cmp_from-eq_iff m 0 a b).0 h k (omega arith) (omega arith)
        | no n ↦ fetch_beyond a k (omega arith) ∙ sym (fetch_beyond b k (omega arith))
      ],
      λ all_eq. (cmp_from-eq_iff m 0 a b).1 (λ k _ _. all_eq k),
    )

cmp-flip : (a b : Components) → cmp b a ≡ flip (cmp a b)
cmp-flip a b =
    let n = length a + length b in
    rw (cmp_rounds n a b (omega arith) (omega arith), cmp_rounds n b a (omega arith) (omega arith))
      (cmp_from-flip n 0 a b)

cmp_trans :
    (a b c : Components) → cmp a b ≡ Ordering.lt → cmp b c ≡ Ordering.lt → cmp a c ≡ Ordering.lt
cmp_trans a b c h k =
    let n = length a + length b + length c in
    cmp_rounds n a c (omega arith) (omega arith)
    ∙ cmp_from_trans n 0 a b c (sym (cmp_rounds n a b (omega arith) (omega arith)) ∙ h)
        (sym (cmp_rounds n b c (omega arith) (omega arith)) ∙ k)

-- `Cmp` flips with its arguments and is transitive, also between versions of different lengths.
pub cmp-IsComparator : IsComparator cmp
cmp-IsComparator = record { flips = cmp-flip; trans = cmp_trans }
