-- ===== src/Grouper/Merge.antt =====
-- The pairwise comparison of `Group` in internal/grouper/grouper.go joins only vulnerabilities that
-- a chain of shared identifiers links.
use native.Mathlib.Decide.{dec_lt}
use mathlib.Core.Path.{subst}
use osv_scanner.Prelude.{
  ==_iff, Bool, Bool-cases, List, [], ap, arith, drop, false, get_elem?, get_or, if◌then◌else◌, inl,
  inr, length, min, refl, set, some, suc, sym, true, zero, ℕ, ◌+◌, ◌<◌, ◌==◌, ◌||◌, ◌∙◌, ◌∷◌, ◌≡◌,
  ◌≤◌, ◌⊎◌,
}
use osv_scanner.Grouper.Defs.{
  IdAliases, has_alias_intersection, merge_pair, merge_row, merge_rows, merged, own_groups,
}

-- The vulnerabilities at two indices are linked by a chain of alias intersections.
pub data Linked (vulns : List IdAliases) : ℕ → ℕ → Type 0 where
  here : (i : ℕ) → Linked vulns i i
  link :
      {i j : ℕ} {a b : IdAliases}
      → get_elem? vulns i ≡ some a
      → get_elem? vulns j ≡ some b
      → has_alias_intersection a b ≡ true
      → Linked vulns i j
  back : {i j : ℕ} → Linked vulns i j → Linked vulns j i
  chain : {i j k : ℕ} → Linked vulns i j → Linked vulns j k → Linked vulns i k

-- Every index has a group, which is an index no larger, at a linked vulnerability.
pub record Grouped (vulns : List IdAliases) (groups : List ℕ) : Type 0 where
  pub size : length groups ≡ length vulns
  pub below : (k : ℕ) → k < length vulns → get_or groups k 0 ≤ k
  pub linked : (k : ℕ) → k < length vulns → Linked vulns k (get_or groups k 0)

length-set : {A : Type 0} (xs : List A) (i : ℕ) (v : A) → length (set xs i v) ≡ length xs
length-set [] i v = refl
length-set (x ∷ xs) zero v = refl
length-set (x ∷ xs) (suc i) v = ap suc (length-set xs i v)

get_or-set :
    (xs : List ℕ) (i k v : ℕ)
    → i < length xs
    → get_or (set xs i v) k 0 ≡ (if i == k then v else get_or xs k 0)
get_or-set [] i k v h = elim h [ ]
get_or-set (x ∷ xs) zero zero v h = refl
get_or-set (x ∷ xs) zero (suc k) v h = ground arith
get_or-set (x ∷ xs) (suc i) zero v h = ground arith
get_or-set (x ∷ xs) (suc i) (suc k) v h = get_or-set xs i k v (omega arith) ∙ ground arith

-- The value that `merge_pair` leaves at an index.
get_or-merge_pair :
    (vi vj : IdAliases) (i j k : ℕ) (groups : List ℕ)
    → i < length groups
    → j < length groups
    → has_alias_intersection vi vj ≡ true
    → get_or (merge_pair vi vj i j groups) k 0 ≡ (
        if i == k || j == k then min (get_or groups i 0) (get_or groups j 0) else get_or groups k 0)
unfolding merge_pair
get_or-merge_pair vi vj i j k groups hi hj h =
    let m = min (get_or groups i 0) (get_or groups j 0) in
    let at_i = get_or-set groups i i m hi in
    let at_k = get_or-set groups i k m hi in
    let last =
      get_or-set (set groups i m) j k (get_or (set groups i m) i 0)
        (omega (arith, length-set groups i m)) in
    ground (arith, at_i, at_k, last)

merge_pair_unlinked :
    (vi vj : IdAliases) (i j : ℕ) (groups : List ℕ)
    → has_alias_intersection vi vj ≡ false
    → merge_pair vi vj i j groups ≡ groups
unfolding merge_pair
merge_pair_unlinked vi vj i j groups h = rw h

length-merge_pair :
    (vi vj : IdAliases) (i j : ℕ) (groups : List ℕ)
    → length (merge_pair vi vj i j groups) ≡ length groups
unfolding merge_pair
length-merge_pair vi vj i j groups = elim (Bool-cases (has_alias_intersection vi vj)) [
  | inl h ↦ rw h (length-set _ j _ ∙ length-set groups i _)
  | inr h ↦ rw h
]

pick :
    (b c : Bool) (P : ℕ → Type 0) {m x : ℕ}
    → (b ≡ true → P m)
    → (c ≡ true → P m)
    → P x
    → P (if b || c then m else x)
pick true c P p q r = p refl
pick false true P p q r = q refl
pick false false P p q r = r

min_cases : (a b : ℕ) → (min a b ≡ a) ⊎ (min a b ≡ b)
min_cases a b = elim (dec_lt a b) [ yes h ↦ inl (omega arith) | no h ↦ inr (omega arith) ]

module _ (vulns : List IdAliases) where
  -- One comparison that finds a shared identifier.
  module _ (vi vj : IdAliases) (i j : ℕ) (groups : List ℕ) (ei : get_elem? vulns i ≡ some vi)
      (ej : get_elem? vulns j ≡ some vj) (lt : i < j) (hj : j < length vulns)
      (g : Grouped vulns groups) (shared : has_alias_intersection vi vj ≡ true) where
    Linked-min :
        Linked vulns i (min (get_or groups i 0) (get_or groups j 0))
        × Linked vulns j (min (get_or groups i 0) (get_or groups j 0))
    Linked-min =
        let ij : Linked vulns i j = link ei ej shared in
        let at_i = g.linked i (omega arith) in
        let at_j = g.linked j hj in
        elim (min_cases (get_or groups i 0) (get_or groups j 0)) [
          | inl e ↦ rw e (at_i, chain (back ij) at_i)
          | inr e ↦ rw e (chain ij at_j, at_j)
        ]

    merged-Linked' :
        (k : ℕ) → k < length vulns → Linked vulns k (get_or (merge_pair vi vj i j groups) k 0)
    merged-Linked' k hk =
        rw
          (get_or-merge_pair vi vj i j k groups (omega (arith, g.size)) (omega (arith, g.size))
            shared)
          (pick (i == k) (j == k) (Linked vulns k)
            (λ e.
              subst (λ t. Linked vulns t (min (get_or groups i 0) (get_or groups j 0)))
                ((==_iff i k).0 e) Linked-min.0)
            (λ e.
              subst (λ t. Linked vulns t (min (get_or groups i 0) (get_or groups j 0)))
                ((==_iff j k).0 e) Linked-min.1)
            (g.linked k hk))

    merged_below : (k : ℕ) → k < length vulns → get_or (merge_pair vi vj i j groups) k 0 ≤ k
    merged_below k hk = ground (
      arith,
      get_or-merge_pair vi vj i j k groups (omega (arith, g.size)) (omega (arith, g.size)) shared,
      g.below i (omega arith),
      g.below j hj,
      g.below k hk,
    )

  merge_pair-Grouped :
      (vi vj : IdAliases) (i j : ℕ) (groups : List ℕ)
      → get_elem? vulns i ≡ some vi
      → get_elem? vulns j ≡ some vj
      → i < j
      → j < length vulns
      → Grouped vulns groups
      → Grouped vulns (merge_pair vi vj i j groups)
  merge_pair-Grouped vi vj i j groups ei ej lt hj g =
      elim (Bool-cases (has_alias_intersection vi vj)) [
        | inl h ↦ record {
          size = length-merge_pair vi vj i j groups ∙ g.size;
          below = merged_below vi vj i j groups ei ej lt hj g h;
          linked = merged-Linked' vi vj i j groups ei ej lt hj g h;
        }
        | inr h ↦ rw (merge_pair_unlinked vi vj i j groups h) g
      ]

  -- The vulnerabilities from `j` on are `v` and `rest`.
  drop-cons :
      (vs : List IdAliases) (j : ℕ) {v : IdAliases} {rest : List IdAliases}
      → drop j vs ≡ v ∷ rest
      → (get_elem? vs j ≡ some v) × (drop (suc j) vs ≡ rest) × (j < length vs)
  drop-cons [] zero e = cc
  drop-cons [] (suc j) e = cc
  drop-cons (w ∷ ws) zero e = (cc, cc, omega arith)
  drop-cons (w ∷ ws) (suc j) e = let (a, b, c) = drop-cons ws j e in (a, b, omega arith)

  merge_row-Grouped :
      (vi : IdAliases) (i j : ℕ) (rest : List IdAliases) (groups : List ℕ)
      → get_elem? vulns i ≡ some vi
      → drop j vulns ≡ rest
      → i < j
      → Grouped vulns groups
      → Grouped vulns (merge_row vi i j rest groups)
  unfolding merge_row
  merge_row-Grouped vi i j [] groups ei d lt g = g
  merge_row-Grouped vi i j (vj ∷ rest) groups ei d lt g =
      let (ej, d', hj) = drop-cons vulns j d in
      merge_row-Grouped vi i (suc j) rest _ ei d' (omega arith)
        (merge_pair-Grouped vi vj i j groups ei ej lt hj g)

  merge_rows-Grouped :
      (i : ℕ) (rest : List IdAliases) (groups : List ℕ)
      → drop i vulns ≡ rest
      → Grouped vulns groups
      → Grouped vulns (merge_rows i rest groups)
  unfolding merge_rows
  merge_rows-Grouped i [] groups d g = g
  merge_rows-Grouped i (vi ∷ rest) groups d g =
      let (ei, d', hi) = drop-cons vulns i d in
      merge_rows-Grouped (suc i) rest _ d'
        (merge_row-Grouped vi i (suc i) rest groups ei d' (omega arith) g)

length-own_groups : (i : ℕ) (vs : List IdAliases) → length (own_groups i vs) ≡ length vs
unfolding own_groups
length-own_groups i [] = refl
length-own_groups i (v ∷ vs) = ap suc (length-own_groups (suc i) vs)

get_or-own_groups :
    (i : ℕ) (vs : List IdAliases) (k : ℕ) → k < length vs → get_or (own_groups i vs) k 0 ≡ i + k
unfolding own_groups
get_or-own_groups i [] k h = elim h [ ]
get_or-own_groups i (v ∷ vs) zero h = omega arith
get_or-own_groups i (v ∷ vs) (suc k) h = get_or-own_groups (suc i) vs k (omega arith) ∙ omega arith

-- Behind the comparison every vulnerability has a group, which is an index no larger than its own
-- and belongs to a vulnerability that a chain of alias intersections links to it.
pub merged-Grouped : (vulns : List IdAliases) → Grouped vulns (merged vulns)
unfolding merged
merged-Grouped vulns =
    let at = get_or-own_groups 0 vulns in
    merge_rows-Grouped vulns 0 vulns _ refl (record {
      size = length-own_groups 0 vulns;
      below = λ k h. omega (arith, at k h);
      linked = λ k h. subst (Linked vulns k) (sym (at k h ∙ omega arith)) (here k);
    })

-- Two vulnerabilities with the same group are linked by a chain of alias intersections.
pub merged-Linked :
    (vulns : List IdAliases) (i j : ℕ)
    → i < length vulns
    → j < length vulns
    → get_or (merged vulns) i 0 ≡ get_or (merged vulns) j 0
    → Linked vulns i j
merged-Linked vulns i j hi hj e =
    let g = merged-Grouped vulns in chain (rw e at (g.linked i hi)) (back (g.linked j hj))
