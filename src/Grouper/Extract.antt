-- ===== src/Grouper/Extract.antt =====
-- The maps that `Group` of internal/grouper/grouper.go fills lose no identifier, and its last loop
-- sorts and removes duplicates.
use osv_scanner.Models.{GroupInfo}
use osv_scanner.Grouper.Merge.{merged-Grouped}
use osv_scanner.Identifiers.Order.{id_sort_func-flip}
use osv_scanner.Identifiers.{id_sort_func}
use osv_scanner.Prelude.{
  Bool, List, Text, [], any, arith, compare, contains, contains-append, contains-compact,
  contains-sort_by, count, false, if◌then◌else◌, is_increasing, is_increasing-compact, is_sorted,
  is_sorted-sort_by, length, map, not, or_of_right, refl, sort_by, text_cmp, text_cmp-flip, text_eq,
  total, total-append, total-sort_by, true, ℕ, ◌&&◌, ◌++◌, ◌+◌, ◌==◌, ◌∙◌, ◌∷◌, ◌≡◌,
}
use osv_scanner.Grouper.Defs.{
  Buckets, IdAliases, append_at, bucket, extract, group, group_at, keys, merged,
}

-- How often `a` stands in the buckets, and in the buckets read through a list of keys.
abbrev held : Text → Buckets → ℕ
held a m = total (λ (b : ℕ × List Text). count a b.1) m

abbrev read : Text → Buckets → List ℕ → ℕ
read a m ks = total (λ k. count a (bucket k m)) ks

-- No key stands twice.
abbrev fresh : ℕ → Buckets → Bool
fresh k m = not (any (λ j. j == k) (keys m))

abbrev distinct : Buckets → Bool
distinct [] = true
distinct ((k, xs) ∷ m) = fresh k m && distinct m

held-append_at :
    (a : Text) (key : ℕ) (xs : List Text) (m : Buckets)
    → held a (append_at key xs m) ≡ held a m + count a xs
unfolding append_at
held-append_at a key xs [] = omega arith
held-append_at a key xs ((k, ys) ∷ m) =
    ground
      (arith, held-append_at a key xs m, total-append (λ x. if text_eq x a then 1 else 0) ys xs)

fresh-append_at :
    (k key : ℕ) (xs : List Text) (m : Buckets)
    → fresh k m ≡ true
    → (key == k) ≡ false
    → fresh k (append_at key xs m) ≡ true
unfolding append_at keys
fresh-append_at k key xs [] h ne = ground arith
fresh-append_at k key xs ((j, ys) ∷ m) h ne = ground (arith, fresh-append_at k key xs m)

distinct-append_at :
    (key : ℕ) (xs : List Text) (m : Buckets)
    → distinct m ≡ true
    → distinct (append_at key xs m) ≡ true
unfolding append_at keys
distinct-append_at key xs [] h = refl
distinct-append_at key xs ((j, ys) ∷ m) h =
    ground (arith, distinct-append_at key xs m, fresh-append_at j key xs m)

read-cons :
    (a : Text) (k : ℕ) (xs : List Text) (m : Buckets) (ks : List ℕ)
    → any (λ j. j == k) ks ≡ false
    → read a ((k, xs) ∷ m) ks ≡ read a m ks
unfolding bucket
read-cons a k xs m [] h = refl
read-cons a k xs m (j ∷ ks) h = ground (arith, read-cons a k xs m ks)

bucket-head : (k : ℕ) (xs : List Text) (m : Buckets) → bucket k ((k, xs) ∷ m) ≡ xs
unfolding bucket
bucket-head k xs m = ground arith

read-keys : (a : Text) (m : Buckets) → distinct m ≡ true → read a m (keys m) ≡ held a m
unfolding keys
read-keys a [] h = refl
read-keys a ((k, xs) ∷ m) h =
    ground (arith, read-cons a k xs m (keys m), read-keys a m, bucket-head k xs m)

held-extract :
    (a : Text) (gids : List ℕ) (vs : List IdAliases) (gs as' : Buckets)
    → length gids ≡ length vs
    → held a (extract gids vs gs as').0 ≡ held a gs + count a (map (λ v. v.id) vs)
unfolding extract
held-extract a [] [] gs as' h = omega arith
held-extract a [] (v ∷ vs) gs as' h = absurd (omega arith)
held-extract a (gid ∷ gids) [] gs as' h = absurd (omega arith)
held-extract a (gid ∷ gids) (v ∷ vs) gs as' h = omega (
  arith,
  held-extract a gids vs (append_at gid (v.id ∷ []) gs) (append_at gid v.aliases as'),
  held-append_at a gid (v.id ∷ []) gs,
)

extract-distinct :
    (gids : List ℕ) (vs : List IdAliases) (gs as' : Buckets)
    → distinct gs ≡ true
    → distinct (extract gids vs gs as').0 ≡ true
unfolding extract
extract-distinct [] vs gs as' h = h
extract-distinct (gid ∷ gids) [] gs as' h = h
extract-distinct (gid ∷ gids) (v ∷ vs) gs as' h =
    extract-distinct gids vs _ _ (distinct-append_at gid (v.id ∷ []) gs h)

-- The identifiers of all groups.
abbrev pub all_ids : List GroupInfo → List Text
all_ids [] = []
all_ids (g ∷ gs) = g.ids ++ all_ids gs

all_ids-read :
    (a : Text) (gs as' : Buckets) (ks : List ℕ)
    → count a (all_ids (map (group_at gs as') ks)) ≡ read a gs ks
unfolding group_at
all_ids-read a gs as' [] = refl
all_ids-read a gs as' (k ∷ ks) =
    let weight : Text → ℕ = λ x. if text_eq x a then 1 else 0 in
    omega (
      arith,
      all_ids-read a gs as' ks,
      total-sort_by weight id_sort_func (bucket k gs),
      total-append weight (sort_by id_sort_func (bucket k gs)) (all_ids (map (group_at gs as') ks)),
    )

-- The groups hold every identifier as often as the vulnerabilities do: none is lost, none is in two
-- groups that was not given twice.
pub count-group :
    (vulns : List IdAliases) (a : Text)
    → count a (all_ids (group vulns)) ≡ count a (map (λ v. v.id) vulns)
unfolding group
count-group vulns a =
    let gs = (extract (merged vulns) vulns [] []).0 in
    let as' = (extract (merged vulns) vulns [] []).1 in
    all_ids-read a gs as' (sort_by compare (keys gs))
    ∙ total-sort_by (λ k. count a (bucket k gs)) compare (keys gs)
    ∙ read-keys a gs (extract-distinct (merged vulns) vulns [] [] refl)
    ∙ held-extract a (merged vulns) vulns [] [] (merged-Grouped vulns).size
    ∙ omega arith

-- The identifiers of a group in the order of `IDSortFunc`, and its aliases without duplicates in
-- the order of the strings, with the group's identifiers among them.
pub record IsTidy (g : GroupInfo) : Type 0 where
  pub ids_sorted : is_sorted id_sort_func g.ids ≡ true
  pub aliases_increasing : is_increasing g.aliases ≡ true
  pub ids_among_aliases : (a : Text) → contains g.ids a ≡ true → contains g.aliases a ≡ true

abbrev pub AllTidy : List GroupInfo → Type 0
AllTidy [] = Unit
AllTidy (g ∷ gs) = IsTidy g × AllTidy gs

group_at-IsTidy : (gs as' : Buckets) (k : ℕ) → IsTidy (group_at gs as' k)
unfolding group_at
group_at-IsTidy gs as' k =
    let ids = sort_by id_sort_func (bucket k gs) in
    let found = bucket k as' ++ ids in
    record {
      ids_sorted = is_sorted-sort_by id_sort_func id_sort_func-flip (bucket k gs);
      aliases_increasing =
          is_increasing-compact (sort_by text_cmp found)
            (is_sorted-sort_by text_cmp text_cmp-flip found);
      ids_among_aliases = λ a h.
          contains-compact (sort_by text_cmp found) a
          ∙ contains-sort_by text_cmp found a
          ∙ contains-append (bucket k as') ids a
          ∙ or_of_right (contains (bucket k as') a) _ h;
    }

-- Every group that `Group` returns is sorted and free of duplicate aliases.
pub group-AllTidy : (vulns : List IdAliases) → AllTidy (group vulns)
unfolding group
group-AllTidy vulns = go (sort_by compare (keys (extract (merged vulns) vulns [] []).0))
  where
    go :
        (ks : List ℕ)
        → AllTidy (
            map
              (group_at
                (extract (merged vulns) vulns [] []).0
                (extract (merged vulns) vulns [] []).1)
              ks)
    go [] = tt
    go (k ∷ ks) = (group_at-IsTidy _ _ k, go ks)
