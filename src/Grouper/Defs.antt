-- ===== src/Grouper/Defs.antt =====
-- `hasAliasIntersection`, `Group` and `ConvertVulnerabilityToIDAliases`. The slice `groups` is
-- passed on explicitly, and the two maps of `Group` are association lists in order of insertion.
use osv_scanner.Prelude.{
  Bool, List, Text, [], any, codes, compact, compare, contains, get_or, if◌then◌else◌, map, min,
  set, sort_by, split_first, suc, text_cmp, text_eq, ℕ, ◌++◌, ◌==◌, ◌||◌, ◌∷◌,
}
use osv_scanner.Models.{GroupInfo}
use osv_scanner.Osv.{Vulnerability}
use osv_scanner.Identifiers.{id_sort_func, most_upstreams_order}

pub record IdAliases : Type 0 where
  pub id : Text
  pub aliases : List Text

unfoldable pub has_alias_intersection : IdAliases → IdAliases → Bool
has_alias_intersection v1 v2 =
    any (λ alias. contains v2.aliases alias) v1.aliases
    || (contains v1.aliases v2.id || contains v2.aliases v1.id)

-- The initial `groups`: the index `i` and those behind it, one for each vulnerability.
unfoldable pub own_groups : ℕ → List IdAliases → List ℕ
own_groups i [] = []
own_groups i (v ∷ vs) = i ∷ own_groups (suc i) vs

-- The body of the inner loop at `i` and `j`.
unfoldable pub merge_pair : IdAliases → IdAliases → ℕ → ℕ → List ℕ → List ℕ
merge_pair vi vj i j groups =
    if has_alias_intersection vi vj
    then (let groups' = set groups i (min (get_or groups i 0) (get_or groups j 0)) in
        set groups' j (get_or groups' i 0))
    else groups

-- `for j := i + 1; j < len(vulns); j++`, over the vulnerabilities from `j` on.
unfoldable pub merge_row : IdAliases → ℕ → ℕ → List IdAliases → List ℕ → List ℕ
merge_row vi i j [] groups = groups
merge_row vi i j (vj ∷ rest) groups = merge_row vi i (suc j) rest (merge_pair vi vj i j groups)

-- `for i := range vulns`, over the vulnerabilities from `i` on.
unfoldable pub merge_rows : ℕ → List IdAliases → List ℕ → List ℕ
merge_rows i [] groups = groups
merge_rows i (vi ∷ rest) groups = merge_rows (suc i) rest (merge_row vi i (suc i) rest groups)

-- `groups` behind the pairwise comparison.
unfoldable pub merged : List IdAliases → List ℕ
unfolding own_groups merge_rows
merged vulns = merge_rows 0 vulns (own_groups 0 vulns)

abbrev pub Buckets : Type 0
Buckets = List (ℕ × List Text)

-- `m[key] = append(m[key], values...)`.
unfoldable pub append_at : ℕ → List Text → Buckets → Buckets
append_at key values [] = (key, values) ∷ []
append_at key values ((k, xs) ∷ m) =
    if k == key then (k, xs ++ values) ∷ m else (k, xs) ∷ append_at key values m

-- `m[key]`, the empty slice at a missing key.
unfoldable pub bucket : ℕ → Buckets → List Text
bucket key [] = []
bucket key ((k, xs) ∷ m) = if k == key then xs else bucket key m

-- `maps.Keys`.
unfoldable pub keys : Buckets → List ℕ
keys [] = []
keys ((k, xs) ∷ m) = k ∷ keys m

-- The loop that fills `extractedGroups` and `extractedAliases`.
unfoldable pub extract : List ℕ → List IdAliases → Buckets → Buckets → Buckets × Buckets
unfolding append_at
extract [] vs gs as' = (gs, as')
extract (gid ∷ gids) [] gs as' = (gs, as')
extract (gid ∷ gids) (v ∷ vs) gs as' =
    extract gids vs (append_at gid (v.id ∷ []) gs) (append_at gid v.aliases as')

-- The body of the last loop.
unfoldable pub group_at : Buckets → Buckets → ℕ → GroupInfo
unfolding bucket
group_at gs as' key =
    let ids = sort_by id_sort_func (bucket key gs) in
    record {
      ids = ids;
      aliases = compact (sort_by text_cmp (bucket key as' ++ ids));
      experimental_analysis = [];
      max_severity = [];
    }

unfoldable pub group : List IdAliases → List GroupInfo
unfolding extract keys merged group_at
group vulns =
    let (gs, as') = extract (merged vulns) vulns [] [] in
    map (group_at gs as') (sort_by compare (keys gs))

unfoldable pub to_id_aliases : Vulnerability → IdAliases
to_id_aliases v =
    let aliases = v.aliases ++ v.upstream in
    record {
      id = v.id;
      aliases =
          if text_eq (split_first b'-' v.id) (codes "USN") then aliases ++ v.related else aliases;
    }

unfoldable pub convert_vulnerability_to_id_aliases : List Vulnerability → List IdAliases
unfolding to_id_aliases
convert_vulnerability_to_id_aliases c = map to_id_aliases (sort_by most_upstreams_order c)
