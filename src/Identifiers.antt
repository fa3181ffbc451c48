-- ===== src/Identifiers.antt =====
-- internal/identifiers/identifiers.go: the orders on vulnerability identifiers. The integers -1, 0
-- and 1 that the comparators return are `Ordering.lt`, `Ordering.eq` and `Ordering.gt`.
pub mod Order
mod Tests
use osv_scanner.Prelude.{
  Ordering, Text, codes, if◌then◌else◌, length, ltb, split_first, text_cmp, text_eq, ℕ, ◌||◌,
}
use osv_scanner.Osv.{Vulnerability}

unfoldable pub prefix_order : Text → ℕ
prefix_order prefix =
    if text_eq prefix (codes "DSA") || text_eq prefix (codes "USN")
    then 3
    else if text_eq prefix (codes "CVE")
    then 2
    else if text_eq prefix (codes "GHSA")
    then 0
    else 1

unfoldable pub prefix_order_for_description : Text → ℕ
prefix_order_for_description prefix =
    if text_eq prefix (codes "CVE") then 0 else if text_eq prefix (codes "GHSA") then 1 else 2

unfoldable pub id_sort : Text → Text → (Text → ℕ) → Ordering
id_sort a b prefix_ord =
    let prefix_a_ord = prefix_ord (split_first b'-' a) in
    let prefix_b_ord = prefix_ord (split_first b'-' b) in
    if ltb prefix_b_ord prefix_a_ord
    then Ordering.lt
    else if ltb prefix_a_ord prefix_b_ord
    then Ordering.gt
    else text_cmp a b

unfoldable pub id_sort_func : Text → Text → Ordering
unfolding id_sort prefix_order
id_sort_func a b = id_sort a b prefix_order

unfoldable pub id_sort_func_for_description : Text → Text → Ordering
unfolding id_sort prefix_order_for_description
id_sort_func_for_description a b = id_sort a b prefix_order_for_description

unfoldable pub most_upstreams_order : Vulnerability → Vulnerability → Ordering
most_upstreams_order a b =
    if ltb (length b.upstream) (length a.upstream)
    then Ordering.lt
    else if ltb (length a.upstream) (length b.upstream)
    then Ordering.gt
    else id_sort_func a.id b.id
