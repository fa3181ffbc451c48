-- ===== src/Identifiers/Tests.antt =====
-- Runs of internal/identifiers/identifiers.go, and its theorems at concrete identifiers.
use osv_scanner.Prelude.{Ordering, Text, codes, refl, split_first, text_cmp, text_eq, ◌↔◌, ◌≡◌}
use osv_scanner.Identifiers.{id_sort, id_sort_func, id_sort_func_for_description, prefix_order}
use osv_scanner.Identifiers.Order.{IsComparator, id_sort-IsComparator}

id_sort_func_runs :
    (id_sort_func (codes "CVE-2024-1") (codes "GHSA-aaaa") ≡ Ordering.lt)
    × (id_sort_func (codes "RUSTSEC-1") (codes "GHSA-aaaa") ≡ Ordering.lt)
    × (id_sort_func (codes "RUSTSEC-1") (codes "CVE-2024-1") ≡ Ordering.gt)
    × (id_sort_func_for_description (codes "GHSA-aaaa") (codes "CVE-2024-1") ≡ Ordering.lt)
unfolding id_sort_func id_sort_func_for_description text_cmp text_eq split_first
id_sort_func_runs = (refl, refl, refl, refl)

id_sort-IsComparator_example :
    IsComparator (λ a b. id_sort a b prefix_order)
    × ((a b : Text) → (id_sort a b prefix_order ≡ Ordering.eq) ↔ (a ≡ b))
id_sort-IsComparator_example = id_sort-IsComparator prefix_order
