-- ===== src/Identifiers/Order.antt =====
-- The comparators of internal/identifiers/identifiers.go are orders.
use osv_scanner.Osv.{Vulnerability}
use osv_scanner.Prelude.{
  Ordering, Text, arith, flip, text_cmp-eq_iff, text_cmp-flip, text_cmp_trans, ℕ, ◌↔◌, ◌≡◌,
}
use osv_scanner.Identifiers.{id_sort, id_sort_func, most_upstreams_order, prefix_order}

-- A comparator that a sort can rely on: swapping the arguments flips the answer, and "before" is
-- transitive.
pub record IsComparator {A : Type 0} (cmp : A → A → Ordering) : Type 0 where
  pub flips : (a b : A) → cmp b a ≡ flip (cmp a b)
  pub trans : (a b c : A) → cmp a b ≡ Ordering.lt → cmp b c ≡ Ordering.lt → cmp a c ≡ Ordering.lt

module _ (prefix_ord : Text → ℕ) where
  pub id_sort-flip : (a b : Text) → id_sort b a prefix_ord ≡ flip (id_sort a b prefix_ord)
  unfolding id_sort
  id_sort-flip a b = ground (arith, text_cmp-flip a b)

  pub id_sort-eq_iff : (a b : Text) → (id_sort a b prefix_ord ≡ Ordering.eq) ↔ (a ≡ b)
  unfolding id_sort
  id_sort-eq_iff a b = ground (arith, text_cmp-eq_iff a b)

  pub id_sort_trans :
      (a b c : Text)
      → id_sort a b prefix_ord ≡ Ordering.lt
      → id_sort b c prefix_ord ≡ Ordering.lt
      → id_sort a c prefix_ord ≡ Ordering.lt
  unfolding id_sort
  id_sort_trans a b c h k = ground (arith, text_cmp_trans a b c)

  -- For every ranking of prefixes, `idSort` is a strict order that leaves only equal identifiers
  -- tied: it flips with its arguments, is transitive, and answers 0 exactly on equal identifiers.
  pub id_sort-IsComparator :
      IsComparator (λ a b. id_sort a b prefix_ord)
      × ((a b : Text) → (id_sort a b prefix_ord ≡ Ordering.eq) ↔ (a ≡ b))
  id_sort-IsComparator = (record { flips = id_sort-flip; trans = id_sort_trans }, id_sort-eq_iff)

pub id_sort_func-flip : (a b : Text) → id_sort_func b a ≡ flip (id_sort_func a b)
unfolding id_sort_func
id_sort_func-flip a b = id_sort-flip prefix_order a b

id_sort_func_trans :
    (a b c : Text)
    → id_sort_func a b ≡ Ordering.lt
    → id_sort_func b c ≡ Ordering.lt
    → id_sort_func a c ≡ Ordering.lt
unfolding id_sort_func
id_sort_func_trans a b c h k = id_sort_trans prefix_order a b c h k

most_upstreams_order-flip :
    (a b : Vulnerability) → most_upstreams_order b a ≡ flip (most_upstreams_order a b)
unfolding most_upstreams_order
most_upstreams_order-flip a b = ground (arith, id_sort_func-flip a.id b.id)

most_upstreams_order_trans :
    (a b c : Vulnerability)
    → most_upstreams_order a b ≡ Ordering.lt
    → most_upstreams_order b c ≡ Ordering.lt
    → most_upstreams_order a c ≡ Ordering.lt
unfolding most_upstreams_order
most_upstreams_order_trans a b c h k = ground (arith, id_sort_func_trans a.id b.id c.id)

-- `MostUpstreamsOrder` flips with its arguments and is transitive.
pub most_upstreams_order-IsComparator : IsComparator most_upstreams_order
most_upstreams_order-IsComparator = record {
  flips = most_upstreams_order-flip;
  trans = most_upstreams_order_trans;
}
