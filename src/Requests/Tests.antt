-- ===== src/Requests/Tests.antt =====
-- Two goroutines ask for one key; the call that serves both ends with a value.
use osv_scanner.Prelude.{length, refl, some, suc, ℕ, ◌≤◌}
use osv_scanner.Requests.Defs.{
  Reachable, RequestCache, begin_get, begins, end_get, ends, new, new_request_cache, then_step,
}
use osv_scanner.Requests.Once.{begin_get-once}

abbrev first : RequestCache ℕ
first = (begin_get new_request_cache).0

abbrev second : RequestCache ℕ
second = (begin_get first).0

abbrev third : RequestCache ℕ
third = end_get 0 (some 7) second

third_Reachable : Reachable third
unfolding begin_get
third_Reachable =
    then_step second third
      (then_step first second (then_step _ first new (begins new_request_cache)) (begins first))
      (ends second 0 (some 7) refl)

begin_get-once_example : (length third.running ≤ 1) × (third.started ≤ suc third.failed)
begin_get-once_example = begin_get-once third third_Reachable
