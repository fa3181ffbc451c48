-- ===== src/Requests/Once.antt =====
-- `fn` runs once at a time, and again only after an error: `Get` of internal/datasource/cache.go.
use osv_scanner.Prelude.{
  Option, [], any, arith, length, none, some, suc, true, ℕ, ◌==◌, ◌∷◌, ◌≡◌, ◌≤◌,
}
use osv_scanner.Requests.Defs.{
  Reachable, RequestCache, Step, begin_get, begins, end_get, ends, new, then_step,
}

module _ {ℓ} {V : Type ℓ} where
  -- Nothing runs and nothing is cached, and all that was started has failed; or a value is cached
  -- and one call has not failed; or one call runs, which is the pending one.
  data Valid : RequestCache V → Type ℓ where
    idle :
        (fresh n : ℕ)
        → Valid (record {
          cached = none;
          call = none;
          running = [];
          fresh = fresh;
          started = n;
          failed = n;
        })
    stored :
        (v : V) (fresh n : ℕ)
        → Valid (record {
          cached = some v;
          call = none;
          running = [];
          fresh = fresh;
          started = suc n;
          failed = n;
        })
    busy :
        (c fresh n : ℕ)
        → Valid (record {
          cached = none;
          call = some c;
          running = c ∷ [];
          fresh = fresh;
          started = suc n;
          failed = n;
        })

  begin_get-Valid : (rq : RequestCache V) → Valid rq → Valid (begin_get rq).0
  unfolding begin_get
  begin_get-Valid _ (idle fresh n) = busy fresh (suc fresh) n
  begin_get-Valid _ (stored v fresh n) = stored v fresh n
  begin_get-Valid _ (busy c fresh n) = busy c fresh n

  end_get-Valid :
      (rq : RequestCache V) (c : ℕ) (result : Option V)
      → any (λ c'. c' == c) rq.running ≡ true
      → Valid rq
      → Valid (end_get c result rq)
  unfolding end_get
  end_get-Valid _ c result h (idle fresh n) = cc
  end_get-Valid _ c result h (stored v fresh n) = cc
  end_get-Valid _ c none h (busy c' fresh n) =
      let same : (c' == c) ≡ true = ground arith in rw same (idle fresh (suc n))
  end_get-Valid _ c (some v) h (busy c' fresh n) =
      let same : (c' == c) ≡ true = ground arith in rw same (stored v fresh n)

  Step-Valid : (rq rq' : RequestCache V) → Step rq rq' → Valid rq → Valid rq'
  Step-Valid rq _ (begins _) v = begin_get-Valid rq v
  Step-Valid rq _ (ends _ c result h) v = end_get-Valid rq c result h v

  reachable-Valid : (rq : RequestCache V) → Reachable rq → Valid rq
  reachable-Valid _ new = idle 0 0
  reachable-Valid rq' (then_step rq _ before step) =
      Step-Valid rq rq' step (reachable-Valid rq before)

  Valid-once :
      (rq : RequestCache V) → Valid rq → (length rq.running ≤ 1) × (rq.started ≤ suc rq.failed)
  Valid-once _ (idle fresh n) = (omega arith, omega arith)
  Valid-once _ (stored v fresh n) = (omega arith, omega arith)
  Valid-once _ (busy c fresh n) = (omega arith, omega arith)

  -- Whatever the interleaving, at most one call of the function runs at a time, and it has been
  -- called at most once more than it has failed: only an error makes it be called again.
  pub begin_get-once :
      (rq : RequestCache V) → Reachable rq → (length rq.running ≤ 1) × (rq.started ≤ suc rq.failed)
  begin_get-once rq r = Valid-once rq (reachable-Valid rq r)
