-- ===== src/Requests/Defs.antt =====
-- `RequestCache` for one key: every operation of `Get` reads and writes the two maps at its key
-- only. The lock makes each part of `Get` one step: from its start to a return, a wait or the call
-- of `fn`, and from the end of `fn` to its return. `fn` runs outside the lock, so other steps come
-- in between. A `*requestCacheCall` is a number.
use osv_scanner.Prelude.{
  Bool, List, Option, [], any, false, if◌then◌else◌, keep, none, not, some, suc, true, ℕ, ◌==◌, ◌∷◌,
  ◌≡◌,
}

-- `cached` and `call` are the entries of the maps `cache` and `calls`; `running` are the calls of
-- `fn` that have not ended; `fresh` is the next pointer, and the last two count the calls of `fn` that
-- were started and that ended with an error.
pub record RequestCache {ℓ} (V : Type ℓ) : Type ℓ where
  pub cached : Option V
  pub call : Option ℕ
  pub running : List ℕ
  pub fresh : ℕ
  pub started : ℕ
  pub failed : ℕ

-- How the first part of `Get` ends.
pub data Answer {ℓ} (V : Type ℓ) : Type ℓ where
  hit : V → Answer V
  waits : ℕ → Answer V
  calls : ℕ → Answer V

abbrev pub is_call : Option ℕ → ℕ → Bool
is_call none c = false
is_call (some c') c = c' == c

module _ {ℓ} {V : Type ℓ} where
  abbrev pub new_request_cache : RequestCache V
  new_request_cache = record {
    cached = none;
    call = none;
    running = [];
    fresh = 0;
    started = 0;
    failed = 0;
  }

  unfoldable pub begin_get : RequestCache V → RequestCache V × Answer V
  begin_get rq = elim (rq.cached) [
    | some v ↦ (rq, hit v)
    | none ↦ elim (rq.call) [
      | some c ↦ (rq, waits c)
      | none ↦ (
        record rq {
          call = some rq.fresh;
          running = rq.fresh ∷ rq.running;
          fresh = suc rq.fresh;
          started = suc rq.started;
        },
        calls rq.fresh,
      )
    ]
  ]

  -- What follows `c.val, c.err = fn()`; `none` is an error.
  unfoldable pub end_get : ℕ → Option V → RequestCache V → RequestCache V
  end_get c result rq =
      let ended = record rq {
        running = keep (λ c'. not (c' == c)) rq.running;
        call = if is_call rq.call c then none else rq.call;
      } in
      elim result [
        | none ↦ record ended { failed = suc rq.failed }
        | some v ↦ record ended { cached = some v }
      ]

  -- One goroutine takes a step; only a call that is running can end.
  pub data Step : RequestCache V → RequestCache V → Type ℓ where
    begins : (rq : RequestCache V) → Step rq (begin_get rq).0
    ends :
        (rq : RequestCache V) (c : ℕ) (result : Option V)
        → any (λ c'. c' == c) rq.running ≡ true
        → Step rq (end_get c result rq)

  -- The states that any interleaving of the goroutines can reach.
  pub data Reachable : RequestCache V → Type ℓ where
    new : Reachable new_request_cache
    then_step : (rq rq' : RequestCache V) → Reachable rq → Step rq rq' → Reachable rq'
