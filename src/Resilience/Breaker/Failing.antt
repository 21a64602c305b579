-- ===== src/Resilience/Breaker/Failing.antt =====
-- Runs of failing calls one after another: when the breaker opens and for how long.
use intermute.Base.{
  ℕ, suc, ◌+◌, ◌≤◌, ◌<◌, true, false, List, [], ◌∷◌, ◌≡◌, ◌↔◌, length, refl, leb, arith,
}
use intermute.Resilience.Breaker.{
  state_closed, state_open, CircuitBreaker, new_circuit_breaker, Entry, ordinary, probe,
  circuit_open, enter, leave, execute,
}
use intermute.Resilience.Breaker.Runs.{breaker}

-- The breaker after calls one after another whose `fn` failed, the newest first: each with the clock
-- when it entered and the clock when it failed.
abbrev pub failing : List (ℕ × ℕ) → CircuitBreaker → CircuitBreaker
failing [] cb = cb
failing ((entered, failed) ∷ calls) cb = (execute entered failed true (failing calls cb)).1

failing-closed :
    (calls : List (ℕ × ℕ)) (threshold reset_timeout : ℕ)
    → length calls < threshold
    → (last : ℕ) × (failing calls (new_circuit_breaker threshold reset_timeout)
        ≡ breaker state_closed (length calls) threshold reset_timeout last)
unfolding execute enter leave new_circuit_breaker
failing-closed [] threshold reset_timeout h = (0, refl)
failing-closed ((entered, failed) ∷ calls) threshold reset_timeout h =
    let below : leb threshold (suc (length calls)) ≡ false = ground arith in
    let (last, before) = failing-closed calls threshold reset_timeout (omega arith) in
    (last, rw (before, below) refl)

-- Let calls of a new breaker fail one after another, without overlap, as many as its threshold: at any clock readings,
-- which may differ between the entry and the failure of a call. Before the last of them every call enters as an
-- ordinary one. After it a call is refused exactly while the reset timeout has not passed since the failure of the
-- last, and is let in as a probe exactly from then on.
pub failing-opens :
    (calls : List (ℕ × ℕ)) (entered failed later threshold reset_timeout : ℕ)
    → suc (length calls) ≡ threshold
    → ((enter later (failing calls (new_circuit_breaker threshold reset_timeout))).0 ≡ ordinary)
      × (((enter later
              (failing ((entered, failed) ∷ calls) (new_circuit_breaker threshold reset_timeout))).0
            ≡ circuit_open)
          ↔ (later < failed + reset_timeout))
      × (((enter later
              (failing ((entered, failed) ∷ calls) (new_circuit_breaker threshold reset_timeout))).0
            ≡ probe)
          ↔ (failed + reset_timeout ≤ later))
unfolding execute enter leave
failing-opens calls entered failed later threshold reset_timeout h =
    let reached : leb threshold (suc (length calls)) ≡ true = ground arith in
    let (last, before) = failing-closed calls threshold reset_timeout (omega arith) in
    rw (before, reached) (refl, refused, probed)
  where
    answer : Entry
    answer =
        (enter later (breaker state_open (suc (length calls)) threshold reset_timeout failed)).0

    refused : (answer ≡ circuit_open) ↔ (later < failed + reset_timeout)
    refused = (λ e. ground (arith, e), λ lt. ground (arith, lt))

    probed : (answer ≡ probe) ↔ (failed + reset_timeout ≤ later)
    probed = (λ e. ground (arith, e), λ le. ground (arith, le))
