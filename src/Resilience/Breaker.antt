-- ===== src/Resilience/Breaker.antt =====
-- internal/storage/sqlite/circuitbreaker.go. `Execute` holds the lock twice, before and after it
-- calls `fn`, so it is two operations: `enter` and `leave`, which other calls may come between.
pub mod Failing
pub mod Runs
use intermute.Base.{ℕ, suc, ◌+◌, Bool, true, false, leb, if◌then◌else◌, Result, ok, err}

pub data BreakerState : Type 0 where
  state_closed : BreakerState
  state_open : BreakerState
  state_half_open : BreakerState

pub record CircuitBreaker : Type 0 where
  pub state : BreakerState
  pub failures : ℕ
  pub threshold : ℕ
  pub reset_timeout : ℕ
  pub last_failure : ℕ

-- The zero time is 0.
unfoldable pub new_circuit_breaker : ℕ → ℕ → CircuitBreaker
new_circuit_breaker threshold reset_timeout = record {
  state = state_closed;
  failures = 0;
  threshold = threshold;
  reset_timeout = reset_timeout;
  last_failure = 0;
}

-- What the first critical section decides: run `fn` as an ordinary call or as the probe, or refuse.
pub data Entry : Type 0 where
  ordinary : Entry
  probe : Entry
  circuit_open : Entry

unfoldable pub enter : ℕ → CircuitBreaker → Entry × CircuitBreaker
enter now cb = elim (CircuitBreaker.state cb) [
  | state_closed ↦ (ordinary, cb)
  | state_open ↦
      if leb (CircuitBreaker.last_failure cb + CircuitBreaker.reset_timeout cb) now
      then (probe, record cb { state = state_half_open })
      else (circuit_open, cb)
  | state_half_open ↦ (circuit_open, cb)
]

trip : ℕ → CircuitBreaker → CircuitBreaker
trip now cb = record cb { state = state_open; last_failure = now }

-- The second critical section; `failed` says that `fn` returned an error.
unfoldable pub leave : ℕ → Entry → Bool → CircuitBreaker → CircuitBreaker
unfolding trip
leave now ordinary true cb =
    let counted = record cb { failures = suc (CircuitBreaker.failures cb) } in
    if leb (CircuitBreaker.threshold cb) (suc (CircuitBreaker.failures cb))
    then trip now counted
    else counted
leave now ordinary false cb = record cb { failures = 0 }
leave now probe true cb = trip now cb
leave now probe false cb = record cb { state = state_closed; failures = 0 }
leave now circuit_open failed cb = cb

-- A call that nothing comes between: what it decided, and the breaker after it. The clock is read
-- at the entry, and again where `fn` failed.
unfoldable pub execute : ℕ → ℕ → Bool → CircuitBreaker → Entry × CircuitBreaker
unfolding enter leave
execute now later failed cb =
    let entered = enter now cb in (entered.0, leave later entered.0 failed entered.1)
