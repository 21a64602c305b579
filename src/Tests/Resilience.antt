-- ===== src/Tests/Resilience.antt =====
-- The theorems on the breaker, the retries and the limiter at concrete inputs.
use intermute.Base.{
  true, ℕ, zero, suc, ◌+◌, ◌-◌, ◌≡◌, ◌<◌, ◌≤◌, ◌↔◌, List, length, refl, Option, none, some, [], ◌∷◌,
  codes, Text, text_eq, false, find, arith,
}
use intermute.Resilience.Breaker.{
  BreakerState, state_closed, state_open, state_half_open, CircuitBreaker, new_circuit_breaker,
  ordinary, probe, circuit_open, enter, leave,
}
use intermute.Resilience.Breaker.Runs.{
  World, start, Reach, here, then_step, enters, returns, Spaced, probes-Spaced, closed_failures,
}
use intermute.Resilience.Breaker.Failing.{failing, failing-opens}
use intermute.Resilience.Retry.{RetryConfig, default_retry_config, retry_on_db_lock}
use intermute.Resilience.Retry.Attempts.{Ran, retry_on_db_lock-Ran}
use intermute.Resilience.Limiter.{RlBucket, RateLimiter, allow}
use intermute.Resilience.Limiter.Budget.{granted, min, AllWithin, granted-budget, allow-other}

-- A breaker that opens on the first failure, for 10.
abbrev cb : BreakerState → ℕ → ℕ → CircuitBreaker
cb state failures last_failure = record {
  state = state;
  failures = failures;
  threshold = 1;
  reset_timeout = 10;
  last_failure = last_failure;
}

abbrev called : World
called = record { breaker = cb state_closed 0 0; clock = 4; running = ordinary ∷ []; probes = [] }

abbrev failed_once : World
failed_once = record { breaker = cb state_open 1 5; clock = 5; running = []; probes = [] }

abbrev probed : World
probed = record {
  breaker = cb state_half_open 1 5;
  clock = 20;
  running = probe ∷ [];
  probes = 20 ∷ [];
}

abbrev failed_again : World
failed_again = record { breaker = cb state_open 1 21; clock = 21; running = []; probes = 20 ∷ [] }

abbrev probed_again : World
probed_again = record {
  breaker = cb state_half_open 1 21;
  clock = 40;
  running = probe ∷ [];
  probes = 40 ∷ 20 ∷ [];
}

0<1 : 0 < 1
0<1 = omega arith

called_Reach : Reach 1 10 called
unfolding new_circuit_breaker enter
called_Reach = then_step (start 1 10) called here (enters (start 1 10) 4 (omega arith))

failed_Reach : Reach 1 10 failed_once
unfolding leave
failed_Reach =
    then_step called _ called_Reach (returns called 5 true [] [] ordinary (omega arith) refl)

probed_Reach : Reach 1 10 probed
unfolding enter
probed_Reach = then_step _ probed failed_Reach (enters failed_once 20 (omega arith))

again_Reach : Reach 1 10 failed_again
unfolding leave
again_Reach =
    then_step probed _ probed_Reach (returns probed 21 true [] [] probe (omega arith) refl)

probed_again_Reach : Reach 1 10 probed_again
unfolding enter
probed_again_Reach =
    then_step failed_again probed_again again_Reach (enters failed_again 40 (omega arith))

probes-Spaced_example : Spaced 10 (World.probes probed_again)
probes-Spaced_example = probes-Spaced 1 10 0<1 probed_again probed_again_Reach

closed_failures_example : CircuitBreaker.failures (World.breaker called) < 1
closed_failures_example = closed_failures 1 10 0<1 called called_Reach refl

-- Two calls that failed at 4 and 7, the newest first, before one that began at 6 and failed at 9.
abbrev two_failed : List (ℕ × ℕ)
two_failed = (5, 7) ∷ (1, 4) ∷ []

three_failures : suc (length two_failed) ≡ 3
three_failures = refl

failing-opens_example :
    ((enter 18 (failing two_failed (new_circuit_breaker 3 10))).0 ≡ ordinary)
    × (((enter 18 (failing ((6, 9) ∷ two_failed) (new_circuit_breaker 3 10))).0 ≡ circuit_open)
        ↔ (18 < 9 + 10))
    × (((enter 18 (failing ((6, 9) ∷ two_failed) (new_circuit_breaker 3 10))).0 ≡ probe)
        ↔ (9 + 10 ≤ 18))
failing-opens_example = failing-opens two_failed 6 9 18 3 10 three_failures

-- A database that is locked for the first two calls.
abbrev locked_twice : ℕ → Option Text
locked_twice zero = some (codes "database is locked (5)")
locked_twice (suc zero) = some (codes "database is locked (5)")
locked_twice (suc (suc n)) = none

abbrev no_jitter : ℕ → ℕ → ℕ
no_jitter n delay = 0

abbrev as_it_is : Text → Text
as_it_is s = s

retry_on_db_lock-Ran_example :
    Ran as_it_is no_jitter locked_twice 0
      (RetryConfig.max_retries default_retry_config)
      (retry_on_db_lock as_it_is no_jitter default_retry_config locked_twice)
retry_on_db_lock-Ran_example =
    retry_on_db_lock-Ran as_it_is no_jitter default_retry_config locked_twice

-- A limiter of 3 calls a window, in which ada has made one.
abbrev one_made : RlBucket
one_made = record { count = 1; reset_at = 100 }

abbrev limiter : RateLimiter
limiter = record { buckets = (codes "ada", one_made) ∷ []; limit = 3; window = 60 }

ada_made_one : find (codes "ada") (RateLimiter.buckets limiter) ≡ some one_made
unfolding find text_eq
ada_made_one = refl

in_window : AllWithin 100 (50 ∷ 60 ∷ 100 ∷ [])
in_window = omega arith

granted-budget_example : granted (codes "ada") limiter (50 ∷ 60 ∷ 100 ∷ []) ≡ min 3 (3 - 1)
granted-budget_example =
    granted-budget (codes "ada") (50 ∷ 60 ∷ 100 ∷ []) limiter one_made ada_made_one in_window

ada_is_not_bob : text_eq (codes "bob") (codes "ada") ≡ false
unfolding text_eq
ada_is_not_bob = refl

allow-other_example :
    find (codes "ada") (RateLimiter.buckets (allow 70 (codes "bob") limiter).1)
    ≡ find (codes "ada") (RateLimiter.buckets limiter)
allow-other_example = allow-other 70 (codes "bob") (codes "ada") limiter ada_is_not_bob
