-- ===== src/Resilience/Retry.antt =====
-- internal/storage/sqlite/retry.go. `fn` is its results by the number of the call, an error being
-- its text; `strings.ToLower` and the random jitter are parameters.
pub mod Attempts
use intermute.Base.{
  ℕ, zero, suc, ◌+◌, ◌*◌, ◌%◌, ◌^◌, Bool, true, false, ◌&&◌, ◌||◌, Option, none, some, List, [],
  ◌∷◌, ◌==◌, if◌then◌else◌, Text, codes, contains,
}

abbrev pub millisecond : ℕ
millisecond = 1_000_000

-- JitterPct is read only by the jitter.
pub record RetryConfig : Type 0 where
  pub max_retries : ℕ
  pub base_delay : ℕ

unfoldable pub default_retry_config : RetryConfig
default_retry_config = record { max_retries = 7; base_delay = 50 * millisecond }

-- What a run did: its result, how often it called `fn`, and how long it slept, in order.
pub record Attempt : Type 0 where
  pub outcome : Option Text
  pub calls : ℕ
  pub slept : List ℕ

module _ (to_lower : Text → Text) (jitter : ℕ → ℕ → ℕ) where
  unfoldable pub is_db_locked : Text → Bool
  unfolding contains
  is_db_locked e = contains (to_lower e) (codes "database is locked")

  -- `cfg.BaseDelay * (1 << (attempt - 1))` in 64 bits.
  unfoldable pub delay : RetryConfig → ℕ → ℕ
  delay cfg n = RetryConfig.base_delay cfg * 2 ^ n % 2 ^ 64

  -- After call `n` gave `result`, with `left` attempts left.
  unfoldable pub attempts : RetryConfig → (ℕ → Option Text) → ℕ → ℕ → Attempt
  unfolding is_db_locked delay
  attempts cfg fn n zero = record { outcome = fn n; calls = suc n; slept = [] }
  attempts cfg fn n (suc left) =
      let rest = attempts cfg fn (suc n) left in
      elim (fn n) [
        | none ↦ record { outcome = none; calls = suc n; slept = [] }
        | some e ↦
            if is_db_locked e
            then record {
              outcome = Attempt.outcome rest;
              calls = Attempt.calls rest;
              slept = (delay cfg n + jitter n (delay cfg n)) ∷ Attempt.slept rest;
            }
            else record { outcome = some e; calls = suc n; slept = [] }
      ]

  unfoldable pub retry_on_db_lock : RetryConfig → (ℕ → Option Text) → Attempt
  unfolding attempts
  retry_on_db_lock cfg fn = attempts cfg fn 0 (RetryConfig.max_retries cfg)
