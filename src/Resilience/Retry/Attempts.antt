-- ===== src/Resilience/Retry/Attempts.antt =====
-- What a run of the retries does: which call its result is from, and how often it called.
use intermute.Base.{
  ℕ, zero, suc, ◌+◌, ◌≤◌, ◌<◌, Bool, true, false, Option, none, some, [], ◌∷◌, ◌≡◌, ◌⊎◌, inl, inr,
  refl, sym, subst, length, if_cases, Text, arith, Option-cases,
}
use intermute.Resilience.Retry.{RetryConfig, Attempt, is_db_locked, attempts, retry_on_db_lock}

module _ (to_lower : Text → Text) (jitter : ℕ → ℕ → ℕ) where
  abbrev pub Locked : Option Text → Type 0
  Locked none = ⊥
  Locked (some e) = is_db_locked to_lower jitter e ≡ true

  -- A run from call `n` with `left` attempts left: it made the calls up to number `last`, which gave its result; each
  -- before it found the database locked, and it stopped for a result of another kind or for want of attempts.
  pub record Ran (fn : ℕ → Option Text) (n left : ℕ) (r : Attempt) : Type 0 where
    pub last : ℕ
    pub from : n ≤ last
    pub bounded : last ≤ n + left
    pub called : Attempt.calls r ≡ suc last
    pub result : Attempt.outcome r ≡ fn last
    pub locked_before : (i : ℕ) → n ≤ i → i < last → Locked (fn i)
    pub stopped : (Locked (fn last) → ⊥) ⊎ (last ≡ n + left)
    pub pauses : n + length (Attempt.slept r) ≡ last

  ≤-cases : (n i : ℕ) → n ≤ i → (n ≡ i) ⊎ (suc n ≤ i)
  ≤-cases n i h = omega arith

  stop :
      (fn : ℕ → Option Text) (n left : ℕ)
      → (Locked (fn n) → ⊥) ⊎ (n ≡ n + left)
      → Ran fn n left (record { outcome = fn n; calls = suc n; slept = [] })
  stop fn n left s = record {
    last = n;
    from = omega arith;
    bounded = omega arith;
    called = refl;
    result = refl;
    locked_before = λ i a b. elim (never i a b) [ ];
    stopped = s;
    pauses = omega arith;
  }
    where
      never : (i : ℕ) → n ≤ i → i < n → ⊥
      never i a b = omega arith

  again :
      (fn : ℕ → Option Text) (n left pause : ℕ) (r : Attempt)
      → Locked (fn n)
      → Ran fn (suc n) left r
      → Ran fn n (suc left) (record {
        outcome = Attempt.outcome r;
        calls = Attempt.calls r;
        slept = pause ∷ Attempt.slept r;
      })
  again fn n left pause r locked ran = record {
    last = Ran.last ran;
    from = omega (arith, Ran.from ran);
    bounded = omega (arith, Ran.bounded ran);
    called = Ran.called ran;
    result = Ran.result ran;
    locked_before = λ i a b. before i (≤-cases n i a) b;
    stopped = elim (Ran.stopped ran) [ inl clear ↦ inl clear | inr e ↦ inr (omega (arith, e)) ];
    pauses = omega (arith, Ran.pauses ran);
  }
    where
      before : (i : ℕ) → (n ≡ i) ⊎ (suc n ≤ i) → i < Ran.last ran → Locked (fn i)
      before i (inl e) b = subst (λ (k : ℕ). Locked (fn k)) e locked
      before i (inr a) b = Ran.locked_before ran i a b

  attempts-Ran :
      (cfg : RetryConfig) (fn : ℕ → Option Text) (n left : ℕ)
      → Ran fn n left (attempts to_lower jitter cfg fn n left)
  unfolding attempts
  attempts-Ran cfg fn n zero = stop fn n 0 (inr (omega arith))
  attempts-Ran cfg fn n (suc left) = elim (Option-cases (fn n)) [
    | inl e ↦
        rw (attempts, e)
          (subst
            (λ (o : Option Text).
              Ran fn n (suc left) (record { outcome = o; calls = suc n; slept = [] }))
            e (stop fn n (suc left) (inl (λ l. subst Locked e l))))
    | inr e ↦
        rw (attempts, e.1)
          (if_cases (λ (r : Attempt). Ran fn n (suc left) r) (is_db_locked to_lower jitter e.0) _ _
            (λ locked.
              again fn n left _ _ (subst Locked (sym e.1) locked)
                (attempts-Ran cfg fn (suc n) left))
            (λ other.
              (subst
                (λ (o : Option Text).
                  Ran fn n (suc left) (record { outcome = o; calls = suc n; slept = [] }))
                e.1 (stop fn n (suc left) (inl (λ l. differ (subst Locked e.1 l) other))))))
  ]
    where
      differ : {b : Bool} → b ≡ true → b ≡ false → ⊥
      differ p q = cc

  -- The run from the first call: the result is that of the last call made, which is the first one that did not find
  -- the database locked, or the one after all retries; there are at most one more calls than retries, and one pause
  -- between any two.
  pub retry_on_db_lock-Ran :
      (cfg : RetryConfig) (fn : ℕ → Option Text)
      → Ran fn 0 (RetryConfig.max_retries cfg) (retry_on_db_lock to_lower jitter cfg fn)
  unfolding retry_on_db_lock
  retry_on_db_lock-Ran cfg fn = attempts-Ran cfg fn 0 (RetryConfig.max_retries cfg)
