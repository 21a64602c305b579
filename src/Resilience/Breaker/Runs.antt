-- ===== src/Resilience/Breaker/Runs.antt =====
-- Runs of the breaker in which calls overlap.
use intermute.Base.{
  ℕ, suc, ◌+◌, ◌≤◌, ◌<◌, Bool, true, false, List, [], ◌∷◌, ◌++◌, ◌≡◌, refl, leb, if_cases, arith,
}
use intermute.Resilience.Breaker.{
  BreakerState, state_closed, state_open, state_half_open, CircuitBreaker, new_circuit_breaker,
  Entry, ordinary, probe, circuit_open, enter, leave,
}

-- The breaker, the clock, the calls whose `fn` runs, and the times at which probes began.
pub record World : Type 0 where
  pub breaker : CircuitBreaker
  pub clock : ℕ
  pub running : List Entry
  pub probes : List ℕ

abbrev admit : Entry → ℕ → CircuitBreaker → World → World
admit ordinary now cb w = record w {
  breaker = cb;
  clock = now;
  running = ordinary ∷ World.running w;
}
admit probe now cb w = record w {
  breaker = cb;
  clock = now;
  running = probe ∷ World.running w;
  probes = now ∷ World.probes w;
}
admit circuit_open now cb w = record w { breaker = cb; clock = now }

-- A call enters, or one that runs returns; the clock never goes back.
pub data Step : World → World → Type 0 where
  enters :
      (w : World) (now : ℕ)
      → World.clock w ≤ now
      → Step w (admit (enter now (World.breaker w)).0 now (enter now (World.breaker w)).1 w)
  returns :
      (w : World) (now : ℕ) (failed : Bool) (before after : List Entry) (e : Entry)
      → World.clock w ≤ now
      → World.running w ≡ before ++ e ∷ after
      → Step w (record w {
        breaker = leave now e failed (World.breaker w);
        clock = now;
        running = before ++ after;
      })

abbrev pub start : ℕ → ℕ → World
start threshold reset_timeout = record {
  breaker = new_circuit_breaker threshold reset_timeout;
  clock = 0;
  running = [];
  probes = [];
}

pub data Reach (threshold reset_timeout : ℕ) : World → Type 0 where
  here : Reach threshold reset_timeout (start threshold reset_timeout)
  then_step :
      (v w : World) → Reach threshold reset_timeout v → Step v w → Reach threshold reset_timeout w

-- Newest first, each at least `gap` after the one before it.
abbrev pub Spaced : ℕ → List ℕ → Type 0
Spaced gap [] = Unit
Spaced gap (t ∷ []) = Unit
Spaced gap (t ∷ u ∷ ts) = (u + gap ≤ t) × Spaced gap (u ∷ ts)

-- No probe began after `limit`.
abbrev Before : ℕ → List ℕ → Type 0
Before limit [] = Unit
Before limit (t ∷ ts) = t ≤ limit

-- What every reachable world keeps.
record Fine (threshold reset_timeout : ℕ) (w : World) : Type 0 where
  same_threshold : CircuitBreaker.threshold (World.breaker w) ≡ threshold
  same_timeout : CircuitBreaker.reset_timeout (World.breaker w) ≡ reset_timeout
  few_failures :
      CircuitBreaker.state (World.breaker w) ≡ state_closed
      → CircuitBreaker.failures (World.breaker w) < threshold
  probes_past : Before (World.clock w) (World.probes w)
  failure_later :
      CircuitBreaker.state (World.breaker w) ≡ state_open
      → Before (CircuitBreaker.last_failure (World.breaker w)) (World.probes w)
  spaced : Spaced reset_timeout (World.probes w)

Before-le : (ts : List ℕ) {a b : ℕ} → a ≤ b → Before a ts → Before b ts
Before-le [] h p = tt
Before-le (t ∷ ts) h p = omega arith

Spaced-cons :
    (ts : List ℕ) (a gap t : ℕ) → a + gap ≤ t → Before a ts → Spaced gap ts → Spaced gap (t ∷ ts)
Spaced-cons [] a gap t h p s = tt
Spaced-cons (u ∷ ts) a gap t h p s = (omega arith, s)

start-Fine :
    (threshold reset_timeout : ℕ)
    → 0 < threshold
    → Fine threshold reset_timeout (start threshold reset_timeout)
unfolding new_circuit_breaker
start-Fine threshold reset_timeout h = record {
  same_threshold = refl;
  same_timeout = refl;
  few_failures = λ _. h;
  probes_past = tt;
  failure_later = λ e. tt;
  spaced = tt;
}

abbrev world : CircuitBreaker → ℕ → List Entry → List ℕ → World
world cb clock running probes = record {
  breaker = cb;
  clock = clock;
  running = running;
  probes = probes;
}

abbrev pub breaker : BreakerState → ℕ → ℕ → ℕ → ℕ → CircuitBreaker
breaker s f th rt lf = record {
  state = s;
  failures = f;
  threshold = th;
  reset_timeout = rt;
  last_failure = lf;
}

module _ (threshold reset_timeout : ℕ) where
  enter-Fine :
      (s : BreakerState) (f th rt lf clock now : ℕ) (running : List Entry) (probes : List ℕ)
      → clock ≤ now
      → Fine threshold reset_timeout (world (breaker s f th rt lf) clock running probes)
      → Fine threshold reset_timeout (
          admit
            (enter now (breaker s f th rt lf)).0
            now
            (enter now (breaker s f th rt lf)).1
            (world (breaker s f th rt lf) clock running probes))
  unfolding enter
  enter-Fine state_closed f th rt lf clock now running probes le fine = record {
    same_threshold = Fine.same_threshold fine;
    same_timeout = Fine.same_timeout fine;
    few_failures = Fine.few_failures fine;
    probes_past = Before-le probes le (Fine.probes_past fine);
    failure_later = Fine.failure_later fine;
    spaced = Fine.spaced fine;
  }
  enter-Fine state_half_open f th rt lf clock now running probes le fine = record {
    same_threshold = Fine.same_threshold fine;
    same_timeout = Fine.same_timeout fine;
    few_failures = Fine.few_failures fine;
    probes_past = Before-le probes le (Fine.probes_past fine);
    failure_later = Fine.failure_later fine;
    spaced = Fine.spaced fine;
  }
  enter-Fine state_open f th rt lf clock now running probes le fine =
      if_cases
        (λ (e : Entry × CircuitBreaker).
          Fine threshold reset_timeout
            (admit e.0 now e.1 (world (breaker state_open f th rt lf) clock running probes)))
        (leb (lf + rt) now) (probe, breaker state_half_open f th rt lf)
        (circuit_open, breaker state_open f th rt lf)
        (λ h. record {
          same_threshold = Fine.same_threshold fine;
          same_timeout = Fine.same_timeout fine;
          few_failures = λ e. cc;
          probes_past = omega arith;
          failure_later = λ e. cc;
          spaced =
              Spaced-cons probes lf reset_timeout now (ground arith) (Fine.failure_later fine refl)
                (Fine.spaced fine);
        })
        (λ h. record {
          same_threshold = Fine.same_threshold fine;
          same_timeout = Fine.same_timeout fine;
          few_failures = λ e. cc;
          probes_past = Before-le probes le (Fine.probes_past fine);
          failure_later = Fine.failure_later fine;
          spaced = Fine.spaced fine;
        })

  -- `trip` and a success, whatever the failures counted.
  tripped-Fine :
      (s : BreakerState) (f g th rt lf clock now : ℕ) (running after : List Entry) (probes : List ℕ)
      → clock ≤ now
      → Fine threshold reset_timeout (world (breaker s f th rt lf) clock running probes)
      → Fine threshold reset_timeout (world (breaker state_open g th rt now) now after probes)
  tripped-Fine s f g th rt lf clock now running after probes le fine = record {
    same_threshold = Fine.same_threshold fine;
    same_timeout = Fine.same_timeout fine;
    few_failures = λ e. cc;
    probes_past = Before-le probes le (Fine.probes_past fine);
    failure_later = λ _. Before-le probes le (Fine.probes_past fine);
    spaced = Fine.spaced fine;
  }

  -- The failures counted fall or stay below the threshold, and the breaker does not open.
  counted-Fine :
      (s t : BreakerState) (f g th rt lf clock now : ℕ) (running after : List Entry)
      (probes : List ℕ)
      → clock ≤ now
      → g < threshold
      → (t ≡ state_open → s ≡ state_open)
      → Fine threshold reset_timeout (world (breaker s f th rt lf) clock running probes)
      → Fine threshold reset_timeout (world (breaker t g th rt lf) now after probes)
  counted-Fine s t f g th rt lf clock now running after probes le g<threshold o fine = record {
    same_threshold = Fine.same_threshold fine;
    same_timeout = Fine.same_timeout fine;
    few_failures = λ e. g<threshold;
    probes_past = Before-le probes le (Fine.probes_past fine);
    failure_later = λ e. Fine.failure_later fine (o e);
    spaced = Fine.spaced fine;
  }

  leave-Fine :
      0 < threshold
      → (e : Entry) (failed : Bool) (s : BreakerState) (f th rt lf clock now : ℕ)
      → (running after : List Entry) (probes : List ℕ) → clock ≤ now
      → Fine threshold reset_timeout (world (breaker s f th rt lf) clock running probes)
      → Fine threshold reset_timeout
          (world (leave now e failed (breaker s f th rt lf)) now after probes)
  unfolding leave
  leave-Fine pos ordinary true s f th rt lf clock now running after probes le fine =
      if_cases (λ (cb : CircuitBreaker). Fine threshold reset_timeout (world cb now after probes))
        (leb th (suc f)) (breaker state_open (suc f) th rt now) (breaker s (suc f) th rt lf)
        (λ h. tripped-Fine s f (suc f) th rt lf clock now running after probes le fine)
        (λ h.
          counted-Fine s s f (suc f) th rt lf clock now running after probes le (ground arith)
            (λ e. e) fine)
  leave-Fine pos ordinary false s f th rt lf clock now running after probes le fine =
      counted-Fine s s f 0 th rt lf clock now running after probes le pos (λ e. e) fine
  leave-Fine pos probe true s f th rt lf clock now running after probes le fine =
      tripped-Fine s f f th rt lf clock now running after probes le fine
  leave-Fine pos probe false s f th rt lf clock now running after probes le fine =
      counted-Fine s state_closed f 0 th rt lf clock now running after probes le pos (λ e. cc) fine
  leave-Fine pos circuit_open failed s f th rt lf clock now running after probes le fine = record {
    same_threshold = Fine.same_threshold fine;
    same_timeout = Fine.same_timeout fine;
    few_failures = Fine.few_failures fine;
    probes_past = Before-le probes le (Fine.probes_past fine);
    failure_later = Fine.failure_later fine;
    spaced = Fine.spaced fine;
  }

  Step-Fine :
      0 < threshold
      → {v w : World} → Step v w
      → Fine threshold reset_timeout v
      → Fine threshold reset_timeout w
  Step-Fine pos (enters v now le) fine =
      let cb = World.breaker v in
      enter-Fine (CircuitBreaker.state cb) (CircuitBreaker.failures cb)
        (CircuitBreaker.threshold cb) (CircuitBreaker.reset_timeout cb)
        (CircuitBreaker.last_failure cb) (World.clock v) now (World.running v) (World.probes v) le
        fine
  Step-Fine pos (returns v now failed before after e le eq) fine =
      let cb = World.breaker v in
      leave-Fine pos e failed (CircuitBreaker.state cb) (CircuitBreaker.failures cb)
        (CircuitBreaker.threshold cb) (CircuitBreaker.reset_timeout cb)
        (CircuitBreaker.last_failure cb) (World.clock v) now (World.running v) (before ++ after)
        (World.probes v) le fine

  Reach-Fine :
      0 < threshold → {w : World} → Reach threshold reset_timeout w → Fine threshold reset_timeout w
  Reach-Fine pos here = start-Fine threshold reset_timeout pos
  Reach-Fine pos (then_step v w r s) = Step-Fine pos s (Reach-Fine pos r)

  -- However the calls overlap, while the clock does not go back, two probes begin at least the reset
  -- timeout apart.
  pub probes-Spaced :
      0 < threshold
      → (w : World) → Reach threshold reset_timeout w
      → Spaced reset_timeout (World.probes w)
  probes-Spaced pos w r = Fine.spaced (Reach-Fine pos r)

  -- A closed breaker has counted fewer failures than its threshold.
  pub closed_failures :
      0 < threshold
      → (w : World) → Reach threshold reset_timeout w
      → CircuitBreaker.state (World.breaker w) ≡ state_closed
      → CircuitBreaker.failures (World.breaker w) < threshold
  closed_failures pos w r closed = Fine.few_failures (Reach-Fine pos r) closed
