-- ===== src/Resilience/Limiter/Budget.antt =====
-- The budget of a key within its window, and the independence of the keys.
use intermute.Base.{
  ℕ, suc, ◌-◌, ◌≤◌, Bool, false, some, List, [], ◌∷◌, ◌≡◌, length, if_cases, if◌then◌else◌, ltb,
  leb, Text, text_eq, find, put, find-put_same, find-put_other, arith, Option-cases, inl, inr,
}
use intermute.Resilience.Limiter.{RlBucket, RateLimiter, allow}

abbrev pub min : ℕ → ℕ → ℕ
min a b = if leb a b then a else b

-- The calls of one key at the given times: how many were let through.
abbrev pub granted : Text → RateLimiter → List ℕ → ℕ
granted key l [] = 0
granted key l (t ∷ ts) =
    let answer = allow t key l in
    let rest = granted key answer.1 ts in if answer.0 then suc rest else rest

abbrev pub AllWithin : ℕ → List ℕ → Type 0
AllWithin limit [] = Unit
AllWithin limit (t ∷ ts) = (t ≤ limit) × AllWithin limit ts

-- Calls of a key within its bucket's window: of `n` calls just those are let through that the budget
-- has left.
pub granted-budget :
    (key : Text) (ts : List ℕ) (l : RateLimiter) (b : RlBucket)
    → find key (RateLimiter.buckets l) ≡ some b
    → AllWithin (RlBucket.reset_at b) ts
    → granted key l ts ≡ min (length ts) (RateLimiter.limit l - RlBucket.count b)
unfolding allow
granted-budget key [] l b e h = ground arith
granted-budget key (t ∷ ts) l b e h =
    let bucket : RlBucket = record b { count = suc (RlBucket.count b) } in
    let after : RateLimiter = record l { buckets = put key bucket (RateLimiter.buckets l) } in
    let ih =
      granted-budget key ts after bucket (find-put_same key bucket (RateLimiter.buckets l)) h.1 in
    let early : ltb (RlBucket.reset_at b) t ≡ false = ground arith in
    rw (e, early) (ground (arith, ih))

-- A call of one key changes no other key's bucket.
pub allow-other :
    (now : ℕ) (key other : Text) (l : RateLimiter)
    → text_eq key other ≡ false
    → find other (RateLimiter.buckets (allow now key l).1) ≡ find other (RateLimiter.buckets l)
unfolding allow
allow-other now key other l ne = elim (Option-cases (find key (RateLimiter.buckets l))) [
  | inl e ↦ rw e (find-put_other key other _ (RateLimiter.buckets l) ne)
  | inr e ↦ rw (e.1) (
      if_cases
        (λ (r : Bool × RateLimiter).
          find other (RateLimiter.buckets r.1) ≡ find other (RateLimiter.buckets l))
        (ltb (RlBucket.reset_at e.0) now) _ _
        (λ h. find-put_other key other _ (RateLimiter.buckets l) ne)
        (λ h. find-put_other key other _ (RateLimiter.buckets l) ne))
]
