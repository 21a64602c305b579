-- ===== src/Resilience/Limiter.antt =====
-- internal/http/rate_limiter.go: one bucket for each key, in an association list.
pub mod Budget
use intermute.Base.{
  ℕ, suc, ◌+◌, Bool, true, false, Option, none, some, List, [], ◌∷◌, ltb, leb, if◌then◌else◌, Text,
  text_eq, Map, find, put,
}

pub record RlBucket : Type 0 where
  pub count : ℕ
  pub reset_at : ℕ

pub record RateLimiter : Type 0 where
  pub buckets : Map RlBucket
  pub limit : ℕ
  pub window : ℕ

fresh : ℕ → Text → RateLimiter → Bool × RateLimiter
fresh now key l = (
  true,
  record l {
    buckets =
        put key (record { count = 1; reset_at = now + RateLimiter.window l })
          (RateLimiter.buckets l);
  },
)

spend : Text → RateLimiter → RlBucket → Bool × RateLimiter
spend key l b = (
  leb (suc (RlBucket.count b)) (RateLimiter.limit l),
  record l {
    buckets = put key (record b { count = suc (RlBucket.count b) }) (RateLimiter.buckets l);
  },
)

allow_found : ℕ → Text → RateLimiter → Option RlBucket → Bool × RateLimiter
unfolding fresh spend
allow_found now key l none = fresh now key l
allow_found now key l (some b) =
    if ltb (RlBucket.reset_at b) now then fresh now key l else spend key l b

unfoldable pub allow : ℕ → Text → RateLimiter → Bool × RateLimiter
unfolding find put allow_found
allow now key l = allow_found now key l (find key (RateLimiter.buckets l))
