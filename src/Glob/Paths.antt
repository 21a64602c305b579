-- ===== src/Glob/Paths.antt =====
-- Whole patterns of internal/glob/overlap.go: `NormalizePattern`, `ValidateComplexity`,
-- `NormalizedOverlap`, `PatternsOverlap`. On the Unix systems of the service `filepath.ToSlash` is
-- the identity, and a pattern is its list of runes.
pub mod Meaning
pub mod Overlap
use intermute.Base.{
  ℕ, zero, suc, ◌+◌, Bool, true, false, ◌||◌, List, [], ◌∷◌, length, ltb, ◌==◌, if◌then◌else◌,
  Result, ok, err, ◌>>=◌, ◌≡◌, refl, not,
}
use intermute.Glob.Pattern.{Token, literal, any, star, class, Tokens, Runes}
use intermute.Glob.Ranges.{separator}
use intermute.Glob.Search.{Fault, Verdict, answer, out_of_fuel, index_panic, segment_tokens_overlap}
use intermute.Glob.Search
use intermute.Glob.Parse.{
  GlobError, bad_pattern, too_many_tokens, too_many_wildcards, fault, parse_segment,
}

-- `filepath.ToSlash`
abbrev pub to_slash : Runes → Runes
to_slash path = path

pub push_rune : ℕ → List Runes → List Runes
push_rune c [] = (c ∷ []) ∷ []
push_rune c (seg ∷ segs) = (c ∷ seg) ∷ segs

-- `strings.Split(path, "/")` of the standard library, on which NormalizePattern and ValidateComplexity stand.
unfoldable pub split : Runes → List Runes
unfolding push_rune
split [] = [] ∷ []
split (c ∷ path) = if c == separator then [] ∷ split path else push_rune c (split path)

pub record NormalizedPattern : Type 0 where
  pub raw : Runes
  pub segments : List Runes
  pub parsed : List Tokens

unfoldable pub parse_all : List Runes → Result GlobError (List Tokens)
parse_all [] = ok []
parse_all (seg ∷ segs) = do tokens ← parse_segment seg; rest ← parse_all segs; ok (tokens ∷ rest)

unfoldable pub normalize_pattern : Runes → Result GlobError NormalizedPattern
unfolding split parse_all parse_segment
normalize_pattern pattern = do
  parsed ← parse_all (split (to_slash pattern))
  ok (record { raw = to_slash pattern; segments = split (to_slash pattern); parsed = parsed })

abbrev pub max_tokens : ℕ
max_tokens = 50

abbrev pub max_wildcards : ℕ
max_wildcards = 10

abbrev is_wildcard : Token → Bool
is_wildcard star = true
is_wildcard (any _) = true
is_wildcard _ = false

count_wildcards : Tokens → ℕ
count_wildcards [] = 0
count_wildcards (t ∷ ts) = (if is_wildcard t then 1 else 0) + count_wildcards ts

-- Both totals over the segments, from the totals so far.
count_tokens : List Runes → ℕ → ℕ → Result GlobError (ℕ × ℕ)
count_tokens [] tokens wildcards = ok (tokens, wildcards)
count_tokens (seg ∷ segs) tokens wildcards = do
  ts ← parse_segment seg
  count_tokens segs (tokens + length ts) (wildcards + count_wildcards ts)

abbrev within_limits : ℕ → ℕ → Result GlobError (Unit {0})
within_limits tokens wildcards =
    if ltb max_tokens tokens
    then err (too_many_tokens tokens)
    else if ltb max_wildcards wildcards
    then err (too_many_wildcards wildcards)
    else ok tt

unfoldable pub validate_complexity : Runes → Result GlobError (Unit {0})
unfolding split count_tokens count_wildcards parse_segment
validate_complexity pattern = do
  (tokens, wildcards) ← count_tokens (split (to_slash pattern)) 0 0
  within_limits tokens wildcards

abbrev pub of_verdict : Verdict → Result GlobError Bool
of_verdict (answer b) = ok b
of_verdict (Verdict.fault e) = err (fault e)

-- The loop over `a.parsed`, which stops at the first segments that do not meet.
unfoldable pub segments_overlap : List Tokens → List Tokens → Result GlobError Bool
segments_overlap [] b = ok true
segments_overlap (x ∷ a) [] = err (fault index_panic)
segments_overlap (x ∷ a) (y ∷ b) = do
  meet ← of_verdict (segment_tokens_overlap x y)
  elim meet [ true ↦ segments_overlap a b | false ↦ ok false ]

unfoldable pub normalized_overlap : NormalizedPattern → NormalizedPattern → Result GlobError Bool
unfolding segments_overlap segment_tokens_overlap
normalized_overlap a b =
    if length a.segments == length b.segments then segments_overlap a.parsed b.parsed else ok false

unfoldable pub patterns_overlap : Runes → Runes → Result GlobError Bool
unfolding normalize_pattern normalized_overlap
patterns_overlap a b = do
  na ← normalize_pattern a
  nb ← normalize_pattern b
  normalized_overlap na nb

unfoldable pub segment_patterns_overlap : Runes → Runes → Result GlobError Bool
unfolding parse_segment segment_tokens_overlap
segment_patterns_overlap a b = do
  tokens_a ← parse_segment a
  tokens_b ← parse_segment b
  of_verdict (segment_tokens_overlap tokens_a tokens_b)
