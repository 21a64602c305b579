-- ===== src/Glob/Pattern.antt =====
-- Tokens of a glob segment, what text they match, and the splitting of a pattern into segments:
-- `token`, `tokenConsume`, `NormalizedPattern` of internal/glob/overlap.go.
use intermute.Base.{ℕ, suc, ◌≢◌, Option, none, some, List, [], ◌∷◌, get_elem?}
use intermute.Glob.Ranges.{Ranges, In, Ascends, range, non_separator_ranges}

-- The struct `token`, split by kind; a kind keeps the fields that it uses.
pub data Token : Type 0 where
  literal : ℕ → Token
  any : Ranges → Token
  star : Token
  class : Ranges → Token

abbrev pub Tokens : Type 0
Tokens = List Token

abbrev pub Runes : Type 0
Runes = List ℕ

-- The runes that a token consumes: the second result of `tokenConsume`.
abbrev pub token_ranges : Token → Ranges
token_ranges (literal r) = range r r ∷ []
token_ranges (any rs) = rs
token_ranges star = non_separator_ranges
token_ranges (class rs) = rs

-- `tokenConsume`; `none` is an index out of range.
unfoldable pub token_consume : Tokens → ℕ → Option (ℕ × Ranges)
token_consume tokens idx = elim (get_elem? tokens idx) [
  | none ↦ none
  | some star ↦ some (idx, non_separator_ranges)
  | some (literal r) ↦ some (suc idx, range r r ∷ [])
  | some (any rs) ↦ some (suc idx, rs)
  | some (class rs) ↦ some (suc idx, rs)
]

-- What a token list means, with no search in it: a star takes any run of runes that are not the
-- separator, and every other token takes one rune of its ranges.
pub data Matches : Tokens → Runes → Type 0 where
  empty : Matches [] []
  one :
      {t : Token} {c : ℕ} {p : Tokens} {s : Runes}
      → t ≢ star
      → In c (token_ranges t)
      → Matches p s
      → Matches (t ∷ p) (c ∷ s)
  leave : {p : Tokens} {s : Runes} → Matches p s → Matches (star ∷ p) s
  take :
      {c : ℕ} {p : Tokens} {s : Runes}
      → In c (token_ranges star)
      → Matches (star ∷ p) s
      → Matches (star ∷ p) (c ∷ s)

-- Ranges in order, as the parser makes them.
abbrev pub IsOrdered : Token → Type 0
IsOrdered t = Ascends 0 (token_ranges t)
