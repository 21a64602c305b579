-- ===== src/Glob/Parse.antt =====
-- `parseSegment`, `parseClass` and `readClassRune` of internal/glob/overlap.go. An index into the
-- runes is the list of runes from there on; the loops run on fuel, one unit for a rune.
pub mod Sound
use intermute.Base.{
  ℕ, zero, suc, Bool, true, false, not, ◌&&◌, List, [], ◌∷◌, ◌++◌, length, ltb, ◌==◌, if◌then◌else◌,
  Result, ok, err, ◌>>=◌, ◌≡◌, refl,
}
use intermute.Glob.Ranges.{
  Ranges, range, normalize_ranges, intersect_ranges, subtract_ranges, non_separator_ranges,
}
use intermute.Glob.Pattern.{Token, literal, any, star, class, Tokens, Runes}
use intermute.Glob.Search.{Fault, out_of_fuel}

-- What the functions of the package answer other than a value. A `fault` belongs to the model only.
pub data GlobError : Type 0 where
  bad_pattern : GlobError
  too_many_tokens : ℕ → GlobError
  too_many_wildcards : ℕ → GlobError
  fault : Fault → GlobError

abbrev pub backslash : ℕ
backslash = 92

unfoldable pub read_class_rune : Runes → Result GlobError (ℕ × Runes)
read_class_rune [] = err bad_pattern
read_class_rune (c ∷ []) = if c == backslash then err bad_pattern else ok (c, [])
read_class_rune (c ∷ d ∷ runes) = if c == backslash then ok (d, runes) else ok (c, d ∷ runes)

abbrev pub ClassRest : Type 0
ClassRest = Ranges → Runes → Result GlobError (Ranges × Runes)

-- A range from `lo` on, behind its dash.
pub range_item : ClassRest → Ranges → ℕ → Runes → Result GlobError (Ranges × Runes)
range_item next ranges lo runes = do
  (hi, rest) ← read_class_rune runes
  if ltb hi lo then err bad_pattern else next (ranges ++ range lo hi ∷ []) rest

-- The body of the loop after its first rune: a range or a single rune, and the rounds after it.
pub class_item : ClassRest → Ranges → ℕ → Runes → Result GlobError (Ranges × Runes)
unfolding range_item
class_item next ranges lo (d ∷ e ∷ runes) =
    if d == b'-' && not (e == b']')
    then range_item next ranges lo (e ∷ runes)
    else next (ranges ++ range lo lo ∷ []) (d ∷ e ∷ runes)
class_item next ranges lo runes = next (ranges ++ range lo lo ∷ []) runes

class_round : ClassRest → ClassRest
unfolding class_item read_class_rune
class_round next ranges runes = do
  (lo, rest) ← read_class_rune runes
  class_item next ranges lo rest

-- `hadItem` is set by the first item.
pub class_loop : ℕ → Bool → ClassRest
unfolding class_round
class_loop fuel had_item ranges [] = err bad_pattern
class_loop zero had_item ranges (c ∷ runes) = err (fault out_of_fuel)
class_loop (suc fuel) had_item ranges (c ∷ runes) =
    if c == b']' && had_item
    then ok (ranges, runes)
    else class_round (class_loop fuel true) ranges (c ∷ runes)

pub class_ranges : Bool → Ranges → Ranges
class_ranges negated ranges =
    if negated
    then subtract_ranges non_separator_ranges (normalize_ranges ranges)
    else intersect_ranges (normalize_ranges ranges) non_separator_ranges

pub class_body : Bool → Runes → Result GlobError (Token × Runes)
class_body negated runes = do
  (ranges, rest) ← class_loop (length runes) false [] runes
  ok (class (class_ranges negated ranges), rest)

-- From behind the opening bracket.
unfoldable pub parse_class : Runes → Result GlobError (Token × Runes)
unfolding class_body class_loop class_item read_class_rune class_ranges normalize_ranges
    subtract_ranges intersect_ranges
parse_class [] = err bad_pattern
parse_class (c ∷ runes) = if c == b'^' then class_body true runes else class_body false (c ∷ runes)

abbrev pub escaped : Runes → Result GlobError (Token × Runes)
escaped [] = err bad_pattern
escaped (c ∷ runes) = ok (literal c, runes)

-- The `switch`: one token and the runes after it.
pub next_token : ℕ → Runes → Result GlobError (Token × Runes)
next_token ch runes =
    if ch == b'*'
    then ok (star, runes)
    else if ch == b'?'
    then ok (any non_separator_ranges, runes)
    else if ch == b'['
    then parse_class runes
    else if ch == backslash
    then escaped runes
    else ok (literal ch, runes)

pub segment_loop : ℕ → Runes → Tokens → Result GlobError Tokens
segment_loop fuel [] tokens = ok tokens
segment_loop zero (ch ∷ runes) tokens = err (fault out_of_fuel)
segment_loop (suc fuel) (ch ∷ runes) tokens = do
  (tok, rest) ← next_token ch runes
  segment_loop fuel rest (tokens ++ tok ∷ [])

unfoldable pub parse_segment : Runes → Result GlobError Tokens
unfolding segment_loop next_token parse_class
parse_segment segment = segment_loop (length segment) segment []
