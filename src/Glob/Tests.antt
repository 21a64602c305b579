-- ===== src/Glob/Tests.antt =====
-- Runs of the glob package on small patterns, and its theorems at concrete inputs.
use intermute.Base.{
  ℕ, ◌≡◌, ◌↔◌, ◌≢◌, ◌⊎◌, refl, Bool, [], ◌∷◌, true, false, All, codes, ok, err, arith,
}
use intermute.Glob.Ranges.{
  Ranges, range, separator, In, IsValid, Ascends, non_separator_ranges, ranges_overlap,
  normalize_ranges, intersect_ranges, subtract_ranges,
}
use intermute.Glob.Ranges.Overlap.{ranges_overlap_iff}
use intermute.Glob.Ranges.Normal.{normalize_ranges_lem}
use intermute.Glob.Ranges.Intersect.{intersect_ranges_lem}
use intermute.Glob.Ranges.Subtract.{subtract_ranges_lem}
use intermute.Glob.Pattern.{literal, star, IsOrdered}
use intermute.Glob.Search.{segment_tokens_overlap}
use intermute.Glob.Search.Steps.{Joint}
use intermute.Glob.Search.Loop.{Decides, segment_tokens_overlap-Decides}
use intermute.Glob.Parse.{bad_pattern, too_many_wildcards, parse_segment, class_ranges}
use intermute.Glob.Parse.Sound.{Ends, IsFit, parse_segment-Ends, class_ranges_lem}
use intermute.Glob.Paths.{
  NormalizedPattern, normalize_pattern, patterns_overlap, validate_complexity,
}
use intermute.Glob.Paths.Overlap.{
  Answers, CommonPath, patterns_overlap-Answers, patterns_overlap_error, patterns_overlap_comm,
}

go_files_meet : patterns_overlap (codes "pkg/*.go") (codes "pkg/ev?n*.go") ≡ ok true
unfolding patterns_overlap
go_files_meet = refl

other_depth : patterns_overlap (codes "pkg/*") (codes "pkg/a/b") ≡ ok false
unfolding patterns_overlap
other_depth = refl

classes_part : patterns_overlap (codes "[a-c]x") (codes "[^a-c]x") ≡ ok false
unfolding patterns_overlap
classes_part = refl

unclosed : patterns_overlap (codes "a[b") (codes "a") ≡ err bad_pattern
unfolding patterns_overlap
unclosed = refl

eleven_stars : validate_complexity (codes "***********") ≡ err (too_many_wildcards 11)
unfolding validate_complexity
eleven_stars = refl

-- The patterns `a*` and `*b`, parsed.
abbrev a_star : NormalizedPattern
a_star = record {
  raw = codes "a*";
  segments = codes "a*" ∷ [];
  parsed = (literal b'a' ∷ star ∷ []) ∷ [];
}

abbrev star_b : NormalizedPattern
star_b = record {
  raw = codes "*b";
  segments = codes "*b" ∷ [];
  parsed = (star ∷ literal b'b' ∷ []) ∷ [];
}

a_star_parses : normalize_pattern (codes "a*") ≡ ok a_star
unfolding normalize_pattern
a_star_parses = refl

star_b_parses : normalize_pattern (codes "*b") ≡ ok star_b
unfolding normalize_pattern
star_b_parses = refl

patterns_overlap-Answers_example :
    Answers (CommonPath a_star star_b) (patterns_overlap (codes "a*") (codes "*b"))
patterns_overlap-Answers_example =
    patterns_overlap-Answers (codes "a*") (codes "*b") a_star star_b a_star_parses star_b_parses

a_star_IsOrdered : All IsOrdered (literal b'a' ∷ star ∷ [])
a_star_IsOrdered = omega arith

star_b_IsOrdered : All IsOrdered (star ∷ literal b'b' ∷ [])
star_b_IsOrdered = omega arith

segment_tokens_overlap-Decides_example :
    Decides
      (Joint (literal b'a' ∷ star ∷ []) (star ∷ literal b'b' ∷ []))
      (segment_tokens_overlap (literal b'a' ∷ star ∷ []) (star ∷ literal b'b' ∷ []))
segment_tokens_overlap-Decides_example =
    segment_tokens_overlap-Decides (literal b'a' ∷ star ∷ []) (star ∷ literal b'b' ∷ [])
      a_star_IsOrdered star_b_IsOrdered

patterns_overlap_error_example :
    ((patterns_overlap (codes "a[b") (codes "a") ≡ err bad_pattern)
      × ((normalize_pattern (codes "a[b") ≡ err bad_pattern)
          ⊎ (normalize_pattern (codes "a") ≡ err bad_pattern)))
    ⊎ ((na nb : NormalizedPattern) × (normalize_pattern (codes "a[b") ≡ ok na)
        × (normalize_pattern (codes "a") ≡ ok nb)
        × ((answer : Bool) × (patterns_overlap (codes "a[b") (codes "a") ≡ ok answer)))
patterns_overlap_error_example = patterns_overlap_error (codes "a[b") (codes "a")

patterns_overlap_comm_example :
    patterns_overlap (codes "x/*") (codes "x/y?") ≡ patterns_overlap (codes "x/y?") (codes "x/*")
patterns_overlap_comm_example = patterns_overlap_comm (codes "x/*") (codes "x/y?")

parse_segment-Ends_example :
    Ends
      (λ ts. All IsOrdered ts × (All (λ c. c ≢ separator) (codes "[a-c]?*\\]") → All IsFit ts))
      (parse_segment (codes "[a-c]?*\\]"))
parse_segment-Ends_example = parse_segment-Ends (codes "[a-c]?*\\]")

-- Out of order, and they overlap.
abbrev d_to_k_and_a_to_f : Ranges
d_to_k_and_a_to_f = range b'd' b'k' ∷ range b'a' b'f' ∷ []

d_to_k_and_a_to_f-IsValid : IsValid d_to_k_and_a_to_f
d_to_k_and_a_to_f-IsValid = omega arith

class_ranges_lem_example :
    Ascends 0 (class_ranges true d_to_k_and_a_to_f)
    × ((c : ℕ)
        → In c (class_ranges true d_to_k_and_a_to_f)
          ↔ (In c non_separator_ranges × ¬ In c d_to_k_and_a_to_f))
class_ranges_lem_example = class_ranges_lem true d_to_k_and_a_to_f d_to_k_and_a_to_f-IsValid

abbrev a_to_c : Ranges
a_to_c = range b'a' b'c' ∷ []

abbrev c_to_e : Ranges
c_to_e = range b'c' b'e' ∷ []

a_to_c-Ascends : Ascends 0 a_to_c
a_to_c-Ascends = omega arith

c_to_e-Ascends : Ascends 0 c_to_e
c_to_e-Ascends = omega arith

ranges_overlap_iff_example :
    (ranges_overlap a_to_c c_to_e ≡ true) ↔ ((c : ℕ) × In c a_to_c × In c c_to_e)
ranges_overlap_iff_example = ranges_overlap_iff a_to_c c_to_e a_to_c-Ascends c_to_e-Ascends

normalize_ranges_lem_example :
    Ascends 0 (normalize_ranges d_to_k_and_a_to_f)
    × ((c : ℕ) → In c (normalize_ranges d_to_k_and_a_to_f) ↔ In c d_to_k_and_a_to_f)
normalize_ranges_lem_example = normalize_ranges_lem d_to_k_and_a_to_f d_to_k_and_a_to_f-IsValid

intersect_ranges_lem_example :
    Ascends 0 (intersect_ranges d_to_k_and_a_to_f d_to_k_and_a_to_f)
    × ((c : ℕ)
        → In c (intersect_ranges d_to_k_and_a_to_f d_to_k_and_a_to_f)
          ↔ (In c d_to_k_and_a_to_f × In c d_to_k_and_a_to_f))
intersect_ranges_lem_example =
    intersect_ranges_lem d_to_k_and_a_to_f d_to_k_and_a_to_f d_to_k_and_a_to_f-IsValid
      d_to_k_and_a_to_f-IsValid

non_separator_ranges-IsValid : IsValid non_separator_ranges
non_separator_ranges-IsValid = omega arith

subtract_ranges_lem_example :
    Ascends 0 (subtract_ranges non_separator_ranges d_to_k_and_a_to_f)
    × ((c : ℕ)
        → In c (subtract_ranges non_separator_ranges d_to_k_and_a_to_f)
          ↔ (In c non_separator_ranges × ¬ In c d_to_k_and_a_to_f))
subtract_ranges_lem_example =
    subtract_ranges_lem non_separator_ranges d_to_k_and_a_to_f non_separator_ranges-IsValid
      d_to_k_and_a_to_f-IsValid
