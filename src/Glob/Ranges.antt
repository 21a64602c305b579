-- ===== src/Glob/Ranges.antt =====
-- Sorted lists of rune ranges: `runeRange`, `rangesOverlap`, `normalizeRanges`, `intersectRanges`
-- and `subtractRanges` of internal/glob/overlap.go. A rune is its code point; no range reaches
-- above the largest rune, so `hi + 1` does not wrap.
pub mod Overlap
pub mod Normal
pub mod Intersect
pub mod Subtract
use intermute.Base.{
  ℕ, suc, ◌+◌, ◌-◌, ◌≤◌, ◌⊎◌, Bool, true, false, ◌||◌, List, [], ◌∷◌, ◌++◌, ltb, leb, ◌==◌,
  if◌then◌else◌, length,
}

pub record RuneRange : Type 0 where
  pub lo : ℕ
  pub hi : ℕ

abbrev pub Ranges : Type 0
Ranges = List RuneRange

abbrev pub range : ℕ → ℕ → RuneRange
range lo hi = record { lo = lo; hi = hi }

abbrev pub max_rune : ℕ
max_rune = 0x10FFFF

abbrev pub separator : ℕ
separator = b'/'

abbrev pub non_separator_ranges : Ranges
non_separator_ranges = range 0 (separator - 1) ∷ range (separator + 1) max_rune ∷ []

-- The runes that a list of ranges stands for.
abbrev pub In : ℕ → Ranges → Type 0
In c [] = ⊥
In c (r ∷ rs) = ((r.lo ≤ c) × (c ≤ r.hi)) ⊎ In c rs

-- No range is empty.
abbrev pub IsValid : Ranges → Type 0
IsValid [] = Unit {0}
IsValid (r ∷ rs) = (r.lo ≤ r.hi) × IsValid rs

-- From `n` upwards, in order, without overlap.
abbrev pub Ascends : ℕ → Ranges → Type 0
Ascends n [] = Unit {0}
Ascends n (r ∷ rs) = (n ≤ r.lo) × (r.lo ≤ r.hi) × Ascends (suc r.hi) rs

-- The two indices are the two lists that are left.
unfoldable pub ranges_overlap : Ranges → Ranges → Bool
ranges_overlap [] b = false
ranges_overlap (x ∷ a) [] = false
ranges_overlap (x ∷ a) (y ∷ b) =
    let skip_x = ranges_overlap a (y ∷ b) in
    let skip_y = ranges_overlap (x ∷ a) b in
    if ltb x.hi y.lo then skip_x else if ltb y.hi x.lo then skip_y else true

-- The order of `sort.Slice`.
abbrev range_before : RuneRange → RuneRange → Bool
range_before r s = if r.lo == s.lo then ltb r.hi s.hi else ltb r.lo s.lo

insert_range : RuneRange → Ranges → Ranges
insert_range r [] = r ∷ []
insert_range r (s ∷ rs) =
    let later = s ∷ insert_range r rs in if range_before s r then later else r ∷ s ∷ rs

-- `sort.Slice`: ranges that the order does not tell apart are equal, so every sort gives this list.
sort_ranges : Ranges → Ranges
unfolding insert_range
sort_ranges [] = []
sort_ranges (r ∷ rs) = insert_range r (sort_ranges rs)

-- The merging loop, with `current` and the ranges still to come.
merge_ranges : RuneRange → Ranges → Ranges
merge_ranges current [] = current ∷ []
merge_ranges current (rr ∷ rs) =
    let merged =
      merge_ranges (if ltb current.hi rr.hi then range current.lo rr.hi else current) rs in
    let apart = current ∷ merge_ranges rr rs in if leb rr.lo (current.hi + 1) then merged else apart

merge_sorted : Ranges → Ranges
merge_sorted [] = []
merge_sorted (r ∷ rs) = merge_ranges r rs

unfoldable pub normalize_ranges : Ranges → Ranges
unfolding sort_ranges merge_ranges merge_sorted
normalize_ranges rs = if leb (length rs) 1 then rs else merge_sorted (sort_ranges rs)

abbrev max_int_rune : ℕ → ℕ → ℕ
max_int_rune a b = if ltb b a then a else b

abbrev min_int_rune : ℕ → ℕ → ℕ
min_int_rune a b = if ltb a b then a else b

-- One step's output, and the loop over both lists.
abbrev common : RuneRange → RuneRange → Ranges
common x y =
    if leb (max_int_rune x.lo y.lo) (min_int_rune x.hi y.hi)
    then range (max_int_rune x.lo y.lo) (min_int_rune x.hi y.hi) ∷ []
    else []

intersect_sorted : Ranges → Ranges → Ranges
intersect_sorted [] b = []
intersect_sorted (x ∷ a) [] = []
intersect_sorted (x ∷ a) (y ∷ b) =
    let drop_x = intersect_sorted a (y ∷ b) in
    let drop_y = intersect_sorted (x ∷ a) b in
    common x y ++ (if ltb x.hi y.hi then drop_x else drop_y)

unfoldable pub intersect_ranges : Ranges → Ranges → Ranges
unfolding intersect_sorted normalize_ranges
intersect_ranges a b = intersect_sorted (normalize_ranges a) (normalize_ranges b)

-- What is left of one range `c` beside `s`.
cut_range : RuneRange → RuneRange → Ranges
cut_range s c =
    if ltb s.hi c.lo || ltb c.hi s.lo
    then c ∷ []
    else (if ltb c.lo s.lo then range c.lo (s.lo - 1) ∷ [] else [])
      ++ (if ltb s.hi c.hi then range (s.hi + 1) c.hi ∷ [] else [])

cut_all : RuneRange → Ranges → Ranges
unfolding cut_range
cut_all s [] = []
cut_all s (c ∷ current) = cut_range s c ++ cut_all s current

-- The loop over the subtracted ranges; its early `break` is on an empty list, which stays empty.
cut_each : Ranges → Ranges → Ranges
unfolding cut_all
cut_each [] current = current
cut_each (s ∷ ss) [] = []
cut_each (s ∷ ss) (c ∷ current) = cut_each ss (cut_all s (c ∷ current))

subtract_sorted : Ranges → Ranges → Ranges
unfolding cut_each
subtract_sorted [] ss = []
subtract_sorted (b ∷ base) ss = cut_each ss (b ∷ []) ++ subtract_sorted base ss

unfoldable pub subtract_ranges : Ranges → Ranges → Ranges
unfolding subtract_sorted normalize_ranges
subtract_ranges base subtract = subtract_sorted (normalize_ranges base) (normalize_ranges subtract)
