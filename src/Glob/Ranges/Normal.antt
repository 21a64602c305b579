-- ===== src/Glob/Ranges/Normal.antt =====
-- `normalizeRanges`: sorting and merging keep the runes and put the ranges in order.
use intermute.Base.{ℕ, suc, ◌≤◌, ◌≡◌, ◌↔◌, [], ◌∷◌, arith}
use intermute.Glob.Ranges.{
  RuneRange, Ranges, range, In, IsValid, Ascends, insert_range, sort_ranges, merge_ranges,
  merge_sorted, normalize_ranges,
}

abbrev LoSorted : ℕ → Ranges → Type 0
LoSorted n [] = Unit {0}
LoSorted n (r ∷ rs) = (n ≤ r.lo) × LoSorted r.lo rs

In-insert_range : (c : ℕ) (r : RuneRange) (rs : Ranges) → In c (insert_range r rs) ↔ In c (r ∷ rs)
unfolding insert_range
In-insert_range c r [] = (λ h. h, λ h. h)
In-insert_range c r (s ∷ rs) =
    let ih = In-insert_range c r rs in (ground (arith, ih.0), ground (arith, ih.1))

insert_range-IsValid :
    (r : RuneRange) (rs : Ranges) → r.lo ≤ r.hi → IsValid rs → IsValid (insert_range r rs)
unfolding insert_range
insert_range-IsValid r [] h v = (h, tt)
insert_range-IsValid r (s ∷ rs) h v = ground (arith, insert_range-IsValid r rs h v.1)

insert_range-LoSorted :
    (n : ℕ) (r : RuneRange) (rs : Ranges)
    → n ≤ r.lo
    → LoSorted n rs
    → LoSorted n (insert_range r rs)
unfolding insert_range
insert_range-LoSorted n r [] h v = (h, tt)
insert_range-LoSorted n r (s ∷ rs) h v = ground (arith, insert_range-LoSorted s.lo r rs)

In-sort_ranges : (c : ℕ) (rs : Ranges) → In c (sort_ranges rs) ↔ In c rs
unfolding sort_ranges
In-sort_ranges c [] = (λ h. h, λ h. h)
In-sort_ranges c (r ∷ rs) =
    let ih = In-sort_ranges c rs in
    let step = In-insert_range c r (sort_ranges rs) in
    (ground (arith, ih.0, step.0), ground (arith, ih.1, step.1))

sort_ranges-IsValid : (rs : Ranges) → IsValid rs → IsValid (sort_ranges rs)
unfolding sort_ranges
sort_ranges-IsValid [] v = tt
sort_ranges-IsValid (r ∷ rs) v = insert_range-IsValid r _ v.0 (sort_ranges-IsValid rs v.1)

sort_ranges-LoSorted : (rs : Ranges) → LoSorted 0 (sort_ranges rs)
unfolding sort_ranges
sort_ranges-LoSorted [] = tt
sort_ranges-LoSorted (r ∷ rs) = insert_range-LoSorted 0 r _ (omega arith) (sort_ranges-LoSorted rs)

LoSorted-mono : (m n : ℕ) (rs : Ranges) → m ≤ n → LoSorted n rs → LoSorted m rs
LoSorted-mono m n [] h s = tt
LoSorted-mono m n (r ∷ rs) h s = (omega arith, s.1)

Ascends-merge_ranges :
    (n : ℕ) (r : RuneRange) (rs : Ranges)
    → n ≤ r.lo
    → r.lo ≤ r.hi
    → LoSorted r.lo rs
    → IsValid rs
    → Ascends n (merge_ranges r rs)
unfolding merge_ranges
Ascends-merge_ranges n r [] h v s w = (h, v, tt)
Ascends-merge_ranges n r (q ∷ rs) h v s w = ground (
  arith,
  Ascends-merge_ranges n (range r.lo q.hi) rs,
  Ascends-merge_ranges n r rs,
  Ascends-merge_ranges (suc r.hi) q rs,
  LoSorted-mono r.lo q.lo rs,
)

In-merge_ranges :
    (c : ℕ) (r : RuneRange) (rs : Ranges)
    → r.lo ≤ r.hi
    → LoSorted r.lo rs
    → IsValid rs
    → In c (merge_ranges r rs) ↔ In c (r ∷ rs)
unfolding merge_ranges
In-merge_ranges c r [] v s w = (λ h. h, λ h. h)
In-merge_ranges c r (q ∷ rs) v s w = (
  ground (
    arith,
    LoSorted-mono r.lo q.lo rs,
    In-merge_ranges c (range r.lo q.hi) rs,
    In-merge_ranges c r rs,
    In-merge_ranges c q rs,
  ),
  ground (
    arith,
    LoSorted-mono r.lo q.lo rs,
    In-merge_ranges c (range r.lo q.hi) rs,
    In-merge_ranges c r rs,
    In-merge_ranges c q rs,
  ),
)

-- Merging a sorted list puts it in order.
merge_sorted_lem :
    (rs : Ranges)
    → IsValid rs
    → LoSorted 0 rs
    → Ascends 0 (merge_sorted rs) × ((c : ℕ) → In c (merge_sorted rs) ↔ In c rs)
unfolding merge_sorted
merge_sorted_lem [] v s = (tt, λ c. (λ h. h, λ h. h))
merge_sorted_lem (r ∷ rs) v s =
    (Ascends-merge_ranges 0 r rs s.0 v.0 s.1 v.1, λ c. In-merge_ranges c r rs v.0 s.1 v.1)

-- `normalizeRanges` puts ranges that are not empty in order, and keeps their runes.
pub normalize_ranges_lem :
    (rs : Ranges)
    → IsValid rs
    → Ascends 0 (normalize_ranges rs) × ((c : ℕ) → In c (normalize_ranges rs) ↔ In c rs)
unfolding normalize_ranges
normalize_ranges_lem [] v = (tt, λ c. (λ h. h, λ h. h))
normalize_ranges_lem (r ∷ []) v = ((omega arith, v.0, tt), λ c. (λ h. h, λ h. h))
normalize_ranges_lem (r ∷ q ∷ rs) v =
    let rest =
      merge_sorted_lem (sort_ranges (r ∷ q ∷ rs)) (sort_ranges-IsValid (r ∷ q ∷ rs) v)
        (sort_ranges-LoSorted (r ∷ q ∷ rs)) in
    let sorted = λ (c : ℕ). In-sort_ranges c (r ∷ q ∷ rs) in
    (
      rw long rest.0,
      λ c. rw long (λ h. (sorted c).0 ((rest.1 c).0 h), λ h. (rest.1 c).1 ((sorted c).1 h)),
    )
  where
    long : normalize_ranges (r ∷ q ∷ rs) ≡ merge_sorted (sort_ranges (r ∷ q ∷ rs))
    long = ground arith
