-- ===== src/Glob/Ranges/Subtract.antt =====
-- `subtractRanges`: the runes of the first list that are not in the second, in order.
use intermute.Base.{ℕ, suc, ◌≤◌, ◌↔◌, ◌⊎◌, inl, inr, [], ◌∷◌, ◌++◌, arith}
use intermute.Glob.Ranges.{
  RuneRange, Ranges, In, IsValid, Ascends, cut_range, cut_all, cut_each, subtract_sorted,
  subtract_ranges, normalize_ranges,
}
use intermute.Glob.Ranges.Overlap.{Ascends-IsValid}
use intermute.Glob.Ranges.Normal.{normalize_ranges_lem}

-- In order, from `n` and below `m`.
abbrev Within : ℕ → ℕ → Ranges → Type 0
Within n m [] = n ≤ m
Within n m (r ∷ rs) = (n ≤ r.lo) × (r.lo ≤ r.hi) × Within (suc r.hi) m rs

Within-append : (n k m : ℕ) (xs ys : Ranges) → Within n k xs → Within k m ys → Within n m (xs ++ ys)
Within-append n k m [] [] hx hy = omega arith
Within-append n k m [] (y ∷ ys) hx hy = (omega arith, hy.1, hy.2)
Within-append n k m (x ∷ xs) ys hx hy = (hx.0, hx.1, Within-append (suc x.hi) k m xs ys hx.2 hy)

In-append : (c : ℕ) (xs ys : Ranges) → In c (xs ++ ys) ↔ (In c xs ⊎ In c ys)
In-append c [] ys = (inr, ground arith)
In-append c (x ∷ xs) ys = let ih = In-append c xs ys in (ground (arith, ih.0), ground (arith, ih.1))

Within-cut_range :
    (s c : RuneRange) (n m : ℕ) → s.lo ≤ s.hi → Within n m (c ∷ []) → Within n m (cut_range s c)
unfolding cut_range
Within-cut_range s c n m hs h = ground arith

In-cut_range :
    (k : ℕ) (s c : RuneRange)
    → s.lo ≤ s.hi
    → In k (cut_range s c) ↔ (In k (c ∷ []) × ¬ In k (s ∷ []))
unfolding cut_range
In-cut_range k s c hs = (ground arith, ground arith)

Within-cut_all :
    (s : RuneRange) (cs : Ranges) (n m : ℕ)
    → s.lo ≤ s.hi
    → Within n m cs
    → Within n m (cut_all s cs)
unfolding cut_all
Within-cut_all s [] n m hs h = h
Within-cut_all s (c ∷ cs) n m hs h =
    Within-append n (suc c.hi) m (cut_range s c) (cut_all s cs)
      (Within-cut_range s c n (suc c.hi) hs (h.0, h.1, omega arith))
      (Within-cut_all s cs (suc c.hi) m hs h.2)

In-cut_all :
    (k : ℕ) (s : RuneRange) (cs : Ranges)
    → s.lo ≤ s.hi
    → In k (cut_all s cs) ↔ (In k cs × ¬ In k (s ∷ []))
unfolding cut_all
In-cut_all k s [] hs = (λ h. elim h [ ], λ h. h.0)
In-cut_all k s (c ∷ cs) hs =
    let ih = In-cut_all k s cs hs in
    let here = In-cut_range k s c hs in
    let both = In-append k (cut_range s c) (cut_all s cs) in
    (ground (arith, ih.0, here.0, both.0), ground (arith, ih.1, here.1, both.1))

Within-cut_each :
    (ss cs : Ranges) (n m : ℕ) → IsValid ss → n ≤ m → Within n m cs → Within n m (cut_each ss cs)
unfolding cut_each
Within-cut_each [] cs n m v e h = h
Within-cut_each (s ∷ ss) [] n m v e h = e
Within-cut_each (s ∷ ss) (c ∷ cs) n m v e h =
    Within-cut_each ss (cut_all s (c ∷ cs)) n m v.1 e (Within-cut_all s (c ∷ cs) n m v.0 h)

In-cut_each : (k : ℕ) (ss cs : Ranges) → IsValid ss → In k (cut_each ss cs) ↔ (In k cs × ¬ In k ss)
unfolding cut_each
In-cut_each k [] cs v = (λ h. (h, λ e. e), λ h. h.0)
In-cut_each k (s ∷ ss) [] v = (λ h. elim h [ ], λ h. h.0)
In-cut_each k (s ∷ ss) (c ∷ cs) v =
    let ih = In-cut_each k ss (cut_all s (c ∷ cs)) v.1 in
    let here = In-cut_all k s (c ∷ cs) v.0 in
    (
      λ h.
          let (a, b) = ih.0 h in
          let (d, e) = here.0 a in (d, λ n. elim n [ inl x ↦ e (inl x) | inr y ↦ b y ]),
      λ h. ih.1 (here.1 (h.0, λ n. elim n [ inl x ↦ h.1 (inl x) | inr y ↦ y ]), λ n. h.1 (inr n)),
    )

Ascends-append : (n k : ℕ) (xs ys : Ranges) → Within n k xs → Ascends k ys → Ascends n (xs ++ ys)
Ascends-append n k [] [] hx hy = tt
Ascends-append n k [] (y ∷ ys) hx hy = (omega arith, hy.1, hy.2)
Ascends-append n k (x ∷ xs) ys hx hy = (hx.0, hx.1, Ascends-append (suc x.hi) k xs ys hx.2 hy)

Ascends-subtract_sorted :
    (n : ℕ) (base ss : Ranges) → Ascends n base → IsValid ss → Ascends n (subtract_sorted base ss)
unfolding subtract_sorted
Ascends-subtract_sorted n [] ss h v = tt
Ascends-subtract_sorted n (b ∷ base) ss h v =
    Ascends-append n (suc b.hi) (cut_each ss (b ∷ [])) (subtract_sorted base ss)
      (Within-cut_each ss (b ∷ []) n (suc b.hi) v (omega arith) (h.0, h.1, omega arith))
      (Ascends-subtract_sorted (suc b.hi) base ss h.2 v)

In-subtract_sorted :
    (k : ℕ) (base ss : Ranges)
    → IsValid ss
    → In k (subtract_sorted base ss) ↔ (In k base × ¬ In k ss)
unfolding subtract_sorted
In-subtract_sorted k [] ss v = (λ h. elim h [ ], λ h. h.0)
In-subtract_sorted k (b ∷ base) ss v =
    let ih = In-subtract_sorted k base ss v in
    let here = In-cut_each k ss (b ∷ []) v in
    let both = In-append k (cut_each ss (b ∷ [])) (subtract_sorted base ss) in
    (ground (arith, ih.0, here.0, both.0), ground (arith, ih.1, here.1, both.1))

-- `subtractRanges` gives the runes of the first list that are not in the second, in order.
pub subtract_ranges_lem :
    (base ss : Ranges)
    → IsValid base
    → IsValid ss
    → Ascends 0 (subtract_ranges base ss)
      × ((c : ℕ) → In c (subtract_ranges base ss) ↔ (In c base × ¬ In c ss))
unfolding subtract_ranges
subtract_ranges_lem base ss vb vs =
    let (ab, eb) = normalize_ranges_lem base vb in
    let (as', es) = normalize_ranges_lem ss vs in
    let valid = Ascends-IsValid 0 (normalize_ranges ss) as' in
    (
      Ascends-subtract_sorted 0 _ _ ab valid,
      λ c.
          let here = In-subtract_sorted c (normalize_ranges base) (normalize_ranges ss) valid in
          (
            λ h. ((eb c).0 (here.0 h).0, λ n. (here.0 h).1 ((es c).1 n)),
            λ h. here.1 ((eb c).1 h.0, λ n. h.1 ((es c).0 n)),
          ),
    )
