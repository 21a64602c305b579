-- ===== src/Glob/Ranges/Intersect.antt =====
-- `intersectRanges`: the runes of both lists, in order.
use intermute.Base.{ℕ, suc, ◌≤◌, ◌↔◌, ◌⊎◌, inl, [], ◌∷◌, arith}
use intermute.Glob.Ranges.{Ranges, In, IsValid, Ascends, intersect_sorted, intersect_ranges}
use intermute.Glob.Ranges.Overlap.{Ascends-le}
use intermute.Glob.Ranges.Normal.{normalize_ranges_lem}

-- What comes out lies above both lower bounds.
Ascends-intersect_sorted :
    (a b : Ranges) (k n m : ℕ)
    → (k ≤ n) ⊎ (k ≤ m)
    → Ascends n a
    → Ascends m b
    → Ascends k (intersect_sorted a b)
unfolding intersect_sorted
Ascends-intersect_sorted [] b k n m h va vb = tt
Ascends-intersect_sorted (x ∷ a) [] k n m h va vb = tt
Ascends-intersect_sorted (x ∷ a) (y ∷ b) k n m h va vb = ground (
  arith,
  Ascends-intersect_sorted a (y ∷ b) k (suc x.hi) m,
  Ascends-intersect_sorted a (y ∷ b) (suc x.hi) (suc x.hi) m,
  Ascends-intersect_sorted (x ∷ a) b k n (suc y.hi),
  Ascends-intersect_sorted (x ∷ a) b (suc y.hi) n (suc y.hi),
)

In-intersect_sorted→ : (c : ℕ) (a b : Ranges) → In c (intersect_sorted a b) → In c a × In c b
unfolding intersect_sorted
In-intersect_sorted→ c [] b h = elim h [ ]
In-intersect_sorted→ c (x ∷ a) [] h = elim h [ ]
In-intersect_sorted→ c (x ∷ a) (y ∷ b) h =
    ground (arith, In-intersect_sorted→ c a (y ∷ b), In-intersect_sorted→ c (x ∷ a) b)

→In-intersect_sorted :
    (c : ℕ) (a b : Ranges) (n m : ℕ)
    → Ascends n a
    → Ascends m b
    → In c a
    → In c b
    → In c (intersect_sorted a b)
unfolding intersect_sorted
→In-intersect_sorted c [] b n m va vb ha hb = elim ha [ ]
→In-intersect_sorted c (x ∷ a) [] n m va vb ha hb = elim hb [ ]
→In-intersect_sorted c (x ∷ a) (y ∷ b) n m va vb ha hb = ground (
  arith,
  Ascends-le (suc x.hi) a c va.2,
  Ascends-le (suc y.hi) b c vb.2,
  →In-intersect_sorted c a (y ∷ b) (suc x.hi) m va.2 vb,
  →In-intersect_sorted c (x ∷ a) b n (suc y.hi) va vb.2,
)

-- `intersectRanges` gives the runes of both lists, in order.
pub intersect_ranges_lem :
    (a b : Ranges)
    → IsValid a
    → IsValid b
    → Ascends 0 (intersect_ranges a b) × ((c : ℕ) → In c (intersect_ranges a b) ↔ (In c a × In c b))
unfolding intersect_ranges
intersect_ranges_lem a b va vb =
    let (sa, ea) = normalize_ranges_lem a va in
    let (sb, eb) = normalize_ranges_lem b vb in
    (
      Ascends-intersect_sorted _ _ 0 0 0 (inl (omega arith)) sa sb,
      λ c. (
        λ h. let (ha, hb) = In-intersect_sorted→ c _ _ h in ((ea c).0 ha, (eb c).0 hb),
        λ h. →In-intersect_sorted c _ _ 0 0 sa sb ((ea c).1 h.0) ((eb c).1 h.1),
      ),
    )
