-- ===== src/Glob/Ranges/Overlap.antt =====
-- `rangesOverlap` against the runes that the ranges stand for.
use intermute.Base.{ℕ, suc, ◌≤◌, ◌≡◌, ◌↔◌, inl, inr, true, [], ◌∷◌, arith, ltb, Bool-cases}
use intermute.Glob.Ranges.{Ranges, In, IsValid, Ascends, ranges_overlap, max_int_rune}

pub Ascends-le : (n : ℕ) (rs : Ranges) (c : ℕ) → Ascends n rs → In c rs → n ≤ c
Ascends-le n [] c a h = elim h [ ]
Ascends-le n (r ∷ rs) c a h = ground (arith, Ascends-le (suc r.hi) rs c a.2)

pub Ascends-IsValid : (n : ℕ) (rs : Ranges) → Ascends n rs → IsValid rs
Ascends-IsValid n [] a = tt
Ascends-IsValid n (r ∷ rs) a = (a.1, Ascends-IsValid (suc r.hi) rs a.2)

ranges_overlap_sound :
    (a b : Ranges) → IsValid a → IsValid b → ranges_overlap a b ≡ true → (c : ℕ) × In c a × In c b
unfolding ranges_overlap
ranges_overlap_sound [] b va vb h = absurd (ground arith)
ranges_overlap_sound (x ∷ a) [] va vb h = absurd (ground arith)
ranges_overlap_sound (x ∷ a) (y ∷ b) va vb h = elim (Bool-cases (ltb x.hi y.lo)) [
  | inl p ↦
      let (c, ha, hb) = ranges_overlap_sound a (y ∷ b) va.1 vb (ground arith) in (c, inr ha, hb)
  | inr p ↦ elim (Bool-cases (ltb y.hi x.lo)) [
    | inl q ↦
        let (c, ha, hb) = ranges_overlap_sound (x ∷ a) b va vb.1 (ground arith) in (c, ha, inr hb)
    | inr q ↦ (max_int_rune x.lo y.lo, inl (ground arith), inl (ground arith))
  ]
]

ranges_overlap_complete :
    (a b : Ranges) (n m c : ℕ)
    → Ascends n a
    → Ascends m b
    → In c a
    → In c b
    → ranges_overlap a b ≡ true
unfolding ranges_overlap
ranges_overlap_complete [] b n m c va vb ha hb = elim ha [ ]
ranges_overlap_complete (x ∷ a) [] n m c va vb ha hb = elim hb [ ]
ranges_overlap_complete (x ∷ a) (y ∷ b) n m c va vb ha hb = ground (
  arith,
  Ascends-le (suc x.hi) a c va.2,
  Ascends-le (suc y.hi) b c vb.2,
  ranges_overlap_complete a (y ∷ b) (suc x.hi) m c va.2 vb,
  ranges_overlap_complete (x ∷ a) b n (suc y.hi) c va vb.2,
)

-- On ranges in order `rangesOverlap` answers whether some rune lies in both lists.
pub ranges_overlap_iff :
    (a b : Ranges)
    → Ascends 0 a
    → Ascends 0 b
    → (ranges_overlap a b ≡ true) ↔ ((c : ℕ) × In c a × In c b)
ranges_overlap_iff a b va vb = (
  ranges_overlap_sound a b (Ascends-IsValid 0 a va) (Ascends-IsValid 0 b vb),
  λ h. ranges_overlap_complete a b 0 0 h.0 va vb h.1 h.2,
)
