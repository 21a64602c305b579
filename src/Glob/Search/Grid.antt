-- ===== src/Glob/Search/Grid.antt =====
-- Counting the pairs of positions that a search has not seen, which bounds its rounds.
use intermute.Base.{
  ℕ, zero, suc, ◌+◌, ◌*◌, ◌≤◌, ◌≡◌, inl, true, false, List, [], ◌∷◌, ◌++◌, arith, if◌then◌else◌,
  length, length-append, Mem, Mem-append_left, Mem-append_right,
}
use intermute.Glob.Search.{State, state, is_seen}

pub is_seen-Mem : (x : State) (l : List State) → is_seen x l ≡ true → Mem x l
unfolding is_seen
is_seen-Mem x [] h = absurd (ground arith)
is_seen-Mem x (y ∷ ys) h = ground (arith, is_seen-Mem x ys)

pub Mem-is_seen : (x : State) (l : List State) → Mem x l → is_seen x l ≡ true
unfolding is_seen
Mem-is_seen x [] h = elim h [ ]
Mem-is_seen x (y ∷ ys) h = ground (arith, Mem-is_seen x ys)

row : ℕ → ℕ → List State
row i zero = state i 0 ∷ []
row i (suc n) = state i (suc n) ∷ row i n

unfoldable pub grid : ℕ → ℕ → List State
unfolding row
grid zero n = row 0 n
grid (suc m) n = row (suc m) n ++ grid m n

length-row : (i n : ℕ) → length (row i n) ≡ suc n
unfolding row
length-row i zero = omega arith
length-row i (suc n) = omega (arith, length-row i n)

pub length-grid : (m n : ℕ) → length (grid m n) ≡ (m + 1) * (n + 1)
unfolding grid
length-grid zero n = omega (arith, length-row 0 n)
length-grid (suc m) n =
    omega (arith, length-append (row (suc m) n) (grid m n), length-row (suc m) n, length-grid m n)

Mem-row : (i n j : ℕ) → j ≤ n → Mem (state i j) (row i n)
unfolding row
Mem-row i zero j h = inl (ground arith)
Mem-row i (suc n) j h = ground (arith, Mem-row i n j)

pub Mem-grid : (m n i j : ℕ) → i ≤ m → j ≤ n → Mem (state i j) (grid m n)
unfolding grid
Mem-grid zero n i j hi hj = ground (arith, Mem-row 0 n j hj)
Mem-grid (suc m) n i j hi hj = ground (
  arith,
  Mem-grid m n i j,
  Mem-append_right (state i j) (row (suc m) n) (grid m n),
  Mem-append_left (state i j) (row (suc m) n) (grid m n),
  Mem-row (suc m) n j,
)

unfoldable pub unseen : List State → List State → ℕ
unseen [] seen = 0
unseen (g ∷ gs) seen = (if is_seen g seen then 0 else 1) + unseen gs seen

pub unseen-nil : (gs : List State) → unseen gs [] ≡ length gs
unfolding unseen is_seen
unseen-nil [] = omega arith
unseen-nil (g ∷ gs) = omega (arith, unseen-nil gs)

unseen-cons-le : (x : State) (gs seen : List State) → unseen gs (x ∷ seen) ≤ unseen gs seen
unfolding unseen is_seen
unseen-cons-le x [] seen = omega arith
unseen-cons-le x (g ∷ gs) seen = ground (arith, unseen-cons-le x gs seen)

pub unseen-cons-lt :
    (x : State) (gs seen : List State)
    → Mem x gs
    → is_seen x seen ≡ false
    → suc (unseen gs (x ∷ seen)) ≤ unseen gs seen
unfolding unseen is_seen
unseen-cons-lt x [] seen m h = elim m [ ]
unseen-cons-lt x (g ∷ gs) seen m h =
    ground (arith, unseen-cons-le x gs seen, unseen-cons-lt x gs seen)

pub unseen-le-length : (gs seen : List State) → unseen gs seen ≤ length gs
unfolding unseen
unseen-le-length [] seen = omega arith
unseen-le-length (g ∷ gs) seen = ground (arith, unseen-le-length gs seen)
