-- ===== src/Stamp/Order.antt =====
-- Where the order of the texts is not the order in time.
use intermute.Base.{
  ℕ, zero, suc, ◌+◌, ◌*◌, ◌/◌, ◌%◌, ◌^◌, ◌<◌, ◌≡◌, refl, sym, ap, ◌∙◌, true, false, [], ◌∷◌, ◌++◌,
  Text, arith,
}
use native.Mathlib.Nat.{pow-suc}
use intermute.Stamp.{
  second, digits, trim_zeros, stamp_tail, seconds_text, text_lt, stamp_text, stamp_lt,
}

trim_zeros-snoc :
    (ds : Text) (d : ℕ) → trim_zeros (ds ++ d ∷ []) ≡ [] → (trim_zeros ds ≡ []) × (d ≡ b'0')
unfolding trim_zeros
trim_zeros-snoc [] d h = ground arith
trim_zeros-snoc (x ∷ ds) d h = ground (arith, trim_zeros-snoc ds d)

-- Only 0 has no digit other than 0.
digits-trim : (k n : ℕ) → n < 10 ^ k → trim_zeros (digits k n) ≡ [] → n ≡ 0
unfolding digits
digits-trim zero n h e = omega arith
digits-trim (suc k) n h e =
    let (front, last) = trim_zeros-snoc (digits k (n / 10)) (b'0' + n % 10) e in
    let small : n / 10 < 10 ^ k = omega (arith, pow-suc 10 k) in
    omega (arith, digits-trim k (n / 10) small front)

-- A text with a fraction goes on with a dot.
stamp_tail_dot : (n : ℕ) → n < second → 0 < n → (r : Text) × (stamp_tail n ≡ b'.' ∷ r)
unfolding stamp_tail
stamp_tail_dot n h p = go (trim_zeros (digits 9 n)) refl
  where
    go : (ds : Text) → trim_zeros (digits 9 n) ≡ ds → (r : Text) × (stamp_tail n ≡ b'.' ∷ r)
    go [] e = absurd (omega (arith, digits-trim 9 n h e))
    go (d ∷ ds) e = (d ∷ ds ++ b'Z' ∷ [], rw (e, stamp_tail))

text_lt-append : (p x y : Text) → text_lt (p ++ x) (p ++ y) ≡ text_lt x y
unfolding text_lt
text_lt-append [] x y = refl
text_lt-append (c ∷ p) x y = ground (arith, text_lt-append p x y)

-- Two texts of one second compare by what stands behind the seconds.
stamp_lt-tail :
    (a b : ℕ)
    → a / second ≡ b / second
    → stamp_lt a b ≡ text_lt (stamp_tail (a % second)) (stamp_tail (b % second))
unfolding stamp_lt stamp_text
stamp_lt-tail a b e =
    ap
      (λ n.
        text_lt (seconds_text n ++ stamp_tail (a % second))
          (seconds_text (b / second) ++ stamp_tail (b % second)))
      e
    ∙ text_lt-append (seconds_text (b / second)) (stamp_tail (a % second)) (stamp_tail (b % second))

dot_first :
    (r : Text)
    → (text_lt (b'.' ∷ r) (stamp_tail 0) ≡ true) × (text_lt (stamp_tail 0) (b'.' ∷ r) ≡ false)
unfolding text_lt stamp_tail
dot_first r = (ground arith, ground arith)

-- In one second the text of every later instant comes before the text of the whole second.
pub stamp_lt_whole :
    (s f : ℕ)
    → 0 < f
    → f < second
    → (stamp_lt (s * second + f) (s * second) ≡ true)
      × (stamp_lt (s * second) (s * second + f) ≡ false)
stamp_lt_whole s f p h =
    let (r, e) = stamp_tail_dot f h p in
    let q : (s * second + f) / second ≡ (s * second) / second = omega arith in
    let m : (s * second + f) % second ≡ f = omega arith in
    let m' : (s * second) % second ≡ 0 = omega arith in
    rw (stamp_lt-tail _ _ q, stamp_lt-tail _ _ (sym q), m, m', e) (dot_first r)
