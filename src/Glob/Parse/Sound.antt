-- ===== src/Glob/Parse/Sound.antt =====
-- What `parseSegment` gives: tokens whose ranges are in order and leave the separator out, or the
-- error for a bad pattern.
use intermute.Base.{
  ℕ, zero, suc, ◌≤◌, ◌≡◌, ◌≢◌, ◌↔◌, ◌∙◌, ◌⊎◌, inl, inr, Bool, true, false, not, ◌&&◌, [], ◌∷◌, ◌++◌,
  length, ltb, ◌==◌, if◌then◌else◌, Result, ok, err, ◌>>=◌, All, All-append, arith, Bool-cases,
  if_cases,
}
use intermute.Glob.Ranges.{
  Ranges, RuneRange, In, IsValid, Ascends, range, normalize_ranges, non_separator_ranges, separator,
}
use intermute.Glob.Ranges.Overlap.{Ascends-IsValid}
use intermute.Glob.Ranges.Normal.{normalize_ranges_lem}
use intermute.Glob.Ranges.Intersect.{intersect_ranges_lem}
use intermute.Glob.Ranges.Subtract.{subtract_ranges_lem}
use intermute.Glob.Pattern.{Token, literal, any, star, Tokens, Runes, token_ranges, IsOrdered}
use intermute.Glob.Parse.{
  GlobError, bad_pattern, backslash, read_class_rune, ClassRest, range_item, class_item,
  class_round, class_loop, class_ranges, class_body, parse_class, escaped, next_token, segment_loop,
  parse_segment,
}

-- A value of which `P` holds, or the error for a bad pattern.
abbrev pub Ends {ℓ} : {A : Type ℓ} → (A → Type 0) → Result GlobError A → Type 0
Ends P (ok a) = P a
Ends P (err bad_pattern) = Unit {0}
Ends P (err _) = ⊥

pub Ends-bind {ℓ κ} :
    {A : Type ℓ} {B : Type κ} (P : A → Type 0) (Q : B → Type 0) (first : Result GlobError A)
    (next : A → Result GlobError B)
    → Ends P first
    → ((x : A) → P x → Ends Q (next x))
    → Ends Q (first >>= next)
Ends-bind P Q (ok x) next good go_on = go_on x good
Ends-bind P Q (err bad_pattern) next good go_on = tt
Ends-bind P Q (err _) next good go_on = good

abbrev Plain : Runes → Type 0
Plain = All (λ c. c ≢ separator)

-- Some rune is gone, and the rest is plain if all was.
abbrev Shorter {ℓ} : {A : Type ℓ} → Runes → A × Runes → Type 0
Shorter runes (_, rest) = (suc (length rest) ≤ length runes) × (Plain runes → Plain rest)

pub Ends-mono {ℓ} :
    {A : Type ℓ} (P Q : A → Type 0) (r : Result GlobError A)
    → ((a : A) → P a → Q a)
    → Ends P r
    → Ends Q r
Ends-mono P Q (ok a) f h = f a h
Ends-mono P Q (err bad_pattern) f h = tt
Ends-mono P Q (err _) f h = h

read_class_rune-Ends : (runes : Runes) → Ends (Shorter runes) (read_class_rune runes)
unfolding read_class_rune
read_class_rune-Ends [] = tt
read_class_rune-Ends (c ∷ []) = ground arith
read_class_rune-Ends (c ∷ d ∷ runes) = ground arith

IsValid-snoc : (rs : Ranges) (r : RuneRange) → IsValid rs → r.lo ≤ r.hi → IsValid (rs ++ r ∷ [])
IsValid-snoc [] r v h = (h, tt)
IsValid-snoc (x ∷ rs) r v h = (v.0, IsValid-snoc rs r v.1 h)

-- What the loop gives for the runes that it starts from.
abbrev Classed : Runes → Ranges × Runes → Type 0
Classed runes (ranges, rest) =
    IsValid ranges × (length rest ≤ length runes) × (Plain runes → Plain rest)

abbrev NextOk : ℕ → ClassRest → Type 0
NextOk n next =
    (ranges : Ranges) (runes : Runes)
    → IsValid ranges
    → length runes ≤ n
    → Ends (Classed runes) (next ranges runes)

Classed-weaken :
    (small big : Runes) (r : Result GlobError (Ranges × Runes))
    → length small ≤ length big
    → (Plain big → Plain small)
    → Ends (Classed small) r
    → Ends (Classed big) r
Classed-weaken small big (ok (ranges, rest)) h p c = (c.0, omega arith, λ q. c.2 (p q))
Classed-weaken small big (err bad_pattern) h p c = tt
Classed-weaken small big (err _) h p c = c

range_item-Ends :
    (n : ℕ) (next : ClassRest) (ranges : Ranges) (lo : ℕ) (runes : Runes)
    → NextOk n next
    → IsValid ranges
    → length runes ≤ n
    → Ends (Classed runes) (range_item next ranges lo runes)
unfolding range_item
range_item-Ends n next ranges lo runes k v h =
    Ends-bind (Shorter runes) (Classed runes) (read_class_rune runes) _ (read_class_rune-Ends runes)
      λ (hi, rest) s. go hi rest s (Bool-cases (ltb hi lo))
  where
    go :
        (hi : ℕ) (rest : Runes)
        → Shorter runes (hi, rest)
        → (ltb hi lo ≡ true) ⊎ (ltb hi lo ≡ false)
        → Ends
            (Classed runes)
            (if ltb hi lo then err bad_pattern else next (ranges ++ range lo hi ∷ []) rest)
    go hi rest s (inl e) = rw e tt
    go hi rest s (inr e) = rw e (
        Classed-weaken rest runes _ (omega arith) s.1 (
          k (ranges ++ range lo hi ∷ []) rest (IsValid-snoc ranges _ v (ground arith))
            (omega arith)))

class_item-Ends :
    (n : ℕ) (next : ClassRest) (ranges : Ranges) (lo : ℕ) (runes : Runes)
    → NextOk n next
    → IsValid ranges
    → length runes ≤ n
    → Ends (Classed runes) (class_item next ranges lo runes)
unfolding class_item
class_item-Ends n next ranges lo [] k v h = k _ [] (IsValid-snoc ranges _ v (omega arith)) h
class_item-Ends n next ranges lo (d ∷ []) k v h =
    k _ (d ∷ []) (IsValid-snoc ranges _ v (omega arith)) h
class_item-Ends n next ranges lo (d ∷ e ∷ runes) k v h =
    if_cases (Ends (Classed (d ∷ e ∷ runes))) (d == b'-' && not (e == b']')) _ _
      (λ _.
        Classed-weaken (e ∷ runes) (d ∷ e ∷ runes) _ (omega arith) (λ q. q.1)
          (range_item-Ends n next ranges lo (e ∷ runes) k v (omega arith)))
      (λ _. k _ (d ∷ e ∷ runes) (IsValid-snoc ranges _ v (omega arith)) h)

class_round-Ends :
    (n : ℕ) (next : ClassRest) (ranges : Ranges) (runes : Runes)
    → NextOk n next
    → IsValid ranges
    → length runes ≤ suc n
    → Ends (Classed runes) (class_round next ranges runes)
unfolding class_round
class_round-Ends n next ranges runes k v h =
    Ends-bind (Shorter runes) (Classed runes) (read_class_rune runes) _ (read_class_rune-Ends runes)
      λ (lo, rest) s.
        Classed-weaken rest runes _ (omega arith) s.1
          (class_item-Ends n next ranges lo rest k v (omega arith))

class_loop-Ends : (fuel : ℕ) (had : Bool) → NextOk fuel (class_loop fuel had)
unfolding class_loop
class_loop-Ends fuel had ranges [] v h = tt
class_loop-Ends zero had ranges (c ∷ runes) v h = absurd (omega arith)
class_loop-Ends (suc fuel) had ranges (c ∷ runes) v h =
    let ih = class_loop-Ends fuel true in
    if_cases (Ends (Classed (c ∷ runes))) (c == b']' && had) _ _ (λ _. (v, omega arith, λ q. q.1))
      (λ _. class_round-Ends fuel _ ranges (c ∷ runes) ih v h)

non_separator_ranges-IsValid : IsValid non_separator_ranges
non_separator_ranges-IsValid = omega arith

In-non_separator : (c : ℕ) → In c non_separator_ranges → c ≢ separator
In-non_separator c h = ground arith

-- A class stands for the runes of its ranges, or for all others if it is negated; in order, and
-- the separator is never among them.
pub class_ranges_lem :
    (negated : Bool) (ranges : Ranges)
    → IsValid ranges
    → Ascends 0 (class_ranges negated ranges)
      × ((c : ℕ)
          → In c (class_ranges negated ranges)
            ↔ (In c non_separator_ranges × (if negated then ¬ In c ranges else In c ranges)))
unfolding class_ranges
class_ranges_lem true ranges v =
    let (order, same) = normalize_ranges_lem ranges v in
    let (order', sub) =
      subtract_ranges_lem non_separator_ranges (normalize_ranges ranges)
        non_separator_ranges-IsValid (Ascends-IsValid 0 _ order) in
    (
      order',
      λ c. (
        λ h. (((sub c).0 h).0, λ n. ((sub c).0 h).1 ((same c).1 n)),
        λ h. (sub c).1 (h.0, λ n. h.1 ((same c).0 n)),
      ),
    )
class_ranges_lem false ranges v =
    let (order, same) = normalize_ranges_lem ranges v in
    let (order', both) =
      intersect_ranges_lem (normalize_ranges ranges) non_separator_ranges
        (Ascends-IsValid 0 _ order) non_separator_ranges-IsValid in
    (
      order',
      λ c. (
        λ h. (((both c).0 h).1, (same c).0 ((both c).0 h).0),
        λ h. (both c).1 ((same c).1 h.1, h.0),
      ),
    )

-- Ranges in order, and never the separator.
abbrev pub IsFit : Token → Type 0
IsFit t = IsOrdered t × ((c : ℕ) → In c (token_ranges t) → c ≢ separator)

-- The token's ranges are in order, and it leaves the separator out where the pattern does.
abbrev Fits : Runes → Token × Runes → Type 0
Fits runes (t, rest) =
    IsOrdered t
    × (Plain runes → IsFit t)
    × (length rest ≤ length runes)
    × (Plain runes → Plain rest)

class_body-Ends : (negated : Bool) (runes : Runes) → Ends (Fits runes) (class_body negated runes)
unfolding class_body
class_body-Ends negated runes =
    Ends-bind (Classed runes) (Fits runes) (class_loop (length runes) false [] runes) _
      (class_loop-Ends (length runes) false [] runes tt (omega arith))
      λ (ranges, rest) k.
        let (order, same) = class_ranges_lem negated ranges k.0 in
        (order, λ _. (order, λ c h. In-non_separator c ((same c).0 h).0), k.1, k.2)

Fits-weaken :
    (c : ℕ) (runes : Runes) (r : Result GlobError (Token × Runes))
    → Ends (Fits runes) r
    → Ends (Fits (c ∷ runes)) r
Fits-weaken c runes (ok (t, rest)) f = (f.0, λ q. f.1 q.1, omega arith, λ q. f.3 q.1)
Fits-weaken c runes (err bad_pattern) f = tt
Fits-weaken c runes (err _) f = f

parse_class-Ends : (runes : Runes) → Ends (Fits runes) (parse_class runes)
unfolding parse_class
parse_class-Ends [] = tt
parse_class-Ends (c ∷ runes) =
    if_cases (Ends (Fits (c ∷ runes))) (c == b'^') _ _
      (λ _. Fits-weaken c runes _ (class_body-Ends true runes))
      (λ _. class_body-Ends false (c ∷ runes))

-- One token off the front of `ch ∷ runes`.
abbrev Took : ℕ → Runes → Token × Runes → Type 0
Took ch runes (t, rest) =
    IsOrdered t
    × (Plain (ch ∷ runes) → IsFit t)
    × (length rest ≤ length runes)
    × (Plain (ch ∷ runes) → Plain rest)

Fits-Took :
    (ch : ℕ) (runes : Runes) (r : Result GlobError (Token × Runes))
    → Ends (Fits runes) r
    → Ends (Took ch runes) r
Fits-Took ch runes (ok (t, rest)) f = (f.0, λ q. f.1 q.1, f.2, λ q. f.3 q.1)
Fits-Took ch runes (err bad_pattern) f = tt
Fits-Took ch runes (err _) f = f

literal-IsOrdered : (c : ℕ) → IsOrdered (literal c)
literal-IsOrdered c = (omega arith, omega arith, tt)

literal-IsFit : (c : ℕ) → c ≢ separator → IsFit (literal c)
literal-IsFit c h = (
  literal-IsOrdered c,
  λ k m. elim m [ inl w ↦ let e : c ≡ k = omega arith in λ s. h (e ∙ s) | inr n ↦ absurd n ],
)

non_separator-IsFit : IsFit star × IsFit (any non_separator_ranges)
non_separator-IsFit = ((omega arith, In-non_separator), (omega arith, In-non_separator))

escaped-Ends : (ch : ℕ) (runes : Runes) → Ends (Took ch runes) (escaped runes)
escaped-Ends ch [] = tt
escaped-Ends ch (c ∷ runes) =
    (literal-IsOrdered c, λ q. literal-IsFit c q.1.0, omega arith, λ q. q.1.1)

next_token-Ends : (ch : ℕ) (runes : Runes) → Ends (Took ch runes) (next_token ch runes)
unfolding next_token
next_token-Ends ch runes =
    if_cases P (ch == b'*') _ _ (λ _. (fit.0.0, λ _. fit.0, omega arith, λ q. q.1))
      λ _.
        if_cases P (ch == b'?') _ _ (λ _. (fit.1.0, λ _. fit.1, omega arith, λ q. q.1))
          λ _.
            if_cases P (ch == b'[') _ _ (λ _. Fits-Took ch runes _ (parse_class-Ends runes))
              λ _.
                if_cases P (ch == backslash) _ _ (λ _. escaped-Ends ch runes)
                  λ _. (literal-IsOrdered ch, λ q. literal-IsFit ch q.0, omega arith, λ q. q.1)
  where
    P : Result GlobError (Token × Runes) → Type 0
    P = Ends (Took ch runes)

    fit : IsFit star × IsFit (any non_separator_ranges)
    fit = non_separator-IsFit

segment_loop-Ends :
    (fuel : ℕ) (runes : Runes) (tokens : Tokens)
    → length runes ≤ fuel
    → All IsOrdered tokens
    → Ends
        (λ ts. All IsOrdered ts × (Plain runes → All IsFit tokens → All IsFit ts))
        (segment_loop fuel runes tokens)
unfolding segment_loop
segment_loop-Ends fuel [] tokens h o = (o, λ _ f. f)
segment_loop-Ends zero (ch ∷ runes) tokens h o = absurd (omega arith)
segment_loop-Ends (suc fuel) (ch ∷ runes) tokens h o =
    Ends-bind (Took ch runes) _ (next_token ch runes) _ (next_token-Ends ch runes) λ (t, rest) k.
      Ends-mono _ _ (segment_loop fuel rest (tokens ++ t ∷ []))
        (λ ts p. (p.0, λ q f. p.1 (k.3 q) (All-append IsFit tokens (t ∷ []) f (k.1 q, tt))))
        (segment_loop-Ends fuel rest (tokens ++ t ∷ []) (omega (arith, k.2))
          (All-append IsOrdered tokens (t ∷ []) o (k.0, tt)))

-- `parseSegment` stops within its fuel. It gives tokens with their ranges in order, or the error for
-- a bad pattern; from a segment without the separator, no token stands for the separator.
pub parse_segment-Ends :
    (segment : Runes)
    → Ends
        (λ ts. All IsOrdered ts × (All (λ c. c ≢ separator) segment → All IsFit ts))
        (parse_segment segment)
unfolding parse_segment
parse_segment-Ends segment =
    Ends-mono _ _ (segment_loop (length segment) segment []) (λ ts p. (p.0, λ q. p.1 q tt))
      (segment_loop-Ends (length segment) segment [] (omega arith) tt)
