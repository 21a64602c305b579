-- ===== src/Glob/Search/Steps.antt =====
-- Positions in a token list against what is left of it, and why a search that is closed under its
-- steps and never reaches both ends leaves no common text.
use intermute.Base.{
  ℕ, zero, suc, ◌≤◌, ◌≡◌, ◌≢◌, refl, subst, [], ◌∷◌, some, arith, length, get_elem?, drop, true,
}
use intermute.Glob.Ranges.{In}
use intermute.Glob.Pattern.{
  Token, literal, any, star, class, Tokens, Runes, token_ranges, token_consume, Matches, empty, one,
  leave, take,
}
use intermute.Glob.Search.{star_at}

-- A text that both token lists match.
abbrev pub Joint : Tokens → Tokens → Type 0
Joint p q = (s : Runes) × Matches p s × Matches q s

-- The position, and the tokens, after a rune is consumed.
abbrev pub next : Token → ℕ → ℕ
next star i = i
next _ i = suc i

abbrev pub rest : Token → Tokens → Tokens
rest star p = star ∷ p
rest (literal _) p = p
rest (any _) p = p
rest (class _) p = p

pub get_elem?-drop :
    (ts : Tokens) (i : ℕ) (t : Token) → get_elem? ts i ≡ some t → drop i ts ≡ t ∷ drop (suc i) ts
get_elem?-drop [] i t h = cc
get_elem?-drop (x ∷ ts) zero t h = ground arith
get_elem?-drop (x ∷ ts) (suc i) t h = get_elem?-drop ts i t h

pub get_elem?-lt : (ts : Tokens) (i : ℕ) (t : Token) → get_elem? ts i ≡ some t → suc i ≤ length ts
get_elem?-lt [] i t h = cc
get_elem?-lt (x ∷ ts) zero t h = omega arith
get_elem?-lt (x ∷ ts) (suc i) t h = omega (arith, get_elem?-lt ts i t h)

pub drop-get_elem? :
    (ts : Tokens) (i : ℕ) (t : Token) (p : Tokens)
    → drop i ts ≡ t ∷ p
    → (get_elem? ts i ≡ some t) × (drop (suc i) ts ≡ p)
drop-get_elem? [] zero t p h = absurd (ground arith)
drop-get_elem? [] (suc i) t p h = absurd (ground arith)
drop-get_elem? (x ∷ ts) zero t p h = ground arith
drop-get_elem? (x ∷ ts) (suc i) t p h = drop-get_elem? ts i t p h

pub drop-length : (ts : Tokens) → drop (length ts) ts ≡ []
drop-length [] = refl
drop-length (x ∷ ts) = drop-length ts

pub drop-eq_nil : (ts : Tokens) (i : ℕ) → i ≤ length ts → drop i ts ≡ [] → i ≡ length ts
drop-eq_nil [] i h e = omega arith
drop-eq_nil (x ∷ ts) zero h e = absurd (ground arith)
drop-eq_nil (x ∷ ts) (suc i) h e = omega (arith, drop-eq_nil ts i (omega arith) e)

pub get_elem?-some :
    (ts : Tokens) (i : ℕ) → suc i ≤ length ts → (t : Token) × (get_elem? ts i ≡ some t)
get_elem?-some [] i h = absurd (omega arith)
get_elem?-some (x ∷ ts) zero h = (x, refl)
get_elem?-some (x ∷ ts) (suc i) h = get_elem?-some ts i (omega arith)

pub star_at_lem : (ts : Tokens) (i : ℕ) → star_at ts i ≡ true → get_elem? ts i ≡ some star
unfolding star_at
star_at_lem ts i h = ground arith

pub star_at-some : (ts : Tokens) (i : ℕ) → get_elem? ts i ≡ some star → star_at ts i ≡ true
unfolding star_at
star_at-some ts i h = rw (h, star_at)

pub token_consume_lem :
    (ts : Tokens) (i : ℕ) (t : Token)
    → get_elem? ts i ≡ some t
    → token_consume ts i ≡ some (next t i, token_ranges t)
unfolding token_consume
token_consume_lem ts i (literal r) h = rw (h, token_consume)
token_consume_lem ts i (any rs) h = rw (h, token_consume)
token_consume_lem ts i star h = rw (h, token_consume)
token_consume_lem ts i (class rs) h = rw (h, token_consume)

pub drop-next :
    (ts : Tokens) (i : ℕ) (t : Token)
    → get_elem? ts i ≡ some t
    → drop (next t i) ts ≡ rest t (drop (suc i) ts)
drop-next ts i (literal r) h = refl
drop-next ts i (any rs) h = refl
drop-next ts i star h = get_elem?-drop ts i star h
drop-next ts i (class rs) h = refl

pub next-le : (ts : Tokens) (i : ℕ) (t : Token) → get_elem? ts i ≡ some t → next t i ≤ length ts
next-le ts i (literal r) h = get_elem?-lt ts i _ h
next-le ts i (any rs) h = get_elem?-lt ts i _ h
next-le ts i star h = omega (arith, get_elem?-lt ts i _ h)
next-le ts i (class rs) h = get_elem?-lt ts i _ h

rest_one : (t : Token) (p : Tokens) → t ≢ star → rest t p ≡ p
rest_one (literal r) p h = refl
rest_one (any rs) p h = refl
rest_one star p h = absurd (h refl)
rest_one (class rs) p h = refl

pub Matches-eat :
    (t : Token) (p : Tokens) (c : ℕ) (s : Runes)
    → In c (token_ranges t)
    → Matches (rest t p) s
    → Matches (t ∷ p) (c ∷ s)
Matches-eat (literal r) p c s h d = one (λ e. cc) h d
Matches-eat (any rs) p c s h d = one (λ e. cc) h d
Matches-eat star p c s h d = take h d
Matches-eat (class rs) p c s h d = one (λ e. cc) h d

-- A set of pairs of remaining tokens that the search's steps do not leave.
pub record IsClosed (S : Tokens → Tokens → Type 0) : Type 0 where
  pub exit_left : (p q : Tokens) → S (star ∷ p) q → S p q
  pub exit_right : (p q : Tokens) → S p (star ∷ q) → S p q
  pub eats :
      (t u : Token) (p q : Tokens) (c : ℕ)
      → S (t ∷ p) (u ∷ q)
      → In c (token_ranges t)
      → In c (token_ranges u)
      → S (rest t p) (rest u q)
  pub stops : S [] [] → ⊥

module _ (S : Tokens → Tokens → Type 0) (k : IsClosed S) where
  eats_one_one :
      (t u : Token) (p q : Tokens) (c : ℕ)
      → t ≢ star
      → u ≢ star
      → S (t ∷ p) (u ∷ q)
      → In c (token_ranges t)
      → In c (token_ranges u)
      → S p q
  eats_one_one t u p q c ht hu h m n =
      subst (λ w. S w q) (rest_one t p ht)
        (subst (λ w. S (rest t p) w) (rest_one u q hu) (k.eats t u p q c h m n))

  pub no_common_text : {p q : Tokens} {s : Runes} → S p q → Matches p s → Matches q s → ⊥
  no_common_text h empty empty = k.stops h
  no_common_text h empty (leave e) = no_common_text (k.exit_right _ _ h) empty e
  no_common_text h (one n m d) (one n' m' e) =
      no_common_text (eats_one_one _ _ _ _ _ n n' h m m') d e
  no_common_text h (one n m d) (leave e) = no_common_text (k.exit_right _ _ h) (one n m d) e
  no_common_text h (one {t} {p} n m d) (take {p = q} m' e) =
      no_common_text (subst (λ w. S w (star ∷ q)) (rest_one t p n) (k.eats t star p q _ h m m')) d e
  no_common_text h (leave d) e = no_common_text (k.exit_left _ _ h) d e
  no_common_text h (take {p} m d) (one {t = u} {p = q} n m' e) =
      no_common_text (subst (λ w. S (star ∷ p) w) (rest_one u q n) (k.eats star u p q _ h m m')) d e
  no_common_text h (take m d) (leave e) = no_common_text (k.exit_right _ _ h) (take m d) e
  no_common_text h (take m d) (take m' e) = no_common_text (k.eats star star _ _ _ h m m') d e
