-- ===== src/Glob/Paths/Overlap.antt =====
-- `PatternsOverlap` against the paths that patterns match.
use intermute.Base.{
  suc, ◌≡◌, ◌≢◌, ◌↔◌, refl, sym, ap, subst, ◌∙◌, inl, inr, true, false, Bool, List, [], ◌∷◌, length,
  ◌==◌, All, arith, Result, ok, err, ◌>>=◌, if_cases, ==_iff, ◌⊎◌,
}
use mathlib.Core.Bool.{false≢true}
use intermute.Glob.Pattern.{Tokens, Runes, IsOrdered}
use intermute.Glob.Search.{Verdict, answer, segment_tokens_overlap}
use intermute.Glob.Search.Loop.{Decides, segment_tokens_overlap-Decides}
use intermute.Glob.Search.Steps.{Joint}
use intermute.Glob.Parse.{GlobError, bad_pattern, parse_segment}
use intermute.Glob.Parse.Sound.{IsFit, Ends, Ends-bind, parse_segment-Ends}
use intermute.Glob.Paths.{
  NormalizedPattern, split, parse_all, normalize_pattern, of_verdict, segments_overlap,
  normalized_overlap, patterns_overlap,
}
use intermute.Glob.Paths.Meaning.{
  MatchesAll, MatchesPath, IsPlain, length-MatchesAll, MatchesAll-IsPlain, split-IsPlain, join,
  split-join, split-ne_nil,
}

-- An answer, which is right about `G`.
abbrev pub Answers : Type 0 → Result GlobError Bool → Type 0
Answers G (ok true) = G
Answers G (ok false) = ¬ G
Answers G (err _) = ⊥

Answers-iff : (G H : Type 0) (r : Result GlobError Bool) → G ↔ H → Answers G r → Answers H r
Answers-iff G H (ok true) e h = e.0 h
Answers-iff G H (ok false) e h = λ k. h (e.1 k)
Answers-iff G H (err _) e h = h

-- Some list of segments matches both.
abbrev Common : List Tokens → List Tokens → Type 0
Common a b = (ss : List Runes) × MatchesAll a ss × MatchesAll b ss

segments_overlap_step :
    (x y : Tokens) (a b : List Tokens) (v : Verdict)
    → Decides (Joint x y) v
    → Answers (Common a b) (segments_overlap a b)
    → Answers
        (Common (x ∷ a) (y ∷ b))
        (of_verdict v >>= λ meet. elim meet [ true ↦ segments_overlap a b | false ↦ ok false ])
segments_overlap_step x y a b (answer true) h k =
    Answers-iff (Common a b) (Common (x ∷ a) (y ∷ b)) (segments_overlap a b)
      (λ (ss, ma, mb). (h.0 ∷ ss, (h.1, ma), (h.2, mb)), drop_first) k
  where
    drop_first : Common (x ∷ a) (y ∷ b) → Common a b
    drop_first ([], ma, mb) = absurd ma
    drop_first (s ∷ ss, ma, mb) = (ss, ma.1, mb.1)
segments_overlap_step x y a b (answer false) h k = no_first
  where
    no_first : Common (x ∷ a) (y ∷ b) → ⊥
    no_first ([], ma, mb) = absurd ma
    no_first (s ∷ ss, ma, mb) = h (s, ma.0, mb.0)
segments_overlap_step x y a b (Verdict.fault e) h k = h

segments_overlap_lem :
    (a b : List Tokens)
    → All (All IsOrdered) a
    → All (All IsOrdered) b
    → length a ≡ length b
    → Answers (Common a b) (segments_overlap a b)
unfolding segments_overlap
segments_overlap_lem [] [] oa ob e = ([], tt, tt)
segments_overlap_lem [] (y ∷ b) oa ob e = absurd (omega arith)
segments_overlap_lem (x ∷ a) [] oa ob e = absurd (omega arith)
segments_overlap_lem (x ∷ a) (y ∷ b) oa ob e =
    segments_overlap_step x y a b (segment_tokens_overlap x y)
      (segment_tokens_overlap-Decides x y oa.0 ob.0)
      (segments_overlap_lem a b oa.1 ob.1 (omega arith))

-- What parsing all segments gives.
record IsParsed (segs : List Runes) (parsed : List Tokens) : Type 0 where
  ordered : All (All IsOrdered) parsed
  as_long : length parsed ≡ length segs
  fit : All IsPlain segs → All (All IsFit) parsed

parse_all-Ends : (segs : List Runes) → Ends (IsParsed segs) (parse_all segs)
unfolding parse_all
parse_all-Ends [] = record { ordered = tt; as_long = refl; fit = λ _. tt }
parse_all-Ends (seg ∷ segs) =
    Ends-bind _ (IsParsed (seg ∷ segs)) (parse_segment seg) _ (parse_segment-Ends seg) λ tokens p.
      Ends-bind (IsParsed segs) (IsParsed (seg ∷ segs)) (parse_all segs) _ (parse_all-Ends segs)
        λ rest q. record {
          ordered = (p.0, q.ordered);
          as_long = ap suc q.as_long;
          fit = λ h. (p.1 h.0, q.fit h.1);
        }

-- What `NormalizePattern` gives.
pub record IsNormalized (n : NormalizedPattern) : Type 0 where
  pub ordered : All (All IsOrdered) n.parsed
  pub as_long : length n.parsed ≡ length n.segments
  pub fit : All (All IsFit) n.parsed
  pub some_segment : n.segments ≢ []

normalize_pattern-Ends : (pattern : Runes) → Ends IsNormalized (normalize_pattern pattern)
unfolding normalize_pattern
normalize_pattern-Ends pattern =
    Ends-bind (IsParsed (split pattern)) IsNormalized (parse_all (split pattern)) _
      (parse_all-Ends (split pattern))
      λ parsed p. record {
        ordered = p.ordered;
        as_long = p.as_long;
        fit = p.fit (split-IsPlain pattern);
        some_segment = split-ne_nil pattern;
      }

pub normalize_pattern-IsNormalized :
    (pattern : Runes) (n : NormalizedPattern) → normalize_pattern pattern ≡ ok n → IsNormalized n
normalize_pattern-IsNormalized pattern n e = rw e at (normalize_pattern-Ends pattern)

-- A path that both patterns match.
abbrev pub CommonPath : NormalizedPattern → NormalizedPattern → Type 0
CommonPath a b = (path : Runes) × MatchesPath a.parsed path × MatchesPath b.parsed path

Common-CommonPath :
    (a b : NormalizedPattern) → IsNormalized a → Common a.parsed b.parsed → CommonPath a b
Common-CommonPath a b v ([], ma, mb) =
    absurd
      (v.some_segment (no_segment a.segments (sym v.as_long ∙ length-MatchesAll a.parsed [] ma)))
  where
    no_segment : (l : List Runes) → length l ≡ 0 → l ≡ []
    no_segment [] e = refl
    no_segment (x ∷ l) e = absurd (omega arith)
Common-CommonPath a b v (s ∷ ss, ma, mb) =
    let e = split-join s ss (MatchesAll-IsPlain a.parsed (s ∷ ss) v.fit ma) in
    (join (s ∷ ss), subst (MatchesAll a.parsed) (sym e) ma, subst (MatchesAll b.parsed) (sym e) mb)

pub normalized_overlap-Answers :
    (a b : NormalizedPattern)
    → IsNormalized a
    → IsNormalized b
    → Answers (CommonPath a b) (normalized_overlap a b)
unfolding normalized_overlap
normalized_overlap-Answers a b v w =
    if_cases (Answers (CommonPath a b)) (length a.segments == length b.segments) _ _
      (λ same.
        Answers-iff (Common a.parsed b.parsed) (CommonPath a b) _
          (Common-CommonPath a b v, λ (path, ma, mb). (split path, ma, mb))
          (segments_overlap_lem a.parsed b.parsed v.ordered w.ordered
            (omega (arith, v.as_long, w.as_long, (==_iff _ _).0 same))))
      (λ other (path, ma, mb). false≢true (
        sym other
        ∙ (==_iff _ _).1 (
            sym v.as_long
            ∙ length-MatchesAll a.parsed _ ma
            ∙ sym (length-MatchesAll b.parsed _ mb)
            ∙ w.as_long)))

-- Both patterns parse: `PatternsOverlap` gives an answer, and answers true exactly when some path
-- matches both.
pub patterns_overlap-Answers :
    (a b : Runes) (na nb : NormalizedPattern)
    → normalize_pattern a ≡ ok na
    → normalize_pattern b ≡ ok nb
    → Answers (CommonPath na nb) (patterns_overlap a b)
unfolding patterns_overlap
patterns_overlap-Answers a b na nb ea eb =
    rw (ea, eb)
      (normalized_overlap-Answers na nb (normalize_pattern-IsNormalized a na ea)
        (normalize_pattern-IsNormalized b nb eb))

normalize_pattern-cases :
    (a : Runes)
    → ((n : NormalizedPattern) × (normalize_pattern a ≡ ok n))
      ⊎ (normalize_pattern a ≡ err bad_pattern)
normalize_pattern-cases a = go (normalize_pattern a) (normalize_pattern-Ends a)
  where
    go :
        (r : Result GlobError NormalizedPattern)
        → Ends IsNormalized r
        → ((n : NormalizedPattern) × (r ≡ ok n)) ⊎ (r ≡ err bad_pattern)
    go (ok n) h = inl (n, refl)
    go (err bad_pattern) h = inr refl
    go (err _) h = absurd h

-- `PatternsOverlap` fails exactly when one of the patterns does not parse, and then with the error
-- for a bad pattern.
pub patterns_overlap_error :
    (a b : Runes)
    → ((patterns_overlap a b ≡ err bad_pattern)
        × ((normalize_pattern a ≡ err bad_pattern) ⊎ (normalize_pattern b ≡ err bad_pattern)))
      ⊎ ((na nb : NormalizedPattern) × (normalize_pattern a ≡ ok na)
          × (normalize_pattern b ≡ ok nb)
          × ((answer : Bool) × (patterns_overlap a b ≡ ok answer)))
unfolding patterns_overlap
patterns_overlap_error a b = elim (normalize_pattern-cases a) [
  | inr ea ↦ inl (rw ea, inl ea)
  | inl (na, ea) ↦ elim (normalize_pattern-cases b) [
    | inr eb ↦ inl (rw (ea, eb), inr eb)
    | inl (nb, eb) ↦ inr (na, nb, ea, eb, answered _ _ (patterns_overlap-Answers a b na nb ea eb))
  ]
]
  where
    answered : (G : Type 0) (r : Result GlobError Bool) → Answers G r → (x : Bool) × (r ≡ ok x)
    answered G (ok x) h = (x, refl)
    answered G (err e) h = absurd h

Answers-unique :
    (G H : Type 0) (r q : Result GlobError Bool) → G ↔ H → Answers G r → Answers H q → r ≡ q
Answers-unique G H (ok true) (ok true) e h k = refl
Answers-unique G H (ok true) (ok false) e h k = absurd (k (e.0 h))
Answers-unique G H (ok false) (ok true) e h k = absurd (h (e.1 k))
Answers-unique G H (ok false) (ok false) e h k = refl
Answers-unique G H (ok true) (err x) e h k = absurd k
Answers-unique G H (ok false) (err x) e h k = absurd k
Answers-unique G H (err x) q e h k = absurd h

patterns_overlap_bad :
    (a b : Runes)
    → (normalize_pattern a ≡ err bad_pattern) ⊎ (normalize_pattern b ≡ err bad_pattern)
    → patterns_overlap a b ≡ err bad_pattern
patterns_overlap_bad a b h = elim (patterns_overlap_error a b) [
  | inl (e, _) ↦ e
  | inr (na, nb, ea, eb, _) ↦ elim h [
    | inl bad ↦ absurd (ok≢err (sym ea ∙ bad))
    | inr bad ↦ absurd (ok≢err (sym eb ∙ bad))
  ]
]
  where
    ok≢err : {n : NormalizedPattern} {e : GlobError} → ok n ≡ err e → ⊥
    ok≢err p = cc

-- The order of the two patterns does not matter, on errors too.
pub patterns_overlap_comm : (a b : Runes) → patterns_overlap a b ≡ patterns_overlap b a
patterns_overlap_comm a b = elim (patterns_overlap_error a b) [
  | inl (e, inl bad) ↦ e ∙ sym (patterns_overlap_bad b a (inr bad))
  | inl (e, inr bad) ↦ e ∙ sym (patterns_overlap_bad b a (inl bad))
  | inr (na, nb, ea, eb, _) ↦
      Answers-unique (CommonPath na nb) (CommonPath nb na) _ _
        (λ (p, x, y). (p, y, x), λ (p, x, y). (p, y, x)) (patterns_overlap-Answers a b na nb ea eb)
        (patterns_overlap-Answers b a nb na eb ea)
]
