-- ===== src/Glob/Paths/Meaning.antt =====
-- Which paths a pattern matches, and splitting against joining.
use intermute.Base.{
  ℕ, suc, ◌≡◌, ◌≢◌, refl, ap, ◌∙◌, List, [], ◌∷◌, ◌++◌, length, ◌==◌, All, arith, if_cases,
}
use intermute.Glob.Ranges.{separator}
use intermute.Glob.Pattern.{Tokens, Runes, Matches, empty, one, leave, take}
use intermute.Glob.Parse.Sound.{IsFit}
use intermute.Glob.Paths.{split, push_rune}

-- Segment by segment.
abbrev pub MatchesAll : List Tokens → List Runes → Type 0
MatchesAll [] [] = Unit {0}
MatchesAll [] (s ∷ ss) = ⊥
MatchesAll (ts ∷ tss) [] = ⊥
MatchesAll (ts ∷ tss) (s ∷ ss) = Matches ts s × MatchesAll tss ss

-- A path matches when its segments do.
abbrev pub MatchesPath : List Tokens → Runes → Type 0
MatchesPath tss path = MatchesAll tss (split path)

abbrev pub IsPlain : Runes → Type 0
IsPlain = All (λ c. c ≢ separator)

pub length-MatchesAll :
    (tss : List Tokens) (ss : List Runes) → MatchesAll tss ss → length tss ≡ length ss
length-MatchesAll [] [] h = refl
length-MatchesAll [] (s ∷ ss) h = absurd h
length-MatchesAll (ts ∷ tss) [] h = absurd h
length-MatchesAll (ts ∷ tss) (s ∷ ss) h = ap suc (length-MatchesAll tss ss h.1)

-- A text that fitting tokens match has no separator.
Matches-IsPlain : {ts : Tokens} {s : Runes} → All IsFit ts → Matches ts s → IsPlain s
Matches-IsPlain f empty = tt
Matches-IsPlain f (one {c} n m d) = (f.0.1 c m, Matches-IsPlain f.1 d)
Matches-IsPlain f (leave d) = Matches-IsPlain f.1 d
Matches-IsPlain f (take {c} m d) = (f.0.1 c m, Matches-IsPlain f d)

pub MatchesAll-IsPlain :
    (tss : List Tokens) (ss : List Runes) → All (All IsFit) tss → MatchesAll tss ss → All IsPlain ss
MatchesAll-IsPlain [] [] f h = tt
MatchesAll-IsPlain [] (s ∷ ss) f h = absurd h
MatchesAll-IsPlain (ts ∷ tss) [] f h = absurd h
MatchesAll-IsPlain (ts ∷ tss) (s ∷ ss) f h =
    (Matches-IsPlain f.0 h.0, MatchesAll-IsPlain tss ss f.1 h.1)

push_rune-IsPlain :
    (c : ℕ) (segs : List Runes) → c ≢ separator → All IsPlain segs → All IsPlain (push_rune c segs)
unfolding push_rune
push_rune-IsPlain c [] h p = ((h, tt), tt)
push_rune-IsPlain c (seg ∷ segs) h p = ((h, p.0), p.1)

-- `strings.Split` leaves no separator in a segment.
pub split-IsPlain : (path : Runes) → All IsPlain (split path)
unfolding split
split-IsPlain [] = (tt, tt)
split-IsPlain (c ∷ path) =
    if_cases (All IsPlain) (c == separator) _ _ (λ _. (tt, split-IsPlain path))
      (λ e. push_rune-IsPlain c (split path) (ground arith) (split-IsPlain path))

-- `strings.Join(segs, "/")`
pub join : List Runes → Runes
join [] = []
join (seg ∷ []) = seg
join (seg ∷ next ∷ segs) = seg ++ separator ∷ join (next ∷ segs)

split_plain : (seg : Runes) → IsPlain seg → split seg ≡ seg ∷ []
unfolding split push_rune
split_plain [] h = refl
split_plain (c ∷ seg) h = ground (arith, split_plain seg h.1)

split_plain_append :
    (seg path : Runes) → IsPlain seg → split (seg ++ separator ∷ path) ≡ seg ∷ split path
unfolding split push_rune
split_plain_append [] path h = refl
split_plain_append (c ∷ seg) path h = ground (arith, split_plain_append seg path h.1)

-- Splitting a path that was joined from separator-free segments gives the segments back.
pub split-join :
    (seg : Runes) (segs : List Runes)
    → All IsPlain (seg ∷ segs)
    → split (join (seg ∷ segs)) ≡ seg ∷ segs
unfolding join
split-join seg [] h = split_plain seg h.0
split-join seg (next ∷ segs) h =
    split_plain_append seg _ h.0 ∙ ap (λ r. seg ∷ r) (split-join next segs h.1)

pub split-ne_nil : (path : Runes) → split path ≢ []
unfolding split push_rune
split-ne_nil [] e = cc
split-ne_nil (c ∷ path) e = ground arith
