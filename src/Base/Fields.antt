-- ===== src/Base/Fields.antt =====
-- `strings.Split` and `strings.Join` on a separator of one rune, and prefixes.
use Prim.Native.Nat.{ℕ}
use mathlib.Core.Path.{◌≡◌, refl, ap, ◌∙◌}
use mathlib.Core.Logic.{◌≢◌}
use mathlib.Core.Bool.{Bool, true, false, ◌&&◌, ◌||◌}
use mathlib.Core.List.{List, [], ◌∷◌, ◌++◌}
use native.Mathlib.Omega.{arith}
use intermute.Base.Tests.{if◌then◌else◌, ◌==◌, if_cases}
use intermute.Base.Lists.{All}
use intermute.Base.Strings.{Text}

unfoldable pub has_prefix : Text → Text → Bool
has_prefix s [] = true
has_prefix [] (p ∷ ps) = false
has_prefix (c ∷ s) (p ∷ ps) = c == p && has_prefix s ps

unfoldable pub contains : Text → Text → Bool
unfolding has_prefix
contains [] part = has_prefix [] part
contains (c ∷ s) part = has_prefix (c ∷ s) part || contains s part

abbrev pub push_front : ℕ → List Text → List Text
push_front c [] = (c ∷ []) ∷ []
push_front c (field ∷ fields) = (c ∷ field) ∷ fields

unfoldable pub split_on : ℕ → Text → List Text
split_on sep [] = [] ∷ []
split_on sep (c ∷ s) =
    let rest = split_on sep s in if c == sep then [] ∷ rest else push_front c rest

unfoldable pub join_with : ℕ → List Text → Text
join_with sep [] = []
join_with sep (field ∷ []) = field
join_with sep (field ∷ next ∷ fields) = field ++ sep ∷ join_with sep (next ∷ fields)

-- The separator does not occur.
abbrev pub Without : ℕ → Text → Type 0
Without sep = All (λ c. c ≢ sep)

module _ (sep : ℕ) where
  push_front-Without :
      (c : ℕ) (fields : List Text)
      → c ≢ sep
      → All (Without sep) fields
      → All (Without sep) (push_front c fields)
  push_front-Without c [] h p = ((h, tt), tt)
  push_front-Without c (field ∷ fields) h p = ((h, p.0), p.1)

  pub split_on-Without : (s : Text) → All (Without sep) (split_on sep s)
  unfolding split_on
  split_on-Without [] = (tt, tt)
  split_on-Without (c ∷ s) =
      if_cases (All (Without sep)) (c == sep) _ _ (λ _. (tt, split_on-Without s))
        (λ e. push_front-Without c (split_on sep s) (ground arith) (split_on-Without s))

  split_on_one : (field : Text) → Without sep field → split_on sep field ≡ field ∷ []
  unfolding split_on
  split_on_one [] h = refl
  split_on_one (c ∷ field) h = ground (arith, split_on_one field h.1)

  pub split_on_first :
      (field s : Text)
      → Without sep field
      → split_on sep (field ++ sep ∷ s) ≡ field ∷ split_on sep s
  unfolding split_on
  split_on_first [] s h = ground arith
  split_on_first (c ∷ field) s h = ground (arith, split_on_first field s h.1)

  pub split_on-join_with :
      (field : Text) (fields : List Text)
      → All (Without sep) (field ∷ fields)
      → split_on sep (join_with sep (field ∷ fields)) ≡ field ∷ fields
  unfolding join_with
  split_on-join_with field [] h = split_on_one field h.0
  split_on-join_with field (next ∷ fields) h =
      split_on_first field _ h.0 ∙ ap (λ rest. field ∷ rest) (split_on-join_with next fields h.1)

  pub split_on-ne_nil : (s : Text) → split_on sep s ≢ []
  unfolding split_on
  split_on-ne_nil [] e = cc
  split_on-ne_nil (c ∷ s) e = ground arith

  join_with-push_front :
      (c : ℕ) (fields : List Text)
      → fields ≢ []
      → join_with sep (push_front c fields) ≡ c ∷ join_with sep fields
  unfolding join_with
  join_with-push_front c [] ne = absurd (ne refl)
  join_with-push_front c (field ∷ []) ne = refl
  join_with-push_front c (field ∷ next ∷ fields) ne = refl

  join_with-nil_first :
      (fields : List Text) → fields ≢ [] → join_with sep ([] ∷ fields) ≡ sep ∷ join_with sep fields
  unfolding join_with
  join_with-nil_first [] ne = absurd (ne refl)
  join_with-nil_first (field ∷ fields) ne = refl

  pub join_with-split_on : (s : Text) → join_with sep (split_on sep s) ≡ s
  unfolding split_on join_with
  join_with-split_on [] = refl
  join_with-split_on (c ∷ s) =
      if_cases (λ fields. join_with sep fields ≡ c ∷ s) (c == sep) _ _
        (λ e.
          join_with-nil_first (split_on sep s) (split_on-ne_nil s)
          ∙ ap (λ rest. sep ∷ rest) (join_with-split_on s)
          ∙ ap (λ x. x ∷ s) (ground arith))
        (λ e.
          join_with-push_front c (split_on sep s) (split_on-ne_nil s)
          ∙ ap (λ rest. c ∷ rest) (join_with-split_on s))

  push_front-append :
      (c : ℕ) (xs ys : List Text) → xs ≢ [] → push_front c (xs ++ ys) ≡ push_front c xs ++ ys
  push_front-append c [] ys ne = absurd (ne refl)
  push_front-append c (x ∷ xs) ys ne = refl

  pub split_on-append :
      (s t : Text) → split_on sep (s ++ sep ∷ t) ≡ split_on sep s ++ split_on sep t
  unfolding split_on
  split_on-append [] t = ground arith
  split_on-append (c ∷ s) t =
      if_cases (λ fields. split_on sep (c ∷ s ++ sep ∷ t) ≡ fields ++ split_on sep t) (c == sep) _ _
        (λ e. rw e (ap (λ rest. [] ∷ rest) (split_on-append s t)))
        (λ e. rw e (
          ap (push_front c) (split_on-append s t)
          ∙ push_front-append c (split_on sep s) (split_on sep t) (split_on-ne_nil s)))
