-- ===== src/Base/Maps.antt =====
-- Go's maps with string keys, as association lists; the list's order is one order of iteration.
use mathlib.Core.Path.{◌≡◌, ap, ◌∙◌}
use mathlib.Core.Logic.{inl, inr}
use mathlib.Core.Bool.{false}
use mathlib.Core.List.{List, [], ◌∷◌}
use mathlib.Core.Option.{Option, none, some}
use intermute.Base.Tests.{if◌then◌else◌, Bool-cases}
use intermute.Base.Strings.{Text, text_eq, text_eq_iff, text_eq_refl}

abbrev pub Map {ℓ} : Type ℓ → Type ℓ
Map V = List (Text × V)

module _ {ℓ} {V : Type ℓ} where
  unfoldable pub find : Text → Map V → Option V
  find key [] = none
  find key ((k, v) ∷ rest) = if text_eq k key then some v else find key rest

  unfoldable pub find_or : V → Text → Map V → V
  unfolding find
  find_or default key m = elim (find key m) [ none ↦ default | some v ↦ v ]

  unfoldable pub put : Text → V → Map V → Map V
  put key v [] = (key, v) ∷ []
  put key v ((k, w) ∷ rest) =
      let after = put key v rest in if text_eq k key then (k, v) ∷ rest else (k, w) ∷ after

  pub find-put_same : (key : Text) (v : V) (m : Map V) → find key (put key v m) ≡ some v
  unfolding find put
  find-put_same key v [] = rw (text_eq_refl key)
  find-put_same key v ((k, w) ∷ rest) = elim (Bool-cases (text_eq k key)) [
    | inl e ↦ rw (e, e)
    | inr e ↦ rw (e, e, find-put_same key v rest)
  ]

  pub find-put_other :
      (key other : Text) (v : V) (m : Map V)
      → text_eq key other ≡ false
      → find other (put key v m) ≡ find other m
  unfolding find put
  find-put_other key other v [] ne = rw ne
  find-put_other key other v ((k, w) ∷ rest) ne = elim (Bool-cases (text_eq k key)) [
    | inl e ↦
        let same : text_eq k other ≡ false =
          ap (λ (t : Text). text_eq t other) ((text_eq_iff k key).0 e) ∙ ne in
        rw (e, same)
    | inr e ↦ rw (e, find-put_other key other v rest ne)
  ]

  pub find_or-put_same : (d : V) (key : Text) (v : V) (m : Map V) → find_or d key (put key v m) ≡ v
  unfolding find_or
  find_or-put_same d key v m = rw (find_or, find-put_same key v m)

  pub find_or-put_other :
      (d : V) (key other : Text) (v : V) (m : Map V)
      → text_eq key other ≡ false
      → find_or d other (put key v m) ≡ find_or d other m
  unfolding find_or
  find_or-put_other d key other v m ne = rw (find_or, find_or, find-put_other key other v m ne)
