-- ===== src/Domain/Reads.antt =====
-- What a read finds after an update.
use intermute.Base.{
  ℕ, ◌≡◌, refl, sym, ap, subst, ◌∙◌, inl, inr, true, false, ◌&&◌, ◌||◌, Option, some, Option-cases,
  List, [], ◌∷◌, map, ◌==◌, if◌then◌else◌, if_cases, Bool-cases, and-parts, ==_iff, All, Text,
  text_eq, text_eq_iff, ok, arith,
}
use mathlib.Core.Option
use intermute.Domain.{
  Columns, ColumnLaws, same_key, at_version, any_entity, get_entity, set_row, update_entity,
}
use intermute.Domain.Keys.{
  same_key-eq, KeepsKey, KeepsKey-same_key, set_row-KeepsKey, Reachable, Reachable-Unique,
}
use intermute.Domain.Versions.{update_entity-ok, one_version}

some_inj : {A : Type 0} {x y : A} → Path (Option A) (some x) (some y) → x ≡ y
some_inj h = cc

module _ {A : Type 0} (c : Columns A) where
  get_entity-map :
      (f : A → A)
      → KeepsKey c f
      → (project id : Text) (rows : List A)
      → get_entity c project id (map f rows) ≡ Option.map f (get_entity c project id rows)
  unfolding get_entity
  get_entity-map f k project id [] = refl
  get_entity-map f k project id (r ∷ rows) = elim (Bool-cases (same_key c project id r)) [
    | inl e ↦ rw (KeepsKey-same_key c f k project id r, e)
    | inr e ↦ rw (KeepsKey-same_key c f k project id r, e) (get_entity-map f k project id rows)
  ]

  get_entity-same_key :
      (project id : Text) (rows : List A) (r : A)
      → get_entity c project id rows ≡ some r
      → same_key c project id r ≡ true
  unfolding get_entity
  get_entity-same_key project id [] r h = cc
  get_entity-same_key project id (s ∷ rows) r h = elim (Bool-cases (same_key c project id s)) [
    | inl e ↦
        subst (λ x. same_key c project id x ≡ true)
          (some_inj (ap (λ b. if b then some s else get_entity c project id rows) (sym e) ∙ h)) e
    | inr e ↦
        get_entity-same_key project id rows r
          (ap (λ b. if b then some s else get_entity c project id rows) (sym e) ∙ h)
  ]

  -- A row of the key that there is, is found, and is as all rows of the key are.
  get_entity-found :
      (project id : Text) (v : ℕ) (rows : List A)
      → any_entity c (at_version c project id v) rows ≡ true
      → All (λ r. same_key c project id r ≡ true → c.version r ≡ v) rows
      → (r : A) × (get_entity c project id rows ≡ some r) × (at_version c project id v r ≡ true)
  unfolding get_entity any_entity
  get_entity-found project id v [] h good = absurd (ground arith)
  get_entity-found project id v (r ∷ rows) h good = elim (Bool-cases (same_key c project id r)) [
    | inl e ↦ (r, rw e, ap (λ b. b && c.version r == v) e ∙ (==_iff (c.version r) v).1 (good.0 e))
    | inr e ↦
        let rest =
          get_entity-found project id v rows
            (ap (λ b. (b && c.version r == v) || any_entity c (at_version c project id v) rows)
                (sym e)
              ∙ h)
            good.1 in
        (rest.0, rw e rest.1, rest.2)
  ]

  -- After an update that succeeds on a table that the operations made, the row of its key, which was at
  -- the version that the update asked for, has the columns of the update, a read of it finds just that,
  -- and a read of any other key finds what it found before.
  pub update_entity-get :
      ColumnLaws c
      → (now : ℕ) (e : A) (rows : List A) (done : A × List A) → Reachable c rows
      → update_entity c now e rows ≡ ok done
      → (project id : Text)
      → (old : A) × (get_entity c (c.project e) (c.id e) rows ≡ some old)
        × (c.version old ≡ c.version e)
        × (get_entity c project id done.1 ≡ (
            if text_eq (c.project e) project && text_eq (c.id e) id
            then some (c.assign (c.touch now e) old)
            else get_entity c project id rows))
  update_entity-get laws now e rows done reached h project id = (
    own.0,
    own.1,
    own.2,
    if_cases (λ o. get_entity c project id done.1 ≡ o)
        (text_eq (c.project e) project && text_eq (c.id e) id) _ _
        (λ k.
          let parts = and-parts (text_eq (c.project e) project) (text_eq (c.id e) id) k in
          ap (λ (p : Text). get_entity c p id done.1)
            (sym ((text_eq_iff (c.project e) project).0 parts.0))
          ∙ ap (λ (i : Text). get_entity c (c.project e) i done.1)
              (sym ((text_eq_iff (c.id e) id).0 parts.1))
          ∙ own.3)
        (others project id),
  )
    where
      f : A → A
      f = set_row c (c.project e) (c.id e) (c.version e) (c.touch now e)

      inverted :
          (any_entity c (at_version c (c.project e) (c.id e) (c.version e)) rows ≡ true)
          × (done.1 ≡ map f rows)
      inverted = update_entity-ok c laws now e rows done h

      read :
          (project id : Text)
          → get_entity c project id done.1 ≡ Option.map f (get_entity c project id rows)
      read project id =
          ap (get_entity c project id) inverted.1
          ∙ get_entity-map f
              (set_row-KeepsKey c laws (c.project e) (c.id e) (c.version e) (c.touch now e)) project
              id rows

      own :
          (old : A) × (get_entity c (c.project e) (c.id e) rows ≡ some old)
          × (c.version old ≡ c.version e)
          × (get_entity c (c.project e) (c.id e) done.1 ≡ some (c.assign (c.touch now e) old))
      own =
          let found = get_entity-found (c.project e) (c.id e) (c.version e) rows inverted.0 (
            one_version c laws (c.project e) (c.id e) (c.version e) rows
              (Reachable-Unique c laws rows reached) inverted.0) in
          (
            found.0,
            found.1,
            (==_iff (c.version found.0) (c.version e)).0
                (and-parts (same_key c (c.project e) (c.id e) found.0)
                  (c.version found.0 == c.version e) found.2).1,
            read (c.project e) (c.id e)
                ∙ ap (Option.map f) found.1
                ∙ ap (λ b. some (if b then c.assign (c.touch now e) found.0 else found.0)) found.2,
          )

      kept :
          (project id : Text) (r : A)
          → (text_eq (c.project e) project && text_eq (c.id e) id) ≡ false
          → same_key c project id r ≡ true
          → f r ≡ r
      kept project id r other k =
          elim (Bool-cases (at_version c (c.project e) (c.id e) (c.version e) r)) [
            | inr m ↦ ap (λ b. if b then c.assign (c.touch now e) r else r) m
            | inl m ↦
                let here = same_key-eq c project id r k in
                let there =
                  same_key-eq c (c.project e) (c.id e) r
                    (and-parts (same_key c (c.project e) (c.id e) r) (c.version r == c.version e)
                      m).0 in
                absurd (
                  ground (
                    arith,
                    (text_eq_iff (c.project e) project).1 (sym there.0 ∙ here.0),
                    (text_eq_iff (c.id e) id).1 (sym there.1 ∙ here.1),
                    other,
                  ))
          ]

      others :
          (project id : Text)
          → (text_eq (c.project e) project && text_eq (c.id e) id) ≡ false
          → get_entity c project id done.1 ≡ get_entity c project id rows
      others project id other =
          read project id ∙ elim (Option-cases (get_entity c project id rows)) [
            | inl n ↦ ap (Option.map f) n ∙ sym n
            | inr (r, s) ↦
                ap (Option.map f) s
                ∙ ap some (kept project id r other (get_entity-same_key project id rows r s))
                ∙ sym s
          ]
