-- ===== src/Domain/Keys.antt =====
-- The primary key of a table of entities: no operation gives two rows one key, and what a read by
-- the key finds.
use intermute.Base.{
  ℕ, ◌≡◌, refl, sym, ap, subst, ◌∙◌, inl, inr, Bool, true, false, ◌&&◌, ◌||◌, List, [], ◌∷◌, ◌++◌,
  map, filter, if_cases, Bool-cases, and-parts, All, All-append, All-filter, Text, text_eq,
  text_eq_iff, text_eq_refl, ok, check-eq-ok, guard-eq-ok, ok_inj, arith,
}
use intermute.Domain.{
  Columns, ColumnLaws, same_key, at_version, any_entity, create_entity, set_row, update_entity,
  delete_entity,
}

module _ {A : Type 0} (c : Columns A) where
  -- No two rows have one key.
  abbrev pub Unique : List A → Type 0
  Unique [] = Unit
  Unique (r ∷ rows) = All (λ s. same_key c (c.project r) (c.id r) s ≡ false) rows × Unique rows

  pub same_key-eq :
      (project id : Text) (r : A)
      → same_key c project id r ≡ true
      → (c.project r ≡ project) × (c.id r ≡ id)
  same_key-eq project id r h =
      let parts = and-parts (text_eq (c.project r) project) (text_eq (c.id r) id) h in
      ((text_eq_iff (c.project r) project).0 parts.0, (text_eq_iff (c.id r) id).0 parts.1)

  pub same_key_refl : (r : A) → same_key c (c.project r) (c.id r) r ≡ true
  same_key_refl r = ground (arith, text_eq_refl (c.project r), text_eq_refl (c.id r))

  pub any_entity-false :
      (p : A → Bool) (rows : List A) → any_entity c p rows ≡ false → All (λ r. p r ≡ false) rows
  unfolding any_entity
  any_entity-false p [] h = tt
  any_entity-false p (r ∷ rows) h = elim (Bool-cases (p r)) [
    | inl e ↦ absurd (ground arith)
    | inr e ↦ (e, any_entity-false p rows (subst (λ b. (b || any_entity c p rows) ≡ false) e h))
  ]

  pub all_false-any_entity :
      (p : A → Bool) (rows : List A) → All (λ r. p r ≡ false) rows → any_entity c p rows ≡ false
  unfolding any_entity
  all_false-any_entity p [] h = refl
  all_false-any_entity p (r ∷ rows) h = rw (h.0) (all_false-any_entity p rows h.1)

  -- A row with another key than one of this key has not this key.
  pub same_key-other :
      (project id : Text) (r s : A)
      → same_key c project id r ≡ true
      → same_key c (c.project r) (c.id r) s ≡ false
      → same_key c project id s ≡ false
  same_key-other project id r s k other =
      let e = same_key-eq project id r k in
      ap (λ (p : Text). text_eq (c.project s) p && text_eq (c.id s) id) (sym e.0)
      ∙ ap (λ (i : Text). text_eq (c.project s) (c.project r) && text_eq (c.id s) i) (sym e.1)
      ∙ other

  same_key-swap :
      (r s : A)
      → same_key c (c.project r) (c.id r) s ≡ false
      → same_key c (c.project s) (c.id s) r ≡ false
  same_key-swap r s other = elim (Bool-cases (same_key c (c.project s) (c.id s) r)) [
    | inr k ↦ k
    | inl k ↦
        absurd (no_row (sym (same_key_refl s) ∙ same_key-other (c.project s) (c.id s) r s k other))
  ]
    where
      no_row : true ≡ false → ⊥
      no_row h = cc

  Unique-filter : (p : A → Bool) (rows : List A) → Unique rows → Unique (filter p rows)
  Unique-filter p [] u = tt
  Unique-filter p (r ∷ rows) u = elim (Bool-cases (p r)) [
    | inl e ↦ rw e (
      All-filter (λ s. same_key c (c.project r) (c.id r) s ≡ false) p rows u.0,
      Unique-filter p rows u.1,
    )
    | inr e ↦ rw e (Unique-filter p rows u.1)
  ]

  Unique-last :
      (e : A) (rows : List A)
      → Unique rows
      → All (λ r. same_key c (c.project e) (c.id e) r ≡ false) rows
      → Unique (rows ++ e ∷ [])
  Unique-last e [] u h = (tt, tt)
  Unique-last e (r ∷ rows) u h = (
    All-append (λ s. same_key c (c.project r) (c.id r) s ≡ false) rows (e ∷ []) u.0
        (same_key-swap e r h.0, tt),
    Unique-last e rows u.1 h.1,
  )

  -- A change of rows that keeps their keys.
  abbrev pub KeepsKey : (A → A) → Type 0
  KeepsKey f = (r : A) → (c.project (f r) ≡ c.project r) × (c.id (f r) ≡ c.id r)

  pub KeepsKey-same_key :
      (f : A → A)
      → KeepsKey f
      → (project id : Text) (r : A) → same_key c project id (f r) ≡ same_key c project id r
  KeepsKey-same_key f k project id r =
      ap (λ (p : Text). text_eq p project && text_eq (c.id (f r)) id) (k r).0
      ∙ ap (λ (i : Text). text_eq (c.project r) project && text_eq i id) (k r).1

  Unique-map : (f : A → A) → KeepsKey f → (rows : List A) → Unique rows → Unique (map f rows)
  Unique-map f k [] u = tt
  Unique-map f k (r ∷ rows) u = (others rows u.0, Unique-map f k rows u.1)
    where
      others :
          (rows : List A)
          → All (λ s. same_key c (c.project r) (c.id r) s ≡ false) rows
          → All (λ s. same_key c (c.project (f r)) (c.id (f r)) s ≡ false) (map f rows)
      others [] h = tt
      others (s ∷ rows) h = (
        ap (λ (p : Text). same_key c p (c.id (f r)) (f s)) (k r).0
            ∙ ap (λ (i : Text). same_key c (c.project r) i (f s)) (k r).1
            ∙ KeepsKey-same_key f k (c.project r) (c.id r) s
            ∙ h.0,
        others rows h.1,
      )

  module _ (laws : ColumnLaws c) where
    pub set_row-KeepsKey :
        (project id : Text) (v : ℕ) (new : A) → KeepsKey (set_row c project id v new)
    set_row-KeepsKey project id v new r =
        if_cases (λ s. (c.project s ≡ c.project r) × (c.id s ≡ c.id r))
          (at_version c project id v r) (c.assign new r) r
          (λ _. (laws.assign-project new r, laws.assign-id new r)) (λ _. (refl, refl))

    create_entity-Unique :
        (e : A) (rows : List A) (done : A × List A)
        → create_entity c e rows ≡ ok done
        → Unique rows
        → Unique done.1
    unfolding create_entity
    create_entity-Unique e rows done h u =
        let guard = guard-eq-ok (any_entity c (same_key c (c.project e) (c.id e)) rows) _ _ h in
        subst (λ (d : A × List A). Unique d.1) (ok_inj guard.1)
          (Unique-last e rows u (any_entity-false (same_key c (c.project e) (c.id e)) rows guard.0))

    update_entity-Unique :
        (now : ℕ) (e : A) (rows : List A) (done : A × List A)
        → update_entity c now e rows ≡ ok done
        → Unique rows
        → Unique done.1
    unfolding update_entity
    update_entity-Unique now e rows done h u =
        let new = c.touch now e in
        let guard = check-eq-ok _ _ _ h in
        subst (λ (d : A × List A). Unique d.1) (ok_inj guard.1)
          (Unique-map _ (set_row-KeepsKey (c.project new) (c.id new) (c.version e) new) rows u)

    delete_entity-Unique :
        (project id : Text) (rows : List A) → Unique rows → Unique (delete_entity c project id rows)
    unfolding delete_entity
    delete_entity-Unique project id rows u = Unique-filter _ rows u

  -- The tables that the operations make out of the empty one.
  pub data Reachable : List A → Type 0 where
    empty_table : Reachable []
    created :
        {rows : List A} (e : A) (done : A × List A)
        → Reachable rows
        → create_entity c e rows ≡ ok done
        → Reachable done.1
    updated :
        {rows : List A} (now : ℕ) (e : A) (done : A × List A)
        → Reachable rows
        → update_entity c now e rows ≡ ok done
        → Reachable done.1
    deleted :
        {rows : List A} (project id : Text)
        → Reachable rows
        → Reachable (delete_entity c project id rows)

  -- No table that creates, updates and deletes make out of the empty one has two rows of one key.
  pub Reachable-Unique : ColumnLaws c → (rows : List A) → Reachable rows → Unique rows
  Reachable-Unique laws rows empty_table = tt
  Reachable-Unique laws rows (created {rows = before} e done r h) =
      create_entity-Unique laws e before done h (Reachable-Unique laws before r)
  Reachable-Unique laws rows (updated {rows = before} now e done r h) =
      update_entity-Unique laws now e before done h (Reachable-Unique laws before r)
  Reachable-Unique laws rows (deleted {rows = before} project id r) =
      delete_entity-Unique laws project id before (Reachable-Unique laws before r)
