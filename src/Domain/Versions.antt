-- ===== src/Domain/Versions.antt =====
-- Optimistic locking: of two updates from one version only the first can succeed, whatever updates
-- come between them.
use intermute.Base.{
  bools_differ, ℕ, ◌+◌, ◌^◌, ◌≤◌, ◌<◌, ◌≡◌, refl, sym, ap, subst, ◌∙◌, inl, inr, Bool, true, false,
  ◌&&◌, ◌||◌, List, [], ◌∷◌, map, length, ◌==◌, if_cases, Bool-cases, and-parts, ==_iff, All,
  All-mono, Text, text_eq, Result, ok, err, check-eq-ok, ok_inj, arith,
}
use intermute.Domain.{
  DomainError, concurrent_modification, next_version, Columns, ColumnLaws, same_key, at_version,
  any_entity, rows_after, set_row, update_entity, run_updates,
}
use intermute.Domain.Keys.{Unique, same_key-other, all_false-any_entity}

next_version-next : (w : ℕ) → w + 1 < 2 ^ 64 → next_version w ≡ w + 1
unfolding next_version
next_version-next w h = omega arith

next_version-ne : (w : ℕ) → next_version w ≡ w → ⊥
unfolding next_version
next_version-ne w h = omega arith

module _ {A : Type 0} (c : Columns A) (laws : ColumnLaws c) where
  pub update_entity-ok :
      (now : ℕ) (e : A) (rows : List A) (done : A × List A)
      → update_entity c now e rows ≡ ok done
      → (any_entity c (at_version c (c.project e) (c.id e) (c.version e)) rows ≡ true)
        × (done.1 ≡ map (set_row c (c.project e) (c.id e) (c.version e) (c.touch now e)) rows)
  unfolding update_entity
  update_entity-ok now e rows done h =
      let key : (p i : Text) → A → Bool = λ p i. at_version c p i (c.version e) in
      let guard = check-eq-ok _ _ _ h in
      (
        ap (λ (p : Text). any_entity c (key p (c.id e)) rows) (sym (laws.touch-project now e))
            ∙ ap (λ (i : Text). any_entity c (key (c.project (c.touch now e)) i) rows)
                (sym (laws.touch-id now e))
            ∙ guard.0,
        ap (λ d. d.1) (sym (ok_inj guard.1))
            ∙ ap
                (λ (p : Text).
                  map (set_row c p (c.id (c.touch now e)) (c.version e) (c.touch now e)) rows)
                (laws.touch-project now e)
            ∙ ap (λ (i : Text). map (set_row c (c.project e) i (c.version e) (c.touch now e)) rows)
                (laws.touch-id now e),
      )

  module _ (project id : Text) where
    -- Every row of the key has such a version.
    abbrev At : (ℕ → Type 0) → A → Type 0
    At P r = same_key c project id r ≡ true → P (c.version r)

    assign-At :
        (P : ℕ → Type 0) (now : ℕ) (e r : A)
        → (same_key c project id r ≡ true → P (next_version (c.version e)))
        → At P (c.assign (c.touch now e) r)
    assign-At P now e r h k =
        subst P (sym (laws.assign-version (c.touch now e) r ∙ laws.touch-version now e)) (
          h (
            ap (λ (p : Text). text_eq p project && text_eq (c.id r) id)
              (sym (laws.assign-project (c.touch now e) r))
            ∙ ap
                (λ (i : Text).
                  text_eq (c.project (c.assign (c.touch now e) r)) project && text_eq i id)
                (sym (laws.assign-id (c.touch now e) r))
            ∙ k))

    map-All :
        (P Q : A → Type 0) (f : A → A) (g : (r : A) → P r → Q (f r)) (rows : List A)
        → All P rows
        → All Q (map f rows)
    map-All P Q f g [] h = tt
    map-All P Q f g (r ∷ rows) h = (g r h.0, map-All P Q f g rows h.1)

    -- An update of any key moves a version to the next one, or leaves it.
    update_entity-At :
        (P Q : ℕ → Type 0)
        → ((w : ℕ) → P w → Q w)
        → ((w : ℕ) → P w → Q (next_version w))
        → (now : ℕ) (e : A) (rows : List A) (done : A × List A)
        → update_entity c now e rows ≡ ok done
        → All (At P) rows
        → All (At Q) done.1
    update_entity-At P Q stay step now e rows done h good =
        subst (All (At Q)) (sym (update_entity-ok now e rows done h).1)
          (map-All (At P) (At Q) _ one rows good)
      where
        one :
            (r : A)
            → At P r
            → At Q (set_row c (c.project e) (c.id e) (c.version e) (c.touch now e) r)
        one r a =
            if_cases (At Q) (at_version c (c.project e) (c.id e) (c.version e) r)
              (c.assign (c.touch now e) r) r
              (λ m. assign-At Q now e r (λ k. step (c.version e) (
                subst P
                  ((==_iff (c.version r) (c.version e)).0
                    (and-parts (same_key c (c.project e) (c.id e) r) (c.version r == c.version e)
                      m).1)
                  (a k))))
              (λ m k. stay (c.version r) (a k))

    abbrev Within : ℕ → ℕ → ℕ → Type 0
    Within low high w = (low < w) × (w ≤ high)

    next_version-Within :
        (low high w : ℕ)
        → high + 1 < 2 ^ 64
        → Within low high w
        → Within low (high + 1) (next_version w)
    next_version-Within low high w room h =
        let n = next_version-next w (omega (arith, room, h.1)) in
        (omega (arith, n, h.0), omega (arith, n, h.1))

    run_updates-Within :
        (low high : ℕ) (us : List (ℕ × A)) (rows : List A)
        → high + length us < 2 ^ 64
        → All (At (Within low high)) rows
        → All (At (Within low (high + length us))) (run_updates c us rows)
    unfolding run_updates
    run_updates-Within low high [] rows room good =
        All-mono (λ r a k. ((a k).0, omega (arith, (a k).1))) rows good
    run_updates-Within low high ((now, e) ∷ us) rows room good =
        subst (λ n. All (At (Within low n)) (run_updates c ((now, e) ∷ us) rows)) (omega arith)
          (run_updates-Within low (high + 1) us (rows_after c rows (update_entity c now e rows))
            (omega (arith, room)) (after (update_entity c now e rows) refl))
      where
        wider : (w : ℕ) → Within low high w → Within low (high + 1) w
        wider w h = (h.0, omega (arith, h.1))

        next : (w : ℕ) → Within low high w → Within low (high + 1) (next_version w)
        next w h = next_version-Within low high w (omega (arith, room)) h

        after :
            (out : Result DomainError (A × List A))
            → update_entity c now e rows ≡ out
            → All (At (Within low (high + 1))) (rows_after c rows out)
        after (ok done) h =
            update_entity-At (Within low high) (Within low (high + 1)) wider next now e rows done h
              good
        after (err why) h = All-mono (λ r a k. wider (c.version r) (a k)) rows good

  -- The rows of a key with one row of this version are all of this version.
  pub one_version :
      (project id : Text) (v : ℕ) (rows : List A)
      → Unique c rows
      → any_entity c (at_version c project id v) rows ≡ true
      → All (At project id (λ w. w ≡ v)) rows
  unfolding any_entity
  one_version project id v [] u h = tt
  one_version project id v (r ∷ rows) u h = elim (Bool-cases (at_version c project id v r)) [
    | inl e ↦
        let parts = and-parts (same_key c project id r) (c.version r == v) e in
        (
          λ _. (==_iff (c.version r) v).0 parts.1,
          All-mono
              (λ s other k.
                absurd (bools_differ (sym k ∙ same_key-other c project id r s parts.0 other)))
              rows u.0,
        )
    | inr e ↦
        let rest : any_entity c (at_version c project id v) rows ≡ true =
          ap (λ b. b || any_entity c (at_version c project id v) rows) (sym e) ∙ h in
        (
          λ k. absurd (
              bools_differ (
                sym rest
                ∙ all_false-any_entity c (at_version c project id v) rows (
                    All-mono
                      (λ s other.
                        ap (λ b. b && c.version s == v) (same_key-other c project id r s k other))
                      rows u.0))),
          one_version project id v rows u.1 rest,
        )
  ]

  -- The update that succeeds leaves no row of its key at the version that it asked for.
  update_entity-own :
      (now : ℕ) (e : A) (rows : List A) (done : A × List A)
      → Unique c rows
      → update_entity c now e rows ≡ ok done
      → All (At (c.project e) (c.id e) (λ w. w ≡ next_version (c.version e))) done.1
  update_entity-own now e rows done u h =
      let inverted = update_entity-ok now e rows done h in
      subst (All (At (c.project e) (c.id e) (λ w. w ≡ next_version (c.version e)))) (sym inverted.1)
        (map-All (c.project e) (c.id e) (At (c.project e) (c.id e) (λ w. w ≡ c.version e))
          (At (c.project e) (c.id e) (λ w. w ≡ next_version (c.version e))) _ one rows
          (one_version (c.project e) (c.id e) (c.version e) rows u inverted.0))
    where
      one :
          (r : A)
          → At (c.project e) (c.id e) (λ w. w ≡ c.version e) r
          → At
              (c.project e)
              (c.id e)
              (λ w. w ≡ next_version (c.version e))
              (set_row c (c.project e) (c.id e) (c.version e) (c.touch now e) r)
      one r a =
          if_cases (At (c.project e) (c.id e) (λ w. w ≡ next_version (c.version e)))
            (at_version c (c.project e) (c.id e) (c.version e) r) (c.assign (c.touch now e) r) r
            (λ m.
              assign-At (c.project e) (c.id e) (λ w. w ≡ next_version (c.version e)) now e r
                (λ k. refl))
            (λ m k. absurd (
              bools_differ (
                sym ((==_iff (c.version r) (c.version e)).1 (a k))
                ∙ ap (λ b. b && c.version r == c.version e) (sym k)
                ∙ m)))

  update_entity-rejected :
      (now : ℕ) (e : A) (rows : List A)
      → All (At (c.project e) (c.id e) (λ w. c.version e < w)) rows
      → update_entity c now e rows ≡ err concurrent_modification
  unfolding update_entity
  update_entity-rejected now e rows good = rw guard refl
    where
      guard :
          any_entity c
            (at_version c (c.project (c.touch now e)) (c.id (c.touch now e)) (c.version e))
            rows
          ≡ false
      guard =
          ap (λ (p : Text). any_entity c (at_version c p (c.id (c.touch now e)) (c.version e)) rows)
            (laws.touch-project now e)
          ∙ ap (λ (i : Text). any_entity c (at_version c (c.project e) i (c.version e)) rows)
              (laws.touch-id now e)
          ∙ all_false-any_entity c (at_version c (c.project e) (c.id e) (c.version e)) rows
              (All-mono one rows good)
        where
          one :
              (r : A)
              → At (c.project e) (c.id e) (λ w. c.version e < w) r
              → at_version c (c.project e) (c.id e) (c.version e) r ≡ false
          one r a = elim (Bool-cases (at_version c (c.project e) (c.id e) (c.version e) r)) [
            | inr m ↦ m
            | inl m ↦
                let parts =
                  and-parts (same_key c (c.project e) (c.id e) r) (c.version r == c.version e) m in
                absurd (omega (arith, a parts.0, (==_iff (c.version r) (c.version e)).0 parts.1))
          ]

  -- After an update from some version succeeds on a table with unique keys, and after any further
  -- updates, too few for the version to wrap, an update of the same entity from the same version is
  -- refused.
  pub stale_update-rejected :
      (now : ℕ) (e : A) (rows : List A) (done : A × List A) (us : List (ℕ × A)) (later : ℕ) (f : A)
      → Unique c rows
      → update_entity c now e rows ≡ ok done
      → (c.project f ≡ c.project e) × (c.id f ≡ c.id e) × (c.version f ≡ c.version e)
      → c.version e + 1 + length us < 2 ^ 64
      → update_entity c later f (run_updates c us done.1) ≡ err concurrent_modification
  stale_update-rejected now e rows done us later f u h (p, i, v) room =
      let next = next_version-next (c.version e) (omega (arith, room)) in
      update_entity-rejected later f (run_updates c us done.1) (
        All-mono
          (λ r a k.
            subst (λ w. w < c.version r) (sym v)
              (a (
                ap (λ (q : Text). text_eq (c.project r) q && text_eq (c.id r) (c.id e)) (sym p)
                ∙ ap (λ (j : Text). text_eq (c.project r) (c.project f) && text_eq (c.id r) j)
                    (sym i)
                ∙ k)).0)
          (run_updates c us done.1)
          (run_updates-Within (c.project e) (c.id e) (c.version e) (c.version e + 1) us done.1 room
            (All-mono (λ r a k. (omega (arith, next, a k), omega (arith, next, a k))) done.1
              (update_entity-own now e rows done u h))))
