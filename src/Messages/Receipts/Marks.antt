-- ===== src/Messages/Receipts/Marks.antt =====
-- The effect of `MarkRead` on the receipts and on the counts of the inbox.
use intermute.Base.{
  ℕ, ◌+◌, ◌≡◌, refl, sym, ap, subst, ◌∙◌, inl, inr, Bool, true, false, not, ◌&&◌, ◌||◌, some, List,
  [], ◌∷◌, map, filter, length, if◌then◌else◌, if_cases, Bool-cases, and-parts, and-true, and-false,
  Text, text_eq, ok, err, check-eq-ok, ok_inj, arith,
}
use intermute.Messages.{InboxRow, RecipientRow, Tables, same_recipient}
use intermute.Messages.Receipts.{
  not_a_recipient, is_unset, any_recipient, read_row, mark_read, is_unread, inbox_counts,
}

module _ {A : Type 0} (p s q : A → Bool) (f : A → A)
    (each : (x : A) → q (f x) ≡ (p x && not (s x))) where
  length-filter-map :
      (xs : List A)
      → length (filter p xs) ≡ length (filter q (map f xs)) + length (filter (λ x. p x && s x) xs)
  length-filter-map [] = refl
  length-filter-map (x ∷ xs) =
      let rest = length-filter-map xs in
      elim (Bool-cases (p x)) [
        | inr e ↦ rw (each x, e) rest
        | inl e ↦ elim (Bool-cases (s x)) [
          | inl t ↦ rw (each x, e, t) (omega (arith, rest))
          | inr t ↦ rw (each x, e, t) (omega (arith, rest))
        ]
      ]

unread_kept :
    (x y unset same : Bool)
    → (same && unset) ≡ false
    → (x && (y && unset)) ≡ ((x && (y && unset)) && not same)
unread_kept x y unset false e = sym (and-true (x && (y && unset)))
unread_kept x y unset true e =
    ap (λ u. x && (y && u)) e
    ∙ ap (λ b. x && b) (and-false y)
    ∙ and-false x
    ∙ sym (and-false (x && (y && unset)))

module _ (project id agent : Text) where
  read_row-same_recipient :
      (now : ℕ) (r : RecipientRow)
      → same_recipient project id agent (read_row project id agent now r)
        ≡ same_recipient project id agent r
  unfolding read_row
  read_row-same_recipient now r =
      if_cases (λ s. same_recipient project id agent s ≡ same_recipient project id agent r)
        (same_recipient project id agent r && is_unset r.read_at) _ _ (λ _. refl) (λ _. refl)

  read_row-twice :
      (t later : ℕ) (r : RecipientRow)
      → read_row project id agent later (read_row project id agent t r)
        ≡ read_row project id agent t r
  unfolding read_row
  read_row-twice t later r =
      if_cases (λ (s : RecipientRow). read_row project id agent later s ≡ s)
        (same_recipient project id agent r && is_unset r.read_at) (record r { read_at = some t }) r
        (λ _. kept (record r { read_at = some t }) (and-false (same_recipient project id agent r)))
        (kept r)
    where
      kept :
          (s : RecipientRow)
          → (same_recipient project id agent s && is_unset s.read_at) ≡ false
          → read_row project id agent later s ≡ s
      kept s e = ap (λ b. if b then record s { read_at = some later } else s) e

  map-read_row_twice :
      (t later : ℕ) (rows : List RecipientRow)
      → map (read_row project id agent later) (map (read_row project id agent t) rows)
        ≡ map (read_row project id agent t) rows
  map-read_row_twice t later [] = refl
  map-read_row_twice t later (r ∷ rows) =
      ap
        (λ (s : RecipientRow).
          s ∷ map (read_row project id agent later) (map (read_row project id agent t) rows))
        (read_row-twice t later r)
      ∙ ap (λ rest. read_row project id agent t r ∷ rest) (map-read_row_twice t later rows)

  any_recipient-read :
      (t : ℕ) (rows : List RecipientRow)
      → any_recipient (same_recipient project id agent) (map (read_row project id agent t) rows)
        ≡ any_recipient (same_recipient project id agent) rows
  unfolding any_recipient
  any_recipient-read t [] = refl
  any_recipient-read t (r ∷ rows) =
      ap
        (λ b.
          b
          || any_recipient (same_recipient project id agent)
              (map (read_row project id agent t) rows))
        (read_row-same_recipient t r)
      ∙ ap (λ b. same_recipient project id agent r || b) (any_recipient-read t rows)

  read_row-is_unread :
      (t : ℕ) (p a : Text) (r : RecipientRow)
      → is_unread p a (read_row project id agent t r)
        ≡ (is_unread p a r && not (same_recipient project id agent r))
  unfolding read_row is_unread
  read_row-is_unread t p a r =
      if_cases
        (λ (s : RecipientRow).
          is_unread p a s ≡ (is_unread p a r && not (same_recipient project id agent r)))
        (same_recipient project id agent r && is_unset r.read_at) (record r { read_at = some t }) r
        (λ e.
          ap (λ b. text_eq r.project p && b) (and-false (text_eq r.agent_id a))
          ∙ and-false (text_eq r.project p)
          ∙ sym (
              ap (λ b. is_unread p a r && not b)
                (and-parts (same_recipient project id agent r) (is_unset r.read_at) e).0
              ∙ and-false (is_unread p a r)))
        (unread_kept (text_eq r.project p) (text_eq r.agent_id a) (is_unset r.read_at)
          (same_recipient project id agent r))

-- After a message is marked as read, marking it again later changes nothing; each agent's unread count
-- is smaller by just its unread receipts that were marked, and the total stays.
pub mark_read-counts :
    (project id agent : Text) (t later : ℕ) (db done : Tables) (p a : Text)
    → mark_read project id agent t db ≡ ok done
    → (mark_read project id agent later done ≡ ok done)
      × ((inbox_counts p a db).1
          ≡ (inbox_counts p a done).1
            + length
                (filter (λ r. is_unread p a r && same_recipient project id agent r) db.recipients))
      × ((inbox_counts p a done).0 ≡ (inbox_counts p a db).0)
unfolding mark_read inbox_counts
mark_read-counts project id agent t later db done p a h =
    let guard = check-eq-ok (any_recipient (same_recipient project id agent) db.recipients) _ _ h in
    let rows = map (read_row project id agent t) db.recipients in
    let step : record db { recipients = rows } ≡ done = ok_inj guard.1 in
    (
      subst (λ (d : Tables). mark_read project id agent later d ≡ ok d) step
          (again rows (map-read_row_twice project id agent t later db.recipients)
            (any_recipient-read project id agent t db.recipients ∙ guard.0)),
      length-filter-map (is_unread p a) (same_recipient project id agent) (is_unread p a)
            (read_row project id agent t) (read_row-is_unread project id agent t p a) db.recipients
          ∙ ap
              (λ (d : Tables).
                length (filter (is_unread p a) d.recipients)
                + length (
                    filter (λ r. is_unread p a r && same_recipient project id agent r)
                      db.recipients))
              step,
      ap
          (λ (d : Tables).
            length (filter (λ (r : InboxRow). text_eq r.project p && text_eq r.agent a) d.inbox))
          (sym step),
    )
  where
    again :
        (rows : List RecipientRow)
        → map (read_row project id agent later) rows ≡ rows
        → any_recipient (same_recipient project id agent) rows ≡ true
        → mark_read project id agent later (record db { recipients = rows })
          ≡ ok (record db { recipients = rows })
    again rows same there =
        ap
          (λ b.
            if b
            then ok (record db { recipients = map (read_row project id agent later) rows })
            else err not_a_recipient)
          there
        ∙ ap (λ (rs : List RecipientRow). ok (record db { recipients = rs })) same
