-- ===== src/Messages/Reads.antt =====
-- What `InboxSince` reads, as a page of the mailbox.
use intermute.Base.{
  ℕ, ◌≤◌, ◌≡◌, refl, sym, ap, ◌∙◌, Bool, false, ◌&&◌, Option, none, some, List, [], ◌∷◌, map,
  filter, take, ltb, Bool-cases, and-true, and-false, inl, inr, All, All-filter, Text, text_eq,
  is_empty, arith,
}
use intermute.Memory.{Message, Event}
use intermute.Messages.{InboxRow, Tables, no_tables, append_all}
use intermute.Messages.Queries.{
  page_limit, scan_message, insert_row, by_cursor, joined, row_since, inbox_since,
}
use intermute.Messages.Mailbox.{above, page, deliveries, key_of, map-take}
use intermute.Messages.Rows.{row_key, row_of, box_keys, RowsSorted, project_of, append_all-box_keys}
use intermute.Messages.Sound.{RowFound, Sound, run-Sound}

filter-RowsSorted :
    (p : InboxRow → Bool) (rows : List InboxRow) → RowsSorted rows → RowsSorted (filter p rows)
filter-RowsSorted p [] h = tt
filter-RowsSorted p (r ∷ rows) h = elim (Bool-cases (p r)) [
  | inl e ↦
      rw e (
        All-filter (λ (s : InboxRow). r.cursor ≤ s.cursor) p rows h.0,
        filter-RowsSorted p rows h.1,
      )
  | inr e ↦ rw e (filter-RowsSorted p rows h.1)
]

insert_row_first :
    (r : InboxRow) (rows : List InboxRow)
    → All (λ (s : InboxRow). r.cursor ≤ s.cursor) rows
    → insert_row r rows ≡ r ∷ rows
unfolding insert_row
insert_row_first r [] h = refl
insert_row_first r (s ∷ rows) (le, h) = elim (Bool-cases (ltb s.cursor r.cursor)) [
  | inl e ↦ absurd (ground arith)
  | inr e ↦ rw e
]

by_cursor_sorted : (rows : List InboxRow) → RowsSorted rows → by_cursor rows ≡ rows
unfolding by_cursor
by_cursor_sorted [] h = refl
by_cursor_sorted (r ∷ rows) h =
    ap (insert_row r) (by_cursor_sorted rows h.1) ∙ insert_row_first r rows h.0

joined-keys :
    (messages : List Message) (rows : List InboxRow)
    → All (RowFound messages) rows
    → map key_of (joined messages rows) ≡ map row_key rows
unfolding joined scan_message
joined-keys messages [] h = refl
joined-keys messages (r ∷ rows) ((m, e, i), h) =
    ap
      (λ (o : Option Message). map key_of (elim o [
        | none ↦ joined messages rows
        | some n ↦ scan_message r.cursor n ∷ joined messages rows
      ]))
      e
    ∙ ap (λ (id : Text). (r.cursor, id) ∷ map key_of (joined messages rows)) i
    ∙ ap (λ rest. row_key r ∷ rest) (joined-keys messages rows h)

row_since-parts :
    (project agent : Text) (cursor : ℕ) (r : InboxRow)
    → is_empty project ≡ false
    → row_since project agent cursor r ≡ (row_of project agent r && ltb cursor r.cursor)
unfolding row_since
row_since-parts project agent cursor r named = elim (Bool-cases (text_eq r.agent agent)) [
  | inl a ↦ elim (Bool-cases (text_eq r.project project)) [
    | inl p ↦ rw (named, a, p) (and-true (ltb cursor r.cursor))
    | inr p ↦ rw (named, a, p) (and-false (ltb cursor r.cursor))
  ]
  | inr a ↦ rw a (sym (ap (λ b. b && ltb cursor r.cursor) (and-false (text_eq r.project project))))
]

row_since-keys :
    (project agent : Text) (cursor : ℕ) (rows : List InboxRow)
    → is_empty project ≡ false
    → map row_key (filter (row_since project agent cursor) rows)
      ≡ filter (above cursor) (box_keys project agent rows)
row_since-keys project agent cursor [] named = refl
row_since-keys project agent cursor (r ∷ rows) named =
    let rest = row_since-keys project agent cursor rows named in
    let parts = row_since-parts project agent cursor r named in
    elim (Bool-cases (row_of project agent r)) [
      | inl e ↦ elim (Bool-cases (ltb cursor r.cursor)) [
        | inl c ↦ rw (parts, e, c) (ap (λ keys. row_key r ∷ keys) rest)
        | inr c ↦ rw (parts, e, c) rest
      ]
      | inr e ↦ rw (parts, e) rest
    ]

inbox_since-keys :
    (db : Tables)
    → Sound db
    → (project agent : Text) (cursor limit : ℕ) → is_empty project ≡ false
    → map key_of (inbox_since project agent cursor limit db)
      ≡ page cursor (page_limit limit) (box_keys project agent db.inbox)
unfolding inbox_since
inbox_since-keys db s project agent cursor limit named =
    let rows = filter (row_since project agent cursor) db.inbox in
    map-take key_of (page_limit limit) (joined db.messages (by_cursor rows))
    ∙ ap (take (page_limit limit)) (
        ap (λ rs. map key_of (joined db.messages rs))
          (by_cursor_sorted rows
            (filter-RowsSorted (row_since project agent cursor) db.inbox s.sorted))
        ∙ joined-keys db.messages rows
            (All-filter (RowFound db.messages) (row_since project agent cursor) db.inbox s.found)
        ∙ row_since-keys project agent cursor db.inbox named)

module _ (trim_space to_lower : Text → Text) where
  -- After any events, a reader that names a project gets that page of the mailbox of the run.
  pub inbox_since-page :
      (evs : List (ℕ × Event)) (project agent : Text) (cursor limit : ℕ)
      → is_empty project ≡ false
      → map key_of
          (inbox_since project agent cursor limit (append_all trim_space to_lower evs no_tables).1)
        ≡ page cursor
            (page_limit limit)
            (deliveries (project_of trim_space to_lower) project agent 0 (map (λ e. e.1) evs))
  unfolding no_tables
  inbox_since-page evs project agent cursor limit named =
      inbox_since-keys (append_all trim_space to_lower evs no_tables).1
        (run-Sound trim_space to_lower evs) project agent cursor limit named
      ∙ ap (page cursor (page_limit limit))
          (append_all-box_keys trim_space to_lower project agent evs no_tables)
