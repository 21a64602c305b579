-- ===== src/Messages/Sound.antt =====
-- What every run of events keeps of the tables: the inbox is in order, and each of its rows has the
-- message that the queries join it to.
use intermute.Base.{
  ℕ, ◌+◌, ◌≤◌, ◌≡◌, sym, ap, subst, ◌∙◌, ◌⊎◌, true, ◌&&◌, some, List, [], ◌∷◌, if◌then◌else◌,
  if_cases, Bool-cases, inl, inr, and-parts, All, All-append, All-mono, Text, text_eq, text_eq_iff,
  text_eq_refl, arith,
}
use intermute.Memory.{Message, Event, recipients}
use intermute.Messages.{
  InboxRow, Tables, no_tables, same_message, upsert_row, inbox_rows, tables_project, message_row,
  message_created, append_event_tx, append_all, or_now,
}
use intermute.Messages.Queries.{message_at}
use intermute.Messages.Rows.{
  RowsSorted, RowsSorted-append, inbox_rows-cursor, inbox_rows-RowsSorted, append_event_tx-cases,
}

-- A message that is there under the id of the row, so that the join finds it.
abbrev pub Found : List Message → Text → Text → Type 0
Found messages project id = (m : Message) × (message_at project id messages ≡ some m) × (m.id ≡ id)

same_message-eq :
    (msg m : Message) (project id : Text) (at : ℕ)
    → same_message msg.project msg.id m ≡ true
    → same_message project id (record msg { created_at = at }) ≡ same_message project id m
same_message-eq msg m project id at h =
    let parts = and-parts (text_eq m.project msg.project) (text_eq m.id msg.id) h in
    ap (λ (p : Text). text_eq p project && text_eq msg.id id)
      (sym ((text_eq_iff m.project msg.project).0 parts.0))
    ∙ ap (λ (i : Text). text_eq m.project project && text_eq i id)
        (sym ((text_eq_iff m.id msg.id).0 parts.1))

same_message-id : (project id : Text) (m : Message) → same_message project id m ≡ true → m.id ≡ id
same_message-id project id m h =
    (text_eq_iff m.id id).0 (and-parts (text_eq m.project project) (text_eq m.id id) h).1

Found-cons :
    (project id : Text) (m : Message) (rows : List Message)
    → (same_message project id m ≡ true) ⊎ Found rows project id
    → Found (m ∷ rows) project id
unfolding message_at
Found-cons project id m rows h = elim (Bool-cases (same_message project id m)) [
  | inl e ↦ (m, rw e, same_message-id project id m e)
  | inr e ↦ elim h [ inl t ↦ absurd (ground arith) | inr f ↦ (f.0, rw e f.1, f.2) ]
]

Found-uncons :
    (project id : Text) (m : Message) (rows : List Message)
    → Found (m ∷ rows) project id
    → (same_message project id m ≡ true) ⊎ Found rows project id
unfolding message_at
Found-uncons project id m rows f = elim (Bool-cases (same_message project id m)) [
  | inl e ↦ inl e
  | inr e ↦ inr (f.0, ap (λ b. if b then some m else message_at project id rows) (sym e) ∙ f.1, f.2)
]

Found-upsert_new :
    (msg : Message) (rows : List Message) → Found (upsert_row msg rows) msg.project msg.id
unfolding upsert_row
Found-upsert_new msg [] =
    Found-cons msg.project msg.id msg []
      (inl (ground (arith, text_eq_refl msg.project, text_eq_refl msg.id)))
Found-upsert_new msg (m ∷ rows) =
    if_cases (λ (l : List Message). Found l msg.project msg.id) (same_message msg.project msg.id m)
      _ _
      (λ e.
        Found-cons msg.project msg.id _ rows
          (inl (same_message-eq msg m msg.project msg.id m.created_at e ∙ e)))
      (λ _. Found-cons msg.project msg.id m _ (inr (Found-upsert_new msg rows)))

Found-nil : (project id : Text) → Found [] project id → ⊥
unfolding message_at
Found-nil project id (m, e, h) = cc

Found-upsert_kept :
    (msg : Message) (rows : List Message) (project id : Text)
    → Found rows project id
    → Found (upsert_row msg rows) project id
unfolding upsert_row
Found-upsert_kept msg [] project id f = absurd (Found-nil project id f)
Found-upsert_kept msg (m ∷ rows) project id f =
    if_cases (λ (l : List Message). Found l project id) (same_message msg.project msg.id m) _ _
      (λ e. Found-cons project id _ rows (elim (Found-uncons project id m rows f) [
        | inl t ↦ inl (same_message-eq msg m project id m.created_at e ∙ t)
        | inr g ↦ inr g
      ]))
      (λ _. Found-cons project id m _ (elim (Found-uncons project id m rows f) [
        | inl t ↦ inl t
        | inr g ↦ inr (Found-upsert_kept msg rows project id g)
      ]))

abbrev pub RowFound : List Message → InboxRow → Type 0
RowFound messages r = Found messages r.project r.message_id

-- The rows are in the order of their cursors, none above the last, and each has its message.
pub record Sound (db : Tables) : Type 0 where
  pub sorted : RowsSorted db.inbox
  pub bounded : All (λ (r : InboxRow). r.cursor ≤ db.cursor) db.inbox
  pub found : All (RowFound db.messages) db.inbox

module _ (trim_space to_lower : Text → Text) where
  message_created-Sound :
      (at : ℕ) (project : Text) (ev : Event) (db : Tables)
      → Sound db
      → Sound (message_created trim_space to_lower (db.cursor + 1) at project ev db)
  unfolding message_created message_row
  message_created-Sound at project ev db s =
      let msg = message_row trim_space to_lower project at ev.message in
      let rows = inbox_rows project (db.cursor + 1) msg.id (recipients ev) in
      record {
        sorted =
            RowsSorted-append db.inbox rows db.cursor s.sorted
              (inbox_rows-RowsSorted project (db.cursor + 1) msg.id (recipients ev)) s.bounded
              (inbox_rows-cursor (λ (r : InboxRow). db.cursor ≤ r.cursor) project (db.cursor + 1)
                msg.id (recipients ev) (λ agent. omega arith));
        bounded =
            All-append (λ (r : InboxRow). r.cursor ≤ db.cursor + 1) db.inbox rows
              (All-mono (λ (r : InboxRow) (h : r.cursor ≤ db.cursor). omega (arith, h)) db.inbox
                s.bounded)
              (inbox_rows-cursor (λ (r : InboxRow). r.cursor ≤ db.cursor + 1) project
                (db.cursor + 1) msg.id (recipients ev) (λ agent. omega arith));
        found =
            All-append (RowFound (upsert_row msg db.messages)) db.inbox rows
              (All-mono
                (λ (r : InboxRow) (f : RowFound db.messages r).
                  Found-upsert_kept msg db.messages r.project r.message_id f)
                db.inbox s.found)
              (inbox_rows-cursor (RowFound (upsert_row msg db.messages)) project (db.cursor + 1)
                msg.id (recipients ev) (λ agent. Found-upsert_new msg db.messages));
      }

  append_event_tx-Sound :
      (now : ℕ) (ev : Event) (db : Tables)
      → Sound db
      → Sound (append_event_tx trim_space to_lower now ev db).1
  append_event_tx-Sound now ev db s = elim (append_event_tx-cases trim_space to_lower now ev db) [
    | inl c ↦
        subst (λ (n : ℕ × Tables). Sound n.1) (sym c.1)
          (message_created-Sound (or_now now ev.created_at) (tables_project trim_space to_lower ev)
            ev db s)
    | inr (e, (a, c, i, m)) ↦ record {
      sorted = subst RowsSorted (sym i) s.sorted;
      bounded =
          subst
            (All (λ (r : InboxRow).
              r.cursor ≤ Tables.cursor (append_event_tx trim_space to_lower now ev db).1))
            (sym i)
            (All-mono (λ (r : InboxRow) (h : r.cursor ≤ db.cursor). omega (arith, c, h)) db.inbox
              s.bounded);
      found =
          subst (All (RowFound (Tables.messages (append_event_tx trim_space to_lower now ev db).1)))
            (sym i) (subst (λ ms. All (RowFound ms) db.inbox) (sym m) s.found);
    }
  ]

  append_all-Sound :
      (evs : List (ℕ × Event)) (db : Tables)
      → Sound db
      → Sound (append_all trim_space to_lower evs db).1
  unfolding append_all
  append_all-Sound [] db s = s
  append_all-Sound ((now, ev) ∷ evs) db s =
      append_all-Sound evs (append_event_tx trim_space to_lower now ev db).1
        (append_event_tx-Sound now ev db s)

  no_tables-Sound : Sound no_tables
  unfolding no_tables
  no_tables-Sound = record { sorted = tt; bounded = tt; found = tt }

  -- After any run of events every row of the inbox has its message, and the rows are in order.
  pub run-Sound : (evs : List (ℕ × Event)) → Sound (append_all trim_space to_lower evs no_tables).1
  run-Sound evs = append_all-Sound evs no_tables no_tables-Sound
