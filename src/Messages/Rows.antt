-- ===== src/Messages/Rows.antt =====
-- The rows of the inbox: what a run of events adds to them, and what every run keeps of them.
use intermute.Base.{
  ℕ, ◌+◌, ◌≤◌, ◌≡◌, refl, sym, ap, ◌∙◌, Bool, true, false, ◌&&◌, List, [], ◌∷◌, ◌++◌, map, filter,
  if◌then◌else◌, if_cases, Bool-cases, inl, inr, All, ◌⊎◌, All-append, All-mono, append_assoc,
  append-nil, Text, text_eq, arith,
}
use intermute.Memory.{Message, Event, event_message_created, recipients}
use intermute.Messages.{
  InboxRow, Tables, event_peer_window_poke, inbox_rows, tables_project, message_row,
  message_created, window_poke, append_event_tx, append_all, or_now,
}
use intermute.Messages.Mailbox.{
  Key, key_copies, delivered, delivered_created, delivered_none, deliveries, map-append,
  filter-append,
}

abbrev pub row_key : InboxRow → Key
row_key r = (r.cursor, r.message_id)

abbrev pub row_of : Text → Text → InboxRow → Bool
row_of project agent r = text_eq r.project project && text_eq r.agent agent

-- The keys of one agent's rows.
abbrev pub box_keys : Text → Text → List InboxRow → List Key
box_keys project agent rows = map row_key (filter (row_of project agent) rows)

box_keys-append :
    (project agent : Text) (xs ys : List InboxRow)
    → box_keys project agent (xs ++ ys) ≡ box_keys project agent xs ++ box_keys project agent ys
box_keys-append project agent xs ys =
    ap (map row_key) (filter-append (row_of project agent) xs ys)
    ∙ map-append row_key (filter (row_of project agent) xs) (filter (row_of project agent) ys)

box_keys-inbox_rows :
    (project agent p : Text) (c : ℕ) (id : Text) (rs : List Text)
    → box_keys project agent (inbox_rows p c id rs)
      ≡ (if text_eq p project then key_copies agent rs (c, id) else [])
unfolding inbox_rows
box_keys-inbox_rows project agent p c id rs = elim (Bool-cases (text_eq p project)) [
  | inl e ↦ rw e (here e rs)
  | inr e ↦ rw e (elsewhere e rs)
]
  where
    here :
        text_eq p project ≡ true
        → (rs : List Text)
        → box_keys project agent (inbox_rows p c id rs) ≡ key_copies agent rs (c, id)
    here e [] = refl
    here e (r ∷ rs) = elim (Bool-cases (text_eq r agent)) [
      | inl f ↦ rw (e, f) (ap (λ rest. (c, id) ∷ rest) (here e rs))
      | inr f ↦ rw (e, f) (here e rs)
    ]

    elsewhere :
        text_eq p project ≡ false
        → (rs : List Text) → box_keys project agent (inbox_rows p c id rs) ≡ []
    elsewhere e [] = refl
    elsewhere e (r ∷ rs) = rw e (elsewhere e rs)

-- Rows in the order of their cursors.
abbrev pub RowsSorted : List InboxRow → Type 0
RowsSorted [] = Unit
RowsSorted (r ∷ rows) = All (λ (s : InboxRow). r.cursor ≤ s.cursor) rows × RowsSorted rows

pub RowsSorted-append :
    (xs ys : List InboxRow) (c : ℕ)
    → RowsSorted xs
    → RowsSorted ys
    → All (λ (r : InboxRow). r.cursor ≤ c) xs
    → All (λ (r : InboxRow). c ≤ r.cursor) ys
    → RowsSorted (xs ++ ys)
RowsSorted-append [] ys c hx hy below over = hy
RowsSorted-append (x ∷ xs) ys c hx hy below over = (
  All-append (λ (s : InboxRow). x.cursor ≤ s.cursor) xs ys hx.0
      (All-mono (λ (s : InboxRow) (h : c ≤ s.cursor). omega (arith, below.0, h)) ys over),
  RowsSorted-append xs ys c hx.1 hy below.1 over,
)

pub inbox_rows-cursor :
    (P : InboxRow → Type 0) (p : Text) (c : ℕ) (id : Text) (rs : List Text)
    → ((agent : Text) → P (record { project = p; agent = agent; cursor = c; message_id = id }))
    → All P (inbox_rows p c id rs)
unfolding inbox_rows
inbox_rows-cursor P p c id [] h = tt
inbox_rows-cursor P p c id (r ∷ rs) h = (h r, inbox_rows-cursor P p c id rs h)

pub inbox_rows-RowsSorted :
    (p : Text) (c : ℕ) (id : Text) (rs : List Text) → RowsSorted (inbox_rows p c id rs)
unfolding inbox_rows
inbox_rows-RowsSorted p c id [] = tt
inbox_rows-RowsSorted p c id (r ∷ rs) = (
  inbox_rows-cursor (λ (s : InboxRow). c ≤ s.cursor) p c id rs (λ agent. omega arith),
  inbox_rows-RowsSorted p c id rs,
)

module _ (trim_space to_lower : Text → Text) where
  abbrev pub project_of : Event → Text
  project_of = tables_project trim_space to_lower

  abbrev pub appended : ℕ → Event → Tables → Tables
  appended now ev db = (append_event_tx trim_space to_lower now ev db).1

  -- What an event that is not a poke or a message, or a poke, leaves alone.
  abbrev pub Kept : ℕ → Tables → ℕ × Tables → Type 0
  Kept cursor db next =
      (next.0 ≡ cursor)
      × (Tables.cursor next.1 ≡ cursor)
      × (Tables.inbox next.1 ≡ db.inbox)
      × (Tables.messages next.1 ≡ db.messages)

  window_poke-Kept :
      (cursor at : ℕ) (project : Text) (ev : Event) (db : Tables)
      → Kept cursor db (cursor, window_poke trim_space to_lower cursor at project ev db)
  unfolding window_poke
  window_poke-Kept cursor at project ev db = (refl, refl, refl, refl)

  -- An event moves the cursor by one, and creates a message and its inbox rows or changes neither table.
  pub append_event_tx-cases :
      (now : ℕ) (ev : Event) (db : Tables)
      → ((text_eq ev.type event_message_created ≡ true)
          × (append_event_tx trim_space to_lower now ev db ≡ (
            db.cursor + 1,
            message_created trim_space to_lower
                (db.cursor + 1)
                (or_now now ev.created_at)
                (project_of ev)
                ev
                db,
          )))
        ⊎ ((text_eq ev.type event_message_created ≡ false)
            × Kept (db.cursor + 1) db (append_event_tx trim_space to_lower now ev db))
  unfolding append_event_tx
  append_event_tx-cases now ev db = elim (Bool-cases (text_eq ev.type event_message_created)) [
    | inl e ↦ inl (e, rw e)
    | inr e ↦ inr (
      e,
      rw e (
          if_cases (Kept (db.cursor + 1) db) (text_eq ev.type event_peer_window_poke) _ _
            (λ _. window_poke-Kept (db.cursor + 1) (or_now now ev.created_at) (project_of ev) ev db)
            (λ _. (refl, refl, refl, refl))),
    )
  ]

  pub append_event_tx-cursor :
      (now : ℕ) (ev : Event) (db : Tables)
      → ((append_event_tx trim_space to_lower now ev db).0 ≡ db.cursor + 1)
        × (Tables.cursor (appended now ev db) ≡ db.cursor + 1)
  unfolding message_created
  append_event_tx-cursor now ev db = elim (append_event_tx-cases now ev db) [
    | inl c ↦ (ap (λ n. n.0) c.1, ap (λ (n : ℕ × Tables). Tables.cursor n.1) c.1)
    | inr k ↦ (k.1.0, k.1.1)
  ]

  append_event_tx-box_keys :
      (project agent : Text) (now : ℕ) (ev : Event) (db : Tables)
      → box_keys project agent (Tables.inbox (appended now ev db))
        ≡ box_keys project agent db.inbox ++ delivered project_of project agent (db.cursor + 1) ev
  unfolding message_created message_row
  append_event_tx-box_keys project agent now ev db = elim (append_event_tx-cases now ev db) [
    | inl c ↦
        ap (λ (n : ℕ × Tables). box_keys project agent (Tables.inbox n.1)) c.1
        ∙ box_keys-append project agent db.inbox
            (inbox_rows (project_of ev) (db.cursor + 1) (Message.id ev.message) (recipients ev))
        ∙ ap (λ rest. box_keys project agent db.inbox ++ rest)
            (box_keys-inbox_rows project agent (project_of ev) (db.cursor + 1)
                (Message.id ev.message) (recipients ev)
              ∙ sym (delivered_created project_of project agent (db.cursor + 1) ev c.0))
    | inr k ↦
        ap (box_keys project agent) k.1.2
        ∙ sym (append-nil (box_keys project agent db.inbox))
        ∙ ap (λ rest. box_keys project agent db.inbox ++ rest)
            (sym (delivered_none project_of project agent (db.cursor + 1) ev k.0))
  ]

  -- A run adds to an agent's rows just what the mailbox of the run holds.
  pub append_all-box_keys :
      (project agent : Text) (evs : List (ℕ × Event)) (db : Tables)
      → box_keys project agent (Tables.inbox (append_all trim_space to_lower evs db).1)
        ≡ box_keys project agent db.inbox
          ++ deliveries project_of project agent db.cursor (map (λ e. e.1) evs)
  unfolding append_all
  append_all-box_keys project agent [] db = sym (append-nil (box_keys project agent db.inbox))
  append_all-box_keys project agent ((now, ev) ∷ evs) db =
      append_all-box_keys project agent evs (appended now ev db)
      ∙ ap
          (λ c.
            box_keys project agent (Tables.inbox (appended now ev db))
            ++ deliveries project_of project agent c (map (λ e. e.1) evs))
          (append_event_tx-cursor now ev db).1
      ∙ ap
          (λ rest. rest ++ deliveries project_of project agent (db.cursor + 1) (map (λ e. e.1) evs))
          (append_event_tx-box_keys project agent now ev db)
      ∙ append_assoc (box_keys project agent db.inbox) _ _
