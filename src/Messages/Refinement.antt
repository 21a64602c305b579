-- ===== src/Messages/Refinement.antt =====
-- The store in memory against the same mailbox, and the two stores against each other.
use intermute.Base.{
  ℕ, zero, suc, ◌+◌, ◌^◌, ◌≤◌, ◌<◌, ◌≡◌, refl, sym, ap, ◌∙◌, Bool, true, false, List, [], ◌∷◌, ◌++◌,
  map, filter, take, length, if◌then◌else◌, Bool-cases, inl, inr, All, Text, text_eq, is_empty,
  find, find_or, subst, append_assoc, append-nil, arith, ltb, ◌==◌,
}
use intermute.Memory.{
  Message, Event, InMemory, new_in_memory, event_message_created, event_project, next_cursor,
  recipients, stamped, append_event, append_events, inbox_of, after_cursor, limited,
}
use intermute.Memory.Delivery.{copies, append_event-inbox_of}
use intermute.Memory.Inboxes.{append_event-cursor, next_cursor-eq}
use intermute.Memory
use intermute.Messages.{tables_project, no_tables, append_all}
use intermute.Messages.Queries.{page_limit, inbox_since}
use intermute.Messages.Mailbox.{
  above, page, key_copies, delivered, deliveries, key_of, map-append, map-take, map-filter,
}
use intermute.Messages.Rows.{project_of}
use intermute.Messages.Reads.{inbox_since-page}

page_limit_pos : (limit : ℕ) → 1 ≤ page_limit limit
page_limit_pos limit = ground arith

map-length : (evs : List (ℕ × Event)) → length (map (λ e. e.1) evs) ≡ length evs
map-length [] = refl
map-length (e ∷ evs) = ap suc (map-length evs)

copies-keys :
    (agent : Text) (rs : List Text) (msg : Message)
    → map key_of (copies agent rs msg) ≡ key_copies agent rs (key_of msg)
copies-keys agent [] msg = refl
copies-keys agent (r ∷ rs) msg = elim (Bool-cases (text_eq r agent)) [
  | inl e ↦ rw e (ap (λ rest. key_of msg ∷ rest) (copies-keys agent rs msg))
  | inr e ↦ rw e (copies-keys agent rs msg)
]

stamped-key :
    (ev : Event) (m : InMemory) → key_of (stamped m ev) ≡ (next_cursor m, Message.id ev.message)
unfolding stamped
stamped-key ev m = refl

append_event-keys :
    (ev : Event) (m : InMemory) (project agent : Text)
    → map key_of (inbox_of project agent (append_event ev m).1)
      ≡ map key_of (inbox_of project agent m)
        ++ delivered event_project project agent (next_cursor m) ev
unfolding delivered
append_event-keys ev m project agent =
    ap (map key_of) (append_event-inbox_of ev m project agent)
    ∙ elim (Bool-cases (text_eq ev.type event_message_created)) [
      | inl e ↦ elim (Bool-cases (text_eq (event_project ev) project)) [
        | inl p ↦
            rw (e, p)
              (map-append key_of (inbox_of project agent m)
                  (copies agent (recipients ev) (stamped m ev))
                ∙ ap (λ rest. map key_of (inbox_of project agent m) ++ rest)
                    (copies-keys agent (recipients ev) (stamped m ev)
                      ∙ ap (key_copies agent (recipients ev)) (stamped-key ev m)))
        | inr p ↦ rw (e, p) (sym (append-nil (map key_of (inbox_of project agent m))))
      ]
      | inr e ↦ rw e (sym (append-nil (map key_of (inbox_of project agent m))))
    ]

append_events-keys :
    (evs : List Event) (m : InMemory) (project agent : Text)
    → m.cursor + length evs < 2 ^ 64
    → map key_of (inbox_of project agent (append_events evs m).1)
      ≡ map key_of (inbox_of project agent m) ++ deliveries event_project project agent m.cursor evs
unfolding append_events
append_events-keys [] m project agent room =
    sym (append-nil (map key_of (inbox_of project agent m)))
append_events-keys (ev ∷ evs) m project agent room =
    let next = (append_event ev m).1 in
    let step = next_cursor-eq m (omega arith) in
    let now = (append_event-cursor ev m).1 ∙ step in
    append_events-keys evs next project agent (omega arith)
    ∙ ap
        (λ c.
          map key_of (inbox_of project agent next) ++ deliveries event_project project agent c evs)
        now
    ∙ ap (λ keys. keys ++ deliveries event_project project agent (m.cursor + 1) evs)
        (append_event-keys ev m project agent
          ∙ ap
              (λ c.
                map key_of (inbox_of project agent m) ++ delivered event_project project agent c ev)
              step)
    ∙ append_assoc (map key_of (inbox_of project agent m)) _ _

-- The message and its event name one project, which nothing has to be trimmed from.
abbrev pub OneProject : (Text → Text) → Event → Type 0
OneProject trim_space ev =
    (Message.project ev.message ≡ ev.project) × (trim_space ev.project ≡ ev.project)

pub either_way : {A : Type 0} (x : A) (b : Bool) → (if b then x else x) ≡ x
either_way x true = refl
either_way x false = refl

module _ (trim_space to_lower : Text → Text) where
  project_of-agree :
      (ev : Event) → OneProject trim_space ev → event_project ev ≡ project_of trim_space to_lower ev
  unfolding event_project tables_project
  project_of-agree ev (same, trimmed) =
      ap (λ (p : Text). if is_empty p then ev.project else p) same
      ∙ either_way ev.project (is_empty ev.project)
      ∙ sym (
          ap
            (λ (p : Text).
              if is_empty (trim_space ev.project) then trim_space p else trim_space ev.project)
            same
          ∙ either_way (trim_space ev.project) (is_empty (trim_space ev.project))
          ∙ trimmed)

  deliveries-agree :
      (project agent : Text) (c : ℕ) (evs : List Event)
      → All (OneProject trim_space) evs
      → deliveries event_project project agent c evs
        ≡ deliveries (project_of trim_space to_lower) project agent c evs
  unfolding delivered
  deliveries-agree project agent c [] h = refl
  deliveries-agree project agent c (ev ∷ evs) (e, h) =
      ap
        (λ (p : Text).
          (if text_eq ev.type event_message_created
            then (if text_eq p project
                then key_copies agent (recipients ev) (c + 1, Message.id ev.message)
                else [])
            else [])
          ++ deliveries event_project project agent (c + 1) evs)
        (project_of-agree ev e)
      ∙ ap (λ rest. delivered (project_of trim_space to_lower) project agent (c + 1) ev ++ rest)
          (deliveries-agree project agent (c + 1) evs h)

inbox_since-mailbox :
    (evs : List Event)
    → length evs < 2 ^ 64
    → (project agent : Text) (cursor limit : ℕ) → is_empty project ≡ false
    → 1 ≤ limit
    → map key_of (Memory.inbox_since project agent cursor limit (append_events evs new_in_memory).1)
      ≡ page cursor limit (deliveries event_project project agent 0 evs)
unfolding Memory.inbox_since after_cursor limited new_in_memory inbox_of find_or find
inbox_since-mailbox evs room project agent cursor zero named pos = absurd (omega (arith, pos))
inbox_since-mailbox evs room project agent cursor (suc n) named pos = rw named (
    map-take key_of (suc n) (filter (after_cursor cursor) box)
    ∙ ap (take (suc n)) (
        map-filter key_of (after_cursor cursor) (above cursor) (λ x. refl) box
        ∙ ap (filter (above cursor))
            (append_events-keys evs new_in_memory project agent (omega (arith, room)))))
  where
    box : List Message
    box = inbox_of project agent (append_events evs new_in_memory).1

-- After the same events, fewer than 2^64, in each of which the event and its message name one project that nothing has
-- to be trimmed from, a reader that names a project gets from the SQLite store, with any limit, the same ids of messages
-- with the same cursors, in the same order, as from the store in memory with the limit that the SQLite store puts in
-- its place: 100 for 0, 1000 for more than 1000, and else the same.
pub stores-agree :
    (trim_space to_lower : Text → Text) (evs : List (ℕ × Event))
    → All (OneProject trim_space) (map (λ e. e.1) evs)
    → length evs < 2 ^ 64
    → (project agent : Text) (cursor limit : ℕ) → is_empty project ≡ false
    → map key_of
        (inbox_since project agent cursor limit (append_all trim_space to_lower evs no_tables).1)
      ≡ map key_of (
          Memory.inbox_since project agent cursor
            (if limit == 0 then 100 else if ltb 1000 limit then 1000 else limit)
            (append_events (map (λ e. e.1) evs) new_in_memory).1)
stores-agree trim_space to_lower evs one room project agent cursor limit named =
    inbox_since-page trim_space to_lower evs project agent cursor limit named
    ∙ ap (page cursor (page_limit limit))
        (sym (deliveries-agree trim_space to_lower project agent 0 (map (λ e. e.1) evs) one))
    ∙ sym (
        inbox_since-mailbox (map (λ e. e.1) evs)
          (subst (λ n. n < 2 ^ 64) (sym (map-length evs)) room) project agent cursor
          (page_limit limit) named (page_limit_pos limit))
