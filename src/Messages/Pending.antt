-- ===== src/Messages/Pending.antt =====
-- The pokes that wait for a recipient: which events put one there, and that no append takes one away.
use intermute.Base.{
  bools_differ, ℕ, ◌≡◌, refl, sym, ap, subst, ◌∙◌, ◌⊎◌, inl, inr, Bool, true, false, none, List, [],
  ◌∷◌, filter, if_cases, Bool-cases, and-parts, All, Mem, Text, text_eq, text_eq_iff, text_eq_refl,
  codes, find_or, arith,
}
use intermute.Stamp.{stamp_lt}
use intermute.Memory.{Message, Event, event_message_created}
use intermute.Messages.{
  PokeRow, Tables, event_peer_window_poke, poke_result_deferred, same_poke, add_poke, stage_pokes,
  tables_project, message_created, window_poke, append_event_tx, append_all, or_now,
}
use intermute.Messages.Receipts.{
  is_unset, is_pending, list_pending_pokes, insert_poke, pokes_by_time,
}

-- No poke of this key has been surfaced.
abbrev pub Unsurfaced : Text → Text → Text → List PokeRow → Type 0
Unsurfaced project recipient id rows =
    All (λ (p : PokeRow). same_poke project recipient id p ≡ true → is_unset p.surfaced_at ≡ true)
      rows

-- A poke of this key waits.
abbrev pub Waiting : Text → Text → Text → List PokeRow → Type 0
Waiting project recipient id rows =
    (p : PokeRow) × Mem p rows
    × (same_poke project recipient id p ≡ true)
    × (is_unset p.surfaced_at ≡ true)

Waiting-cons :
    (project recipient id : Text) (p : PokeRow) (rows : List PokeRow)
    → Waiting project recipient id rows
    → Waiting project recipient id (p ∷ rows)
Waiting-cons project recipient id p rows (q, m, k, u) = (q, inr m, k, u)

add_poke-Waiting :
    (project recipient id : Text) (new : PokeRow) (rows : List PokeRow)
    → Waiting project recipient id rows
    → Waiting project recipient id (add_poke new rows)
unfolding add_poke
add_poke-Waiting project recipient id new [] (q, m, k, u) = elim m [ ]
add_poke-Waiting project recipient id new (p ∷ rows) (q, m, k, u) =
    if_cases (Waiting project recipient id) (same_poke new.project new.recipient new.message_id p) _
      _ (λ _. (q, m, k, u))
      (λ _. elim m [
        | inl e ↦ (q, inl e, k, u)
        | inr n ↦
            Waiting-cons project recipient id p (add_poke new rows)
              (add_poke-Waiting project recipient id new rows (q, n, k, u))
      ])

add_poke-Unsurfaced :
    (project recipient id : Text) (new : PokeRow) (rows : List PokeRow)
    → is_unset new.surfaced_at ≡ true
    → Unsurfaced project recipient id rows
    → Unsurfaced project recipient id (add_poke new rows)
unfolding add_poke
add_poke-Unsurfaced project recipient id new [] e h = (λ _. e, tt)
add_poke-Unsurfaced project recipient id new (p ∷ rows) e h =
    if_cases (Unsurfaced project recipient id)
      (same_poke new.project new.recipient new.message_id p) _ _ (λ _. h)
      (λ _. (h.0, add_poke-Unsurfaced project recipient id new rows e h.1))

-- A poke that is staged waits, unless one of its key has been surfaced.
add_poke_new-Waiting :
    (new : PokeRow) (rows : List PokeRow)
    → is_unset new.surfaced_at ≡ true
    → Unsurfaced new.project new.recipient new.message_id rows
    → Waiting new.project new.recipient new.message_id (add_poke new rows)
unfolding add_poke
add_poke_new-Waiting new [] e h = (
  new,
  inl refl,
  ground (arith, text_eq_refl new.project, text_eq_refl new.recipient, text_eq_refl new.message_id),
  e,
)
add_poke_new-Waiting new (p ∷ rows) e h =
    if_cases (Waiting new.project new.recipient new.message_id)
      (same_poke new.project new.recipient new.message_id p) _ _ (λ k. (p, inl refl, k, h.0 k))
      (λ _.
        Waiting-cons new.project new.recipient new.message_id p (add_poke new rows)
          (add_poke_new-Waiting new rows e h.1))

-- What adding an unsurfaced poke keeps.
abbrev Lasting : (List PokeRow → Type 0) → Type 0
Lasting P =
    (new : PokeRow) (rows : List PokeRow)
    → is_unset new.surfaced_at ≡ true
    → P rows
    → P (add_poke new rows)

stage_pokes-Lasting :
    (P : List PokeRow → Type 0)
    → Lasting P
    → (project : Text) (msg : Message) (at : ℕ) (agents : List Text) (rows : List PokeRow) → P rows
    → P (stage_pokes project msg at agents rows)
unfolding stage_pokes
stage_pokes-Lasting P last project msg at [] rows h = h
stage_pokes-Lasting P last project msg at (agent ∷ agents) rows h =
    stage_pokes-Lasting P last project msg at agents _ (last _ rows refl h)

module _ (trim_space to_lower : Text → Text) where
  append_event_tx-Lasting :
      (P : List PokeRow → Type 0)
      → Lasting P
      → (now : ℕ) (ev : Event) (db : Tables) → P db.pokes
      → P (Tables.pokes (append_event_tx trim_space to_lower now ev db).1)
  unfolding append_event_tx message_created window_poke
  append_event_tx-Lasting P last now ev db h =
      if_cases (λ (n : ℕ × Tables). P (Tables.pokes n.1)) (text_eq ev.type event_message_created) _
        _ (λ _. h)
        (λ _.
          if_cases (λ (n : ℕ × Tables). P (Tables.pokes n.1))
            (text_eq ev.type event_peer_window_poke) _ _
            (λ _.
              if_cases P
                (text_eq (find_or [] (codes "poke_result") (Message.metadata ev.message))
                  poke_result_deferred)
                _ _
                (λ _.
                  stage_pokes-Lasting P last (tables_project trim_space to_lower ev) ev.message
                    (or_now now ev.created_at) (Message.to ev.message) db.pokes h)
                (λ _. h))
            (λ _. h))

  append_all-Lasting :
      (P : List PokeRow → Type 0)
      → Lasting P
      → (evs : List (ℕ × Event)) (db : Tables) → P db.pokes
      → P (Tables.pokes (append_all trim_space to_lower evs db).1)
  unfolding append_all
  append_all-Lasting P last [] db h = h
  append_all-Lasting P last ((now, ev) ∷ evs) db h =
      append_all-Lasting P last evs (append_event_tx trim_space to_lower now ev db).1
        (append_event_tx-Lasting P last now ev db h)

  -- An event that defers a message for one recipient.
  pub record Defers (project recipient id : Text) (ev : Event) : Type 0 where
    pub poke : text_eq ev.type event_peer_window_poke ≡ true
    pub created : text_eq ev.type event_message_created ≡ false
    pub deferred :
        text_eq
          (find_or [] (codes "poke_result") (Message.metadata ev.message))
          poke_result_deferred
        ≡ true
    pub to : Message.to ev.message ≡ recipient ∷ []
    pub message : Message.id ev.message ≡ id
    pub at : tables_project trim_space to_lower ev ≡ project

  append_event_tx-Waiting :
      (project recipient id : Text) (now : ℕ) (ev : Event) (db : Tables)
      → Defers project recipient id ev
      → Unsurfaced project recipient id db.pokes
      → Waiting project recipient id
          (Tables.pokes (append_event_tx trim_space to_lower now ev db).1)
  unfolding append_event_tx window_poke stage_pokes
  append_event_tx-Waiting project recipient id now ev db d h =
      subst (λ (p : Text). Waiting p recipient id (Tables.pokes after)) d.at
        (subst
          (λ (i : Text).
            Waiting (tables_project trim_space to_lower ev) recipient i (Tables.pokes after))
          d.message
          (if_cases (λ (n : ℕ × Tables). Here (Tables.pokes n.1))
            (text_eq ev.type event_message_created) _ _
            (λ t. absurd (bools_differ (sym t ∙ d.created)))
            (λ _.
              if_cases (λ (n : ℕ × Tables). Here (Tables.pokes n.1))
                (text_eq ev.type event_peer_window_poke) _ _
                (λ _.
                  if_cases Here
                    (text_eq (find_or [] (codes "poke_result") (Message.metadata ev.message))
                      poke_result_deferred)
                    _ _
                    (λ _.
                      subst
                        (λ (to : List Text). Here (
                          stage_pokes (tables_project trim_space to_lower ev) ev.message
                            (or_now now ev.created_at) to db.pokes))
                        (sym d.to) (add_poke_new-Waiting new db.pokes refl fresh))
                    (λ f. absurd (bools_differ (sym d.deferred ∙ f))))
                (λ f. absurd (bools_differ (sym d.poke ∙ f))))))
    where
      Here : List PokeRow → Type 0
      Here = Waiting (tables_project trim_space to_lower ev) recipient (Message.id ev.message)

      fresh :
          Unsurfaced
            (tables_project trim_space to_lower ev)
            recipient
            (Message.id ev.message)
            db.pokes
      fresh =
          subst
            (λ (i : Text). Unsurfaced (tables_project trim_space to_lower ev) recipient i db.pokes)
            (sym d.message) (subst (λ (p : Text). Unsurfaced p recipient id db.pokes) (sym d.at) h)

      after : Tables
      after = (append_event_tx trim_space to_lower now ev db).1

      new : PokeRow
      new = record {
        project = tables_project trim_space to_lower ev;
        recipient = recipient;
        message_id = Message.id ev.message;
        sender = Message.from ev.message;
        body = Message.body ev.message;
        created_at = or_now now ev.created_at;
        surfaced_at = none;
      }

  -- A run with such an event leaves the poke waiting.
  pub append_all-Waiting :
      (project recipient id : Text) (evs : List (ℕ × Event)) (db : Tables)
      → (now : ℕ) (ev : Event) → Mem (now, ev) evs
      → Defers project recipient id ev
      → Unsurfaced project recipient id db.pokes
      → Waiting project recipient id (Tables.pokes (append_all trim_space to_lower evs db).1)
  unfolding append_all
  append_all-Waiting project recipient id [] db now ev m d h = elim m [ ]
  append_all-Waiting project recipient id ((t, e) ∷ evs) db now ev m d h =
      let next = (append_event_tx trim_space to_lower t e db).1 in
      elim m [
        | inl q ↦
            append_all-Lasting (Waiting project recipient id)
              (λ new rows u w. add_poke-Waiting project recipient id new rows w) evs next
              (append_event_tx-Waiting project recipient id t e db
                (subst (Defers project recipient id) (ap (λ (x : ℕ × Event). x.1) q) d) h)
        | inr n ↦ append_all-Waiting project recipient id evs next now ev n d (
            append_event_tx-Lasting (Unsurfaced project recipient id)
              (λ new rows u w. add_poke-Unsurfaced project recipient id new rows u w) t e db h)
      ]

insert_poke-Mem :
    (p : PokeRow) (rows : List PokeRow) (x : PokeRow)
    → (x ≡ p) ⊎ Mem x rows
    → Mem x (insert_poke p rows)
unfolding insert_poke
insert_poke-Mem p [] x h = h
insert_poke-Mem p (q ∷ rows) x h =
    if_cases (λ l. Mem x l) (stamp_lt q.created_at p.created_at) _ _
      (λ _. elim h [
        | inl e ↦ inr (insert_poke-Mem p rows x (inl e))
        | inr (inl e) ↦ inl e
        | inr (inr m) ↦ inr (insert_poke-Mem p rows x (inr m))
      ])
      (λ _. h)

pokes_by_time-Mem : (rows : List PokeRow) (x : PokeRow) → Mem x rows → Mem x (pokes_by_time rows)
unfolding pokes_by_time
pokes_by_time-Mem [] x h = h
pokes_by_time-Mem (p ∷ rows) x (inl e) = insert_poke-Mem p (pokes_by_time rows) x (inl e)
pokes_by_time-Mem (p ∷ rows) x (inr m) =
    insert_poke-Mem p (pokes_by_time rows) x (inr (pokes_by_time-Mem rows x m))

filter-Mem :
    (p : PokeRow → Bool) (rows : List PokeRow) (x : PokeRow)
    → Mem x rows
    → p x ≡ true
    → Mem x (filter p rows)
filter-Mem p [] x m h = m
filter-Mem p (q ∷ rows) x m h = elim (Bool-cases (p q)) [
  | inl e ↦ rw e (elim m [ inl s ↦ inl s | inr n ↦ inr (filter-Mem p rows x n h) ])
  | inr e ↦ rw e (elim m [
    | inl s ↦ absurd (bools_differ (sym h ∙ ap p s ∙ e))
    | inr n ↦ filter-Mem p rows x n h
  ])
]

-- A poke that waits is listed for its recipient, with the id of its message.
pub list_pending_pokes-Waiting :
    (project recipient id : Text) (db : Tables)
    → Waiting project recipient id db.pokes
    → (p : PokeRow) × Mem p (list_pending_pokes project recipient db) × (p.message_id ≡ id)
unfolding list_pending_pokes is_pending
list_pending_pokes-Waiting project recipient id db (p, m, k, u) =
    let parts = and-parts (text_eq p.project project) _ k in
    let rest = and-parts (text_eq p.recipient recipient) (text_eq p.message_id id) parts.1 in
    (
      p,
      pokes_by_time-Mem (filter (is_pending project recipient) db.pokes) p (
          filter-Mem (is_pending project recipient) db.pokes p m
            (ground (arith, parts.0, rest.0, u))),
      (text_eq_iff p.message_id id).0 rest.1,
    )
