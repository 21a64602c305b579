-- ===== src/Memory/Pages.antt =====
-- What a reader sees that polls an inbox: `InboxSince`.
use intermute.Base.{
  ℕ, zero, suc, ◌^◌, ◌<◌, Bool, true, false, List, [], ◌∷◌, ◌≡◌, ◌⊎◌, inl, inr, refl, ap, length,
  Mem, take, ltb, filter, Bool-cases, if◌then◌else◌, Text, arith, is_empty,
}
use intermute.Memory.{
  Message, Event, new_in_memory, append_events, inbox_of, inbox_since, limited, after_cursor,
}
use intermute.Memory.Order.{Sorted}
use intermute.Memory.Inboxes.{
  OnePerCursor, append_events-InOrder, new-InOrder, append_events-Identified, new-Identified,
}

-- One page of an inbox `box` read from a cursor on.
pub record Page (box : List Message) (cursor limit : ℕ) (page : List Message) : Type 0 where
  pub ordered : Sorted page
  pub sound : (x : Message) → Mem x page → Mem x box × (cursor < Message.cursor x)
  pub unlimited : limit ≡ 0 → (x : Message) → Mem x box → cursor < Message.cursor x → Mem x page
  pub no_gap :
      (x : Message)
      → Mem x box
      → cursor < Message.cursor x
      → Mem x page ⊎ ((y : Message) → Mem y page → Message.cursor y < Message.cursor x)

filter-mem :
    (cursor : ℕ) (box : List Message) (x : Message)
    → (Mem x (filter (after_cursor cursor) box) → Mem x box × (cursor < Message.cursor x))
      × (Mem x box → cursor < Message.cursor x → Mem x (filter (after_cursor cursor) box))
unfolding after_cursor
filter-mem cursor [] x = (λ h. elim h [ ], λ h. elim h [ ])
filter-mem cursor (b ∷ bs) x = pass (ltb cursor (Message.cursor b)) refl (filter-mem cursor bs x)
  where
    pass :
        (t : Bool)
        → ltb cursor (Message.cursor b) ≡ t
        → (Mem x (filter (after_cursor cursor) bs) → Mem x bs × (cursor < Message.cursor x))
          × (Mem x bs → cursor < Message.cursor x → Mem x (filter (after_cursor cursor) bs))
        → (Mem x
              (if t then b ∷ filter (after_cursor cursor) bs else filter (after_cursor cursor) bs)
            → ((x ≡ b) ⊎ Mem x bs) × (cursor < Message.cursor x))
          × (((x ≡ b) ⊎ Mem x bs)
              → cursor < Message.cursor x
              → Mem x (
                  if t
                  then b ∷ filter (after_cursor cursor) bs
                  else filter (after_cursor cursor) bs))
    pass true e ih = (
      λ h. elim h [
        | inl q ↦ (inl q, ground (arith, ap Message.cursor q))
        | inr m ↦ (inr (ih.0 m).0, (ih.0 m).1)
      ],
      λ h lt. elim h [ inl q ↦ inl q | inr m ↦ inr (ih.1 m lt) ],
    )
    pass false e ih = (
      λ h. (inr (ih.0 h).0, (ih.0 h).1),
      λ h lt. elim h [ inl q ↦ elim (never q lt) [ ] | inr m ↦ ih.1 m lt ],
    )
      where
        never : x ≡ b → cursor < Message.cursor x → ⊥
        never q lt = ground (arith, ap Message.cursor q)

filter-Sorted :
    (cursor : ℕ) (box : List Message) → Sorted box → Sorted (filter (after_cursor cursor) box)
filter-Sorted cursor [] h = tt
filter-Sorted cursor (b ∷ bs) h = pass (after_cursor cursor b) (filter-Sorted cursor bs h.1)
  where
    pass :
        (t : Bool)
        → Sorted (filter (after_cursor cursor) bs)
        → Sorted
            (if t then b ∷ filter (after_cursor cursor) bs else filter (after_cursor cursor) bs)
    pass true ih = (λ y m. h.0 y ((filter-mem cursor bs y).0 m).0, ih)
    pass false ih = ih

take-mem : (n : ℕ) (xs : List Message) (x : Message) → Mem x (take n xs) → Mem x xs
take-mem zero xs x h = elim h [ ]
take-mem (suc n) [] x h = h
take-mem (suc n) (y ∷ ys) x (inl e) = inl e
take-mem (suc n) (y ∷ ys) x (inr m) = inr (take-mem n ys x m)

take-Sorted : (n : ℕ) (xs : List Message) → Sorted xs → Sorted (take n xs)
take-Sorted zero xs h = tt
take-Sorted (suc n) [] h = tt
take-Sorted (suc n) (y ∷ ys) h = (λ z m. h.0 z (take-mem n ys z m), take-Sorted n ys h.1)

filter-OnePerCursor :
    (cursor : ℕ) (box : List Message)
    → OnePerCursor box
    → OnePerCursor (filter (after_cursor cursor) box)
filter-OnePerCursor cursor box one x y hx hy =
    one x y ((filter-mem cursor box x).0 hx).0 ((filter-mem cursor box y).0 hy).0

take-no_gap :
    (n : ℕ) (xs : List Message) (x : Message)
    → Sorted xs
    → OnePerCursor xs
    → Mem x xs
    → Mem x (take n xs) ⊎ ((y : Message) → Mem y (take n xs) → Message.cursor y < Message.cursor x)
take-no_gap zero xs x s one h = inr (λ y m. elim m [ ])
take-no_gap (suc n) [] x s one h = elim h [ ]
take-no_gap (suc n) (z ∷ zs) x s one (inl e) = inl (inl e)
take-no_gap (suc n) (z ∷ zs) x s one (inr m) =
    pass (Bool-cases (ltb (Message.cursor z) (Message.cursor x)))
      (take-no_gap n zs x s.1 (λ a b ha hb. one a b (inr ha) (inr hb)) m)
  where
    Behind : List Message → Type 0
    Behind ys = (y : Message) → Mem y ys → Message.cursor y < Message.cursor x

    behind : Message.cursor z < Message.cursor x → Behind (take n zs) → Behind (z ∷ take n zs)
    behind lt r y (inl q) = omega (arith, ap Message.cursor q, lt)
    behind lt r y (inr k) = r y k

    copy : ltb (Message.cursor z) (Message.cursor x) ≡ false → x ≡ z
    copy f = one x z (inr m) (inl refl) (ground (arith, s.0 x m))

    pass :
        (ltb (Message.cursor z) (Message.cursor x) ≡ true)
          ⊎ (ltb (Message.cursor z) (Message.cursor x) ≡ false)
        → Mem x (take n zs) ⊎ Behind (take n zs)
        → Mem x (z ∷ take n zs) ⊎ Behind (z ∷ take n zs)
    pass t (inl l) = inl (inr l)
    pass (inl t) (inr r) = inr (behind (ground arith) r)
    pass (inr f) (inr r) = inl (inl (copy f))

limited-Page :
    (limit cursor : ℕ) (box : List Message)
    → Sorted box
    → OnePerCursor box
    → Page box cursor limit (limited limit (filter (after_cursor cursor) box))
unfolding limited
limited-Page zero cursor box s one = record {
  ordered = filter-Sorted cursor box s;
  sound = λ x h. (filter-mem cursor box x).0 h;
  unlimited = λ e x h lt. (filter-mem cursor box x).1 h lt;
  no_gap = λ x h lt. inl ((filter-mem cursor box x).1 h lt);
}
limited-Page (suc n) cursor box s one = record {
  ordered = take-Sorted (suc n) (filter (after_cursor cursor) box) (filter-Sorted cursor box s);
  sound =
      λ x h. (filter-mem cursor box x).0 (take-mem (suc n) (filter (after_cursor cursor) box) x h);
  unlimited = λ e. elim (never e) [ ];
  no_gap = λ x h lt.
      take-no_gap (suc n) (filter (after_cursor cursor) box) x (filter-Sorted cursor box s)
        (filter-OnePerCursor cursor box one) ((filter-mem cursor box x).1 h lt);
}
  where
    never : suc n ≡ 0 → ⊥
    never e = omega arith

-- After any events on a new store, fewer than 2^64, a reader that names a project and polls an inbox from a cursor gets
-- a page in the order of the cursors, of messages above its cursor alone, and all of them if it sets no limit; a
-- message above its cursor that is kept out of the page has a cursor above that of every message in it, so the next
-- poll, from the last cursor of the page, does not step over it.
pub inbox_since-Page :
    (evs : List Event)
    → length evs < 2 ^ 64
    → (project agent : Text) (cursor limit : ℕ) → is_empty project ≡ false
    → Page
        (inbox_of project agent (append_events evs new_in_memory).1)
        cursor
        limit
        (inbox_since project agent cursor limit (append_events evs new_in_memory).1)
unfolding inbox_since new_in_memory
inbox_since-Page evs room project agent cursor limit named = rw named (
    limited-Page limit cursor (inbox_of project agent (append_events evs new_in_memory).1)
      (append_events-InOrder evs new_in_memory (omega (arith, room)) new-InOrder project agent).0
      (append_events-Identified evs new_in_memory (omega (arith, room)) new-InOrder new-Identified
        project agent))
