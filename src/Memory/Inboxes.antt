-- ===== src/Memory/Inboxes.antt =====
-- What the inboxes and the cursors are after a run of events.
use intermute.Base.{
  ℕ, zero, suc, ◌+◌, ◌^◌, ◌≤◌, ◌<◌, Bool, true, false, List, [], ◌∷◌, ◌++◌, ◌≡◌, ◌⊎◌, inl, inr,
  refl, sym, ◌∙◌, ap, subst, length, Mem, Mem-append, if◌then◌else◌, if_cases, Text, text_eq, arith,
}
use intermute.Memory.{
  Message, Event, InMemory, new_in_memory, event_message_created, next_cursor, event_project,
  recipients, stamped, append_event, append_events, inbox_of,
}
use intermute.Memory.Order.{Sorted}
use intermute.Memory.Delivery.{copies, append_event-inbox_of}

abbrev pub UpTo : ℕ → List Message → Type 0
UpTo c xs = (x : Message) → Mem x xs → Message.cursor x ≤ c

copies-stamp :
    (agent : Text) (rs : List Text) (msg x : Message) → Mem x (copies agent rs msg) → x ≡ msg
copies-stamp agent [] msg x h = elim h [ ]
copies-stamp agent (r ∷ rs) msg x h = pass (text_eq r agent) (copies-stamp agent rs msg x) h
  where
    pass :
        (b : Bool)
        → (Mem x (copies agent rs msg) → x ≡ msg)
        → Mem x (if b then msg ∷ copies agent rs msg else copies agent rs msg)
        → x ≡ msg
    pass true ih (inl e) = e
    pass true ih (inr m) = ih m
    pass false ih m = ih m

copies-Sorted : (agent : Text) (rs : List Text) (msg : Message) → Sorted (copies agent rs msg)
copies-Sorted agent [] msg = tt
copies-Sorted agent (r ∷ rs) msg = pass (text_eq r agent) (copies-Sorted agent rs msg)
  where
    pass :
        (b : Bool)
        → Sorted (copies agent rs msg)
        → Sorted (if b then msg ∷ copies agent rs msg else copies agent rs msg)
    pass true ih = (λ y h. omega (arith, ap Message.cursor (copies-stamp agent rs msg y h)), ih)
    pass false ih = ih

Sorted-append :
    (xs ys : List Message)
    → Sorted xs
    → Sorted ys
    → ((x y : Message) → Mem x xs → Mem y ys → Message.cursor x ≤ Message.cursor y)
    → Sorted (xs ++ ys)
Sorted-append [] ys hx hy h = hy
Sorted-append (x ∷ xs) ys hx hy h = (
  λ y m. elim (Mem-append y xs ys m) [ inl l ↦ hx.0 y l | inr r ↦ h x y (inl refl) r ],
  Sorted-append xs ys hx.1 hy (λ a b ha hb. h a b (inr ha) hb),
)

-- Every inbox is in the order of the cursors, none of which is above the store's.
abbrev pub InOrder : InMemory → Type 0
InOrder m =
    (project agent : Text)
    → Sorted (inbox_of project agent m) × UpTo (InMemory.cursor m) (inbox_of project agent m)

pub next_cursor-eq :
    (m : InMemory) → InMemory.cursor m + 1 < 2 ^ 64 → next_cursor m ≡ InMemory.cursor m + 1
unfolding next_cursor
next_cursor-eq m h = omega arith

pub append_event-cursor :
    (ev : Event) (m : InMemory)
    → ((append_event ev m).0 ≡ next_cursor m)
      × (InMemory.cursor (append_event ev m).1 ≡ next_cursor m)
unfolding append_event
append_event-cursor ev m =
    if_cases (λ (r : ℕ × InMemory). (r.0 ≡ next_cursor m) × (InMemory.cursor r.1 ≡ next_cursor m))
      (text_eq (Event.type ev) event_message_created) _ _ (λ _. (refl, refl)) (λ _. (refl, refl))

stamped-cursor : (ev : Event) (m : InMemory) → Message.cursor (stamped m ev) ≡ next_cursor m
unfolding stamped
stamped-cursor ev m = refl

append_event-InOrder :
    (ev : Event) (m : InMemory)
    → InMemory.cursor m + 1 < 2 ^ 64
    → InOrder m
    → InOrder (append_event ev m).1
append_event-InOrder ev m room h project agent =
    subst (λ (xs : List Message). Sorted xs × UpTo (InMemory.cursor (append_event ev m).1) xs)
      (sym (append_event-inbox_of ev m project agent))
      (if_cases Good (text_eq (Event.type ev) event_message_created) _ _
        (λ _. if_cases Good (text_eq (event_project ev) project) _ _ (λ _. grown) (λ _. same))
        (λ _. same))
  where
    Good : List Message → Type 0
    Good xs = Sorted xs × UpTo (InMemory.cursor (append_event ev m).1) xs

    now : InMemory.cursor (append_event ev m).1 ≡ InMemory.cursor m + 1
    now = (append_event-cursor ev m).1 ∙ next_cursor-eq m room

    same : Good (inbox_of project agent m)
    same = ((h project agent).0, λ x k. omega (arith, now, (h project agent).1 x k))

    new :
        (x : Message)
        → Mem x (copies agent (recipients ev) (stamped m ev))
        → Message.cursor x ≡ InMemory.cursor m + 1
    new x k =
        ap Message.cursor (copies-stamp agent (recipients ev) (stamped m ev) x k)
        ∙ stamped-cursor ev m
        ∙ next_cursor-eq m room

    grown : Good (inbox_of project agent m ++ copies agent (recipients ev) (stamped m ev))
    grown = (
      Sorted-append (inbox_of project agent m) (copies agent (recipients ev) (stamped m ev))
          (h project agent).0 (copies-Sorted agent (recipients ev) (stamped m ev))
          (λ x y hx hy. omega (arith, new y hy, (h project agent).1 x hx)),
      λ x k.
          elim (Mem-append x (inbox_of project agent m)
            (copies agent (recipients ev) (stamped m ev)) k) [
              | inl l ↦ omega (arith, now, (h project agent).1 x l)
              | inr r ↦ omega (arith, now, new x r)
            ],
    )

-- Messages of one inbox that have the same cursor are copies of one message.
abbrev pub OnePerCursor : List Message → Type 0
OnePerCursor xs =
    (x y : Message) → Mem x xs → Mem y xs → Message.cursor x ≡ Message.cursor y → x ≡ y

OnePerCursor-append :
    (top : ℕ) (xs ys : List Message) (msg : Message)
    → OnePerCursor xs
    → UpTo top xs
    → top < Message.cursor msg
    → ((y : Message) → Mem y ys → y ≡ msg)
    → OnePerCursor (xs ++ ys)
OnePerCursor-append top xs ys msg one up above all x y hx hy e =
    pass (Mem-append x xs ys hx) (Mem-append y xs ys hy)
  where
    later : (z : Message) → Mem z ys → top < Message.cursor z
    later z m = omega (arith, ap Message.cursor (all z m), above)

    pass : Mem x xs ⊎ Mem x ys → Mem y xs ⊎ Mem y ys → x ≡ y
    pass (inl a) (inl b) = one x y a b e
    pass (inl a) (inr b) = absurd (omega (arith, e, up x a, later y b))
    pass (inr a) (inl b) = absurd (omega (arith, e, up y b, later x a))
    pass (inr a) (inr b) = all x a ∙ sym (all y b)

abbrev pub Identified : InMemory → Type 0
Identified m = (project agent : Text) → OnePerCursor (inbox_of project agent m)

append_event-Identified :
    (ev : Event) (m : InMemory)
    → InMemory.cursor m + 1 < 2 ^ 64
    → InOrder m
    → Identified m
    → Identified (append_event ev m).1
append_event-Identified ev m room order h project agent =
    subst OnePerCursor (sym (append_event-inbox_of ev m project agent)) (
      if_cases OnePerCursor (text_eq (Event.type ev) event_message_created) _ _
        (λ _.
          if_cases OnePerCursor (text_eq (event_project ev) project) _ _ (λ _. grown)
            (λ _. h project agent))
        (λ _. h project agent))
  where
    above : InMemory.cursor m < Message.cursor (stamped m ev)
    above = omega (arith, stamped-cursor ev m, next_cursor-eq m room)

    grown : OnePerCursor (inbox_of project agent m ++ copies agent (recipients ev) (stamped m ev))
    grown =
        OnePerCursor-append (InMemory.cursor m) (inbox_of project agent m)
          (copies agent (recipients ev) (stamped m ev)) (stamped m ev) (h project agent)
          (order project agent).1 above (copies-stamp agent (recipients ev) (stamped m ev))

pub append_events-Identified :
    (evs : List Event) (m : InMemory)
    → InMemory.cursor m + length evs < 2 ^ 64
    → InOrder m
    → Identified m
    → Identified (append_events evs m).1
unfolding append_events
append_events-Identified [] m room order h = h
append_events-Identified (ev ∷ evs) m room order h =
    let now = (append_event-cursor ev m).1 ∙ next_cursor-eq m (omega arith) in
    append_events-Identified evs (append_event ev m).1 (omega (arith, now))
      (append_event-InOrder ev m (omega arith) order)
      (append_event-Identified ev m (omega arith) order h)

pub append_events-InOrder :
    (evs : List Event) (m : InMemory)
    → InMemory.cursor m + length evs < 2 ^ 64
    → InOrder m
    → InOrder (append_events evs m).1
unfolding append_events
append_events-InOrder [] m room h = h
append_events-InOrder (ev ∷ evs) m room h =
    let now = (append_event-cursor ev m).1 ∙ next_cursor-eq m (omega arith) in
    append_events-InOrder evs (append_event ev m).1 (omega (arith, now))
      (append_event-InOrder ev m (omega arith) h)

pub new-InOrder : InOrder new_in_memory
unfolding new_in_memory inbox_of
new-InOrder project agent = (tt, λ x h. elim h [ ])

pub new-Identified : Identified new_in_memory
unfolding new_in_memory inbox_of
new-Identified project agent x y h = elim h [ ]

abbrev pub count_from : ℕ → ℕ → List ℕ
count_from c zero = []
count_from c (suc n) = c ∷ count_from (c + 1) n

-- The cursors that `AppendEvents` returns count on from the store's, as long as 64 bits hold them.
pub append_events-count_from :
    (evs : List Event) (m : InMemory)
    → InMemory.cursor m + length evs < 2 ^ 64
    → (append_events evs m).0 ≡ count_from (InMemory.cursor m + 1) (length evs)
unfolding append_events
append_events-count_from [] m room = refl
append_events-count_from (ev ∷ evs) m room =
    let step = next_cursor-eq m (omega arith) in
    let now = (append_event-cursor ev m).1 ∙ step in
    let ih = append_events-count_from evs (append_event ev m).1 (omega (arith, now)) in
    ap (λ (c : ℕ). c ∷ (append_events evs (append_event ev m).1).0)
      ((append_event-cursor ev m).0 ∙ step)
    ∙ ap (λ (cs : List ℕ). (InMemory.cursor m + 1) ∷ cs)
        (ih ∙ ap (λ (c : ℕ). count_from (c + 1) (length evs)) now)
