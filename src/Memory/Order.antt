-- ===== src/Memory/Order.antt =====
-- The order of a thread's messages: the two loops of `ThreadMessages` sort by cursor.
use intermute.Base.{
  ℕ, zero, suc, ◌≤◌, Bool, true, false, List, [], ◌∷◌, ◌≡◌, inl, inr, refl, ap, length, Mem, ltb,
  filter, find_or, if◌then◌else◌, Text, arith,
}
use intermute.Memory.{
  Message, InMemory, exchange, sort_passes, sort_by_cursor, in_thread, values, thread_messages,
}

abbrev pub Sorted : List Message → Type 0
Sorted [] = Unit
Sorted (x ∷ xs) = ((y : Message) → Mem y xs → Message.cursor x ≤ Message.cursor y) × Sorted xs

abbrev pub SameMembers : List Message → List Message → Type 0
SameMembers xs ys = (m : Message) → (Mem m xs → Mem m ys) × (Mem m ys → Mem m xs)

exchange-length : (x : Message) (xs : List Message) → length (exchange x xs).1 ≡ length xs
unfolding exchange
exchange-length x [] = refl
exchange-length x (y ∷ ys) =
    ap suc (exchange-length (if ltb (Message.cursor y) (Message.cursor x) then y else x) ys)

exchange-SameMembers :
    (x : Message) (xs : List Message) → SameMembers ((exchange x xs).0 ∷ (exchange x xs).1) (x ∷ xs)
unfolding exchange
exchange-SameMembers x [] m = (λ h. h, λ h. h)
exchange-SameMembers x (y ∷ ys) m =
    let swap = ltb (Message.cursor y) (Message.cursor x) in
    pass swap (exchange (if swap then y else x) ys)
      (exchange-SameMembers (if swap then y else x) ys m)
  where
    pass :
        (swap : Bool) (r : Message × List Message)
        → (Mem m (r.0 ∷ r.1) → Mem m ((if swap then y else x) ∷ ys))
          × (Mem m ((if swap then y else x) ∷ ys) → Mem m (r.0 ∷ r.1))
        → (Mem m (r.0 ∷ (if swap then x else y) ∷ r.1) → Mem m (x ∷ y ∷ ys))
          × (Mem m (x ∷ y ∷ ys) → Mem m (r.0 ∷ (if swap then x else y) ∷ r.1))
    pass true r ih = ground (arith, ih.0, ih.1)
    pass false r ih = ground (arith, ih.0, ih.1)

exchange-least :
    (x : Message) (xs : List Message)
    → (Message.cursor (exchange x xs).0 ≤ Message.cursor x)
      × ((y : Message)
          → Mem y (exchange x xs).1
          → Message.cursor (exchange x xs).0 ≤ Message.cursor y)
unfolding exchange
exchange-least x [] = (omega arith, λ y h. elim h [ ])
exchange-least x (z ∷ zs) =
    let swap = ltb (Message.cursor z) (Message.cursor x) in
    pass swap refl (exchange (if swap then z else x) zs) (exchange-least (if swap then z else x) zs)
  where
    Least : Message → Message × List Message → Type 0
    Least a r =
        (Message.cursor r.0 ≤ Message.cursor a)
        × ((y : Message) → Mem y r.1 → Message.cursor r.0 ≤ Message.cursor y)

    add :
        (a b : Message) (r : Message × List Message)
        → Message.cursor r.0 ≤ Message.cursor b
        → Least a r
        → (y : Message) → Mem y (b ∷ r.1)
        → Message.cursor r.0 ≤ Message.cursor y
    add a b r h l y (inl e) = omega (arith, h, ap Message.cursor e)
    add a b r h l y (inr m) = l.1 y m

    pass :
        (swap : Bool)
        → ltb (Message.cursor z) (Message.cursor x) ≡ swap
        → (r : Message × List Message) → Least (if swap then z else x) r
        → Least x (r.0, (if swap then x else z) ∷ r.1)
    pass true e r ih = (ground (arith, ih.0), add z x r (ground (arith, ih.0)) ih)
    pass false e r ih = (ih.0, add x z r (ground (arith, ih.0)) ih)

sort_passes-Sorted :
    (n : ℕ) (xs : List Message)
    → length xs ≤ n
    → Sorted (sort_passes n xs) × SameMembers (sort_passes n xs) xs
unfolding sort_passes
sort_passes-Sorted zero [] h = (tt, λ m. (λ k. k, λ k. k))
sort_passes-Sorted zero (x ∷ xs) h = ground arith
sort_passes-Sorted (suc n) [] h = (tt, λ m. (λ k. k, λ k. k))
sort_passes-Sorted (suc n) (x ∷ xs) h =
    let ih = sort_passes-Sorted n (exchange x xs).1 (omega (arith, exchange-length x xs)) in
    (
      (λ y k. (exchange-least x xs).1 y ((ih.1 y).0 k), ih.0),
      λ m. ground (
        arith,
        (ih.1 m).0,
        (ih.1 m).1,
        (exchange-SameMembers x xs m).0,
        (exchange-SameMembers x xs m).1,
      ),
    )

-- The messages of a thread after a cursor come in the order of their cursors, and they are those messages of the project
-- that the thread and the cursor select.
pub thread_messages_lem :
    (project thread_id : Text) (cursor : ℕ) (m : InMemory)
    → Sorted (thread_messages project thread_id cursor m)
      × SameMembers
          (thread_messages project thread_id cursor m)
          (filter (in_thread thread_id cursor) (values (find_or [] project (InMemory.messages m))))
unfolding thread_messages sort_by_cursor
thread_messages_lem project thread_id cursor m = sort_passes-Sorted _ _ (omega arith)
