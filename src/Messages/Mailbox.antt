-- ===== src/Messages/Mailbox.antt =====
-- The mailbox that a store promises, without tables or maps: the deliveries of a run of events to
-- one agent of one project, each as its cursor and its message's id. A reader pages through them.
use intermute.Base.{
  ℕ, zero, suc, ◌+◌, ◌≡◌, refl, ap, Bool, true, false, List, [], ◌∷◌, ◌++◌, map, filter, take, ltb,
  if◌then◌else◌, Bool-cases, inl, inr, Text, text_eq,
}
use intermute.Memory.{Message, Event, event_message_created, recipients}

abbrev pub Key : Type 0
Key = ℕ × Text

-- One for each time that the agent is named.
abbrev pub key_copies : Text → List Text → Key → List Key
key_copies agent [] k = []
key_copies agent (r ∷ rs) k =
    let rest = key_copies agent rs k in if text_eq r agent then k ∷ rest else rest

module _ (project_of : Event → Text) where
  unfoldable pub delivered : Text → Text → ℕ → Event → List Key
  delivered project agent cursor ev =
      if text_eq ev.type event_message_created
      then (if text_eq (project_of ev) project
          then key_copies agent (recipients ev) (cursor, Message.id ev.message)
          else [])
      else []

  pub delivered_created :
      (project agent : Text) (cursor : ℕ) (ev : Event)
      → text_eq ev.type event_message_created ≡ true
      → delivered project agent cursor ev ≡ (
          if text_eq (project_of ev) project
          then key_copies agent (recipients ev) (cursor, Message.id ev.message)
          else [])
  unfolding delivered
  delivered_created project agent cursor ev h = rw h

  pub delivered_none :
      (project agent : Text) (cursor : ℕ) (ev : Event)
      → text_eq ev.type event_message_created ≡ false
      → delivered project agent cursor ev ≡ []
  unfolding delivered
  delivered_none project agent cursor ev h = rw h

  -- From the events that come after cursor `c`.
  abbrev pub deliveries : Text → Text → ℕ → List Event → List Key
  deliveries project agent c [] = []
  deliveries project agent c (ev ∷ evs) =
      delivered project agent (c + 1) ev ++ deliveries project agent (c + 1) evs

abbrev pub above : ℕ → Key → Bool
above cursor k = ltb cursor k.0

-- A page of at most `limit`.
abbrev pub page : ℕ → ℕ → List Key → List Key
page cursor limit keys = take limit (filter (above cursor) keys)

abbrev pub key_of : Message → Key
key_of m = (m.cursor, m.id)

module _ {A B : Type 0} (f : A → B) where
  pub map-append : (xs ys : List A) → map f (xs ++ ys) ≡ map f xs ++ map f ys
  map-append [] ys = refl
  map-append (x ∷ xs) ys = ap (λ rest. f x ∷ rest) (map-append xs ys)

  pub map-take : (n : ℕ) (xs : List A) → map f (take n xs) ≡ take n (map f xs)
  map-take zero xs = refl
  map-take (suc n) [] = refl
  map-take (suc n) (x ∷ xs) = ap (λ rest. f x ∷ rest) (map-take n xs)

  pub map-filter :
      (p : A → Bool) (q : B → Bool)
      → ((x : A) → p x ≡ q (f x))
      → (xs : List A) → map f (filter p xs) ≡ filter q (map f xs)
  map-filter p q h [] = refl
  map-filter p q h (x ∷ xs) = elim (Bool-cases (q (f x))) [
    | inl e ↦ rw (h x, e) (ap (λ rest. f x ∷ rest) (map-filter p q h xs))
    | inr e ↦ rw (h x, e) (map-filter p q h xs)
  ]

pub filter-append :
    {A : Type 0} (p : A → Bool) (xs ys : List A) → filter p (xs ++ ys) ≡ filter p xs ++ filter p ys
filter-append p [] ys = refl
filter-append p (x ∷ xs) ys = elim (Bool-cases (p x)) [
  | inl e ↦ rw e (ap (λ rest. x ∷ rest) (filter-append p xs ys))
  | inr e ↦ rw e (filter-append p xs ys)
]
