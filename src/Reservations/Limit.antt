-- ===== src/Reservations/Limit.antt =====
-- The limit on the reservations that one agent holds in a project.
use intermute.Base.{
  ℕ, ◌+◌, ◌≤◌, ◌≡◌, ◌⊎◌, inl, inr, refl, sym, subst, Bool, true, false, ◌&&◌, List, [], ◌∷◌, ◌++◌,
  map, filter, length, if◌then◌else◌, Text, text_eq_iff, ok, arith, All, Bool-cases,
}
use mathlib.Core.Path.{subst₂}
use mathlib.Core.Bool.{false≢true}
use intermute.Reservations.Table.{Reservation, Db, is_unreleased, of_project, of_agent}
use intermute.Reservations.{
  Request, reserve, added, new_row, sweep_project, count_active, max_reservations_per_agent,
}
use intermute.Reservations.Accepted.{Accepts, reserve_ok}
use intermute.Reservations.Exclusion.{
  OnlyReleases, Settled, sweep_project-Settled, sweep_row-OnlyReleases,
}

abbrev pub is_held : Text → Text → Reservation → Bool
is_held agent project r = of_agent agent r && (of_project project r && is_unreleased r)

unfoldable pub held : Text → Text → List Reservation → ℕ
held agent project rows = length (filter (is_held agent project) rows)

-- No agent holds more than the limit in any project.
abbrev pub WithinLimit : List Reservation → Type 0
WithinLimit rows = (agent project : Text) → held agent project rows ≤ max_reservations_per_agent

is_held-map :
    (f : Reservation → Reservation) (agent project : Text) (r : Reservation)
    → OnlyReleases f
    → is_held agent project (f r) ≡ true
    → is_held agent project r ≡ true
is_held-map f agent project r only h =
    subst (λ x. is_held agent project x ≡ true) (only r (ground arith)) h

held-map-le :
    (f : Reservation → Reservation) (agent project : Text) (rows : List Reservation)
    → OnlyReleases f
    → held agent project (map f rows) ≤ held agent project rows
unfolding held
held-map-le f agent project [] only = omega arith
held-map-le f agent project (r ∷ rows) only =
    count_cons (is_held agent project (f r)) (is_held agent project r) _ _
      (is_held-map f agent project r only) (held-map-le f agent project rows only)
  where
    count_cons :
        (b c : Bool) (l m : List Reservation)
        → (b ≡ true → c ≡ true)
        → length l ≤ length m
        → length (if b then f r ∷ l else l) ≤ length (if c then r ∷ m else m)
    count_cons true true l m k h = omega arith
    count_cons true false l m k h = absurd (false≢true (k refl))
    count_cons false true l m k h = omega arith
    count_cons false false l m k h = h

held-filter-le :
    (p : Reservation → Bool) (agent project : Text) (rows : List Reservation)
    → held agent project (filter p rows) ≤ held agent project rows
unfolding held
held-filter-le p agent project [] = omega arith
held-filter-le p agent project (r ∷ rows) = ground (arith, held-filter-le p agent project rows)

held-snoc :
    (agent project : Text) (rows : List Reservation) (x : Reservation)
    → held agent project (rows ++ x ∷ [])
      ≡ held agent project rows + (if is_held agent project x then 1 else 0)
unfolding held
held-snoc agent project [] x = ground arith
held-snoc agent project (r ∷ rows) x = ground (arith, held-snoc agent project rows x)

held-le-count_active :
    (agent project : Text) (now : ℕ) (rows : List Reservation)
    → All (Settled project now) rows
    → held agent project rows ≤ count_active agent project now rows
unfolding held count_active
held-le-count_active agent project now [] k = omega arith
held-le-count_active agent project now (r ∷ rows) k =
    ground (arith, held-le-count_active agent project now rows k.1, k.0)

added-WithinLimit :
    (new_id : Text) (now : ℕ) (r : Request) (db : Db)
    → WithinLimit db.reservations
    → Accepts new_id now r db
    → WithinLimit (added new_id now r db).reservations
unfolding added
added-WithinLimit new_id now r db w a agent project =
    go (Bool-cases (is_held agent project (new_row new_id now r)))
  where
    rows : List Reservation
    rows = sweep_project r.project now db.reservations

    swept : held agent project rows ≤ held agent project db.reservations
    swept =
        unfold sweep_project in
        held-map-le _ agent project db.reservations (sweep_row-OnlyReleases r.project now)

    own : held r.agent_id r.project (rows ++ new_row new_id now r ∷ []) ≤ max_reservations_per_agent
    own = ground (
      arith,
      held-snoc r.agent_id r.project rows (new_row new_id now r),
      held-le-count_active r.agent_id r.project now rows
          (sweep_project-Settled r.project now db.reservations),
      a.below_limit,
    )

    same :
        is_held agent project (new_row new_id now r) ≡ true
        → (r.agent_id ≡ agent) × (r.project ≡ project)
    same h =
        unfold new_row in
        ground (arith, h, text_eq_iff r.agent_id agent, text_eq_iff r.project project)

    go :
        (is_held agent project (new_row new_id now r) ≡ true)
          ⊎ (is_held agent project (new_row new_id now r) ≡ false)
        → held agent project (rows ++ new_row new_id now r ∷ []) ≤ max_reservations_per_agent
    go (inl h) =
        subst₂ (λ g p. held g p (rows ++ new_row new_id now r ∷ []) ≤ max_reservations_per_agent)
          (same h).0 (same h).1 own
    go (inr h) =
        rw (held-snoc agent project rows (new_row new_id now r), h)
          (omega (arith, swept, w agent project))

-- `Reserve` keeps every agent within the limit of every project.
pub reserve-WithinLimit :
    (new_id : Text) (now : ℕ) (r : Request) (db db' : Db) (row : Reservation)
    → WithinLimit db.reservations
    → reserve new_id now r db ≡ ok (db', row)
    → WithinLimit db'.reservations
reserve-WithinLimit new_id now r db db' row w h =
    let (a, e, _) = reserve_ok new_id now r db db' row h in
    subst {A = Db} (λ d. WithinLimit d.reservations) (sym e) (added-WithinLimit new_id now r db w a)

-- Releasing and deleting rows keeps it too.
pub WithinLimit-map :
    (f : Reservation → Reservation) (rows : List Reservation)
    → OnlyReleases f
    → WithinLimit rows
    → WithinLimit (map f rows)
WithinLimit-map f rows only w agent project =
    omega (arith, held-map-le f agent project rows only, w agent project)

pub WithinLimit-filter :
    (p : Reservation → Bool) (rows : List Reservation)
    → WithinLimit rows
    → WithinLimit (filter p rows)
WithinLimit-filter p rows w agent project =
    omega (arith, held-filter-le p agent project rows, w agent project)
