-- ===== src/Reservations/Granted.antt =====
-- What `Reserve` grants, as `GetReservation` reads it back: the fields of the row and its lifetime.
use intermute.Base.{
  ℕ, ◌+◌, ◌*◌, ◌≤◌, ◌<◌, ◌≡◌, ◌⊎◌, inl, inr, refl, false, none, List, [], ◌∷◌, ◌++◌, ◌∙◌, sym,
  subst, ap, Text, text_eq_refl, ok, arith, ltb, Bool-cases, ◌==◌,
}
use intermute.Stamp.{second}
use intermute.Reservations.Table.{Reservation, Db, has_id}
use intermute.Reservations.{
  Request, Duration, ahead, reserve, added, new_row, sweep_project, get_reservation, expiry,
}
use intermute.Reservations.Accepted.{reserve_ok}

-- Half an hour where no time is asked for, a day where more is asked for, else the time asked for.
abbrev pub Lasts : ℕ → ℕ → ℕ → Type 0
Lasts asked start end =
    ((asked ≡ 0) × (end ≡ start + 1800 * second))
    ⊎ (((0 < asked) × (asked ≤ 86_400 * second) × (end ≡ start + asked))
        ⊎ ((86_400 * second < asked) × (end ≡ start + 86_400 * second)))

-- The row of a request, granted at `now` for `asked` nanoseconds.
pub record Granted (asked now : ℕ) (r : Request) (row : Reservation) : Type 0 where
  pub agent : row.agent_id ≡ r.agent_id
  pub project : row.project ≡ r.project
  pub pattern : row.path_pattern ≡ r.path_pattern
  pub exclusive : row.exclusive ≡ r.exclusive
  pub reason : row.reason ≡ r.reason
  pub created : row.created_at ≡ now
  pub lasts : Lasts asked now row.expires_at
  pub held : row.released_at ≡ none

expiry-Lasts : (n now : ℕ) → Lasts n now (expiry now (ahead n))
unfolding expiry
expiry-Lasts n now = elim (Bool-cases (n == 0)) [
  | inl z ↦ inl (ground (arith, z), ground (arith, z))
  | inr p ↦ elim (Bool-cases (ltb (86_400 * second) n)) [
    | inl l ↦ inr (inr (ground (arith, l), ground (arith, p, l)))
    | inr m ↦ inr (inl (ground (arith, p), ground (arith, m), ground (arith, p, m)))
  ]
]

get_reservation-snoc :
    (rows : List Reservation) (x : Reservation)
    → has_id x.id rows ≡ false
    → get_reservation x.id (rows ++ x ∷ []) ≡ ok x
unfolding get_reservation has_id
get_reservation-snoc [] x h = rw (text_eq_refl x.id)
get_reservation-snoc (r ∷ rows) x h = ground (arith, get_reservation-snoc rows x)

new_row-Granted :
    (asked now : ℕ) (new_id : Text) (r : Request)
    → r.ttl ≡ ahead asked
    → Granted asked now r (new_row new_id now r)
unfolding new_row
new_row-Granted asked now new_id r e = record {
  agent = refl;
  project = refl;
  pattern = refl;
  exclusive = refl;
  reason = refl;
  created = refl;
  lasts = subst (λ (d : Duration). Lasts asked now (expiry now d)) (sym e) (expiry-Lasts asked now);
  held = refl;
}

-- When a request for a time that is not negative is granted, `GetReservation` finds the row that `Reserve` returned
-- under its id: it has the agent, project, pattern, exclusivity and reason of the request, is not released, is
-- created at the clock's reading, and expires half an hour later if no time is asked for, a day later if more than
-- that is, and else after the time asked for. The agents stay as they are.
pub reserve-get :
    (asked now : ℕ) (new_id : Text) (r : Request) (db db' : Db) (row : Reservation)
    → r.ttl ≡ ahead asked
    → reserve new_id now r db ≡ ok (db', row)
    → (get_reservation row.id db'.reservations ≡ ok row)
      × Granted asked now r row
      × (db'.agents ≡ db.agents)
reserve-get asked now new_id r db db' row e h =
    let (a, table, same) = reserve_ok new_id now r db db' row h in
    (
      rw (table, same) (found a.fresh),
      subst (Granted asked now r) (sym same) (new_row-Granted asked now new_id r e),
      ap (λ (d : Db). d.agents) table ∙ kept,
    )
  where
    found :
        has_id (new_row new_id now r).id (sweep_project r.project now db.reservations) ≡ false
        → get_reservation (new_row new_id now r).id (added new_id now r db).reservations
          ≡ ok (new_row new_id now r)
    found fresh =
        unfold added in
        get_reservation-snoc (sweep_project r.project now db.reservations) (new_row new_id now r)
          fresh

    kept : (added new_id now r db).agents ≡ db.agents
    kept = unfold added in refl
