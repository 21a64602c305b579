-- ===== src/Reservations/History.antt =====
-- Histories of the reservation table: any sequence of calls of any agents at any readings of the
-- clock. The calls are serialised by the database, which has one connection.
use intermute.Base.{ℕ, ◌≡◌, sym, subst, List, [], map, Text, ok, arith}
use intermute.Reservations.Table.{Reservation, AgentRow, Db}
use intermute.Reservations.{Request, reserve, release_reservation, release_row}
use intermute.Reservations.Queries.{sweep_expired}
use intermute.Reservations.Exclusion.{
  AllApart, AllApart-filter, reserve-AllApart, release_reservation-AllApart,
  release_row-OnlyReleases,
}
use intermute.Reservations.Limit.{
  WithinLimit, WithinLimit-map, WithinLimit-filter, reserve-WithinLimit, held,
}

-- A call that succeeds; a call that fails leaves the table as it was.
pub data Step (db : Db) (db' : Db) : Type 0 where
  reserved :
      (new_id : Text) (now : ℕ) (r : Request) (row : Reservation)
      → reserve new_id now r db ≡ ok (db', row)
      → Step db db'
  released :
      (id agent : Text) (now : ℕ) → release_reservation id agent now db ≡ ok db' → Step db db'
  swept_out :
      (expired_before heartbeat_after : ℕ)
      → db' ≡ (sweep_expired expired_before heartbeat_after db).0
      → Step db db'
  -- Registrations and heartbeats change the other table.
  agents_changed : (agents : List AgentRow) → db' ≡ record db { agents = agents } → Step db db'

pub data Reach (start : Db) : Db → Type 0 where
  here : Reach start start
  next : {db db' : Db} → Reach start db → Step db db' → Reach start db'

release-WithinLimit :
    (id agent : Text) (now : ℕ) (db db' : Db)
    → WithinLimit db.reservations
    → release_reservation id agent now db ≡ ok db'
    → WithinLimit db'.reservations
unfolding release_reservation
release-WithinLimit id agent now db db' w h =
    subst (λ (rows : List Reservation). WithinLimit rows) (rows_after h)
      (WithinLimit-map _ db.reservations (release_row-OnlyReleases id agent now) w)
  where
    rows_after :
        release_reservation id agent now db ≡ ok db'
        → map (release_row id agent now) db.reservations ≡ db'.reservations
    rows_after e = ground arith

Step-AllApart : {db db' : Db} → Step db db' → AllApart db.reservations → AllApart db'.reservations
unfolding sweep_expired
Step-AllApart {db} {db'} (reserved new_id now r row h) a =
    reserve-AllApart new_id now r db db' row a h
Step-AllApart {db} {db'} (released id agent now h) a =
    release_reservation-AllApart id agent now db db' a h
Step-AllApart {db} {db'} (swept_out before after e) a =
    subst {A = Db} (λ d. AllApart d.reservations) (sym e) (AllApart-filter _ db.reservations a)
Step-AllApart {db} {db'} (agents_changed agents e) a =
    subst {A = Db} (λ d. AllApart d.reservations) (sym e) a

Step-WithinLimit :
    {db db' : Db} → Step db db' → WithinLimit db.reservations → WithinLimit db'.reservations
unfolding sweep_expired
Step-WithinLimit {db} {db'} (reserved new_id now r row h) w =
    reserve-WithinLimit new_id now r db db' row w h
Step-WithinLimit {db} {db'} (released id agent now h) w =
    release-WithinLimit id agent now db db' w h
Step-WithinLimit {db} {db'} (swept_out before after e) w =
    subst {A = Db} (λ d. WithinLimit d.reservations) (sym e)
      (WithinLimit-filter _ db.reservations w)
Step-WithinLimit {db} {db'} (agents_changed agents e) w =
    subst {A = Db} (λ d. WithinLimit d.reservations) (sym e) w

-- After any history that starts on an empty table, two agents of one project never hold reservations
-- that match a common path if one of the two is exclusive, whatever the clock did.
pub Reach-AllApart :
    {start db : Db} → start.reservations ≡ [] → Reach start db → AllApart db.reservations
Reach-AllApart e here = subst (λ (rows : List Reservation). AllApart rows) (sym e) tt
Reach-AllApart e (next r s) = Step-AllApart s (Reach-AllApart e r)

-- After any history that starts on an empty table no agent holds more than ten reservations in one
-- project that are not released.
pub Reach-WithinLimit :
    {start db : Db} → start.reservations ≡ [] → Reach start db → WithinLimit db.reservations
unfolding held
Reach-WithinLimit e here =
    subst (λ (rows : List Reservation). WithinLimit rows) (sym e) (λ agent project. omega arith)
Reach-WithinLimit e (next r s) = Step-WithinLimit s (Reach-WithinLimit e r)
