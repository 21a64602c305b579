-- ===== src/Reservations/Accepted.antt =====
-- What a successful `Reserve` has checked, and the table it leaves.
use intermute.Base.{
  ℕ, ◌<◌, ◌≡◌, refl, Bool, true, false, List, [], ◌∷◌, Text, Result, ok, err, ◌>>=◌, arith,
}
use intermute.Glob.Parse.{GlobError}
use intermute.Glob.Paths.{patterns_overlap, validate_complexity}
use intermute.Reservations.Table.{Reservation, Db, has_id}
use intermute.Reservations.{
  Request, StoreError, reserve, checked, added, new_row, sweep_project, count_active, rivals,
  collect_conflicts, max_reservations_per_agent, reserve_checks, ConflictDetail,
}

-- Each check of `Reserve` on the swept table, in the order of the code.
pub record Accepts (new_id : Text) (now : ℕ) (r : Request) (db : Db) : Type 0 where
  pub simple : validate_complexity r.path_pattern ≡ ok tt
  pub meaningful : (b : Bool) × (patterns_overlap r.path_pattern r.path_pattern ≡ ok b)
  pub below_limit :
      count_active r.agent_id r.project now (sweep_project r.project now db.reservations)
      < max_reservations_per_agent
  pub no_conflict :
      collect_conflicts db r.path_pattern r.exclusive
        (rivals r.agent_id r.project now (sweep_project r.project now db.reservations))
      ≡ ok []
  pub fresh : has_id (new_row new_id now r).id (sweep_project r.project now db.reservations) ≡ false

reserve_checks_ok :
    (v : Result GlobError (Unit {0})) (o : Result GlobError Bool) (n : ℕ)
    (cs : Result StoreError (List ConflictDetail)) (d : Bool) (u : Unit {0})
    → reserve_checks v o n cs d ≡ ok u
    → (v ≡ ok tt)
      × ((b : Bool) × (o ≡ ok b))
      × (n < max_reservations_per_agent)
      × (cs ≡ ok [])
      × (d ≡ false)
unfolding reserve_checks
reserve_checks_ok (ok tt) (ok b) n (ok []) true u h = absurd (ground arith)
reserve_checks_ok (ok tt) (ok b) n (ok []) false u h = (refl, (b, refl), ground arith, refl, refl)
reserve_checks_ok (ok tt) (ok b) n (ok (c ∷ cs)) d u h = absurd (ground arith)
reserve_checks_ok (ok tt) (ok b) n (err e) d u h = absurd (ground arith)
reserve_checks_ok (ok tt) (err e) n cs d u h = absurd (ground arith)
reserve_checks_ok (err e) o n cs d u h = absurd (ground arith)

checked_ok :
    (new_id : Text) (now : ℕ) (r : Request) (db : Db) (u : Unit {0})
    → checked new_id now r db ≡ ok u
    → Accepts new_id now r db
unfolding checked
checked_ok new_id now r db u h =
    let (simple, meaningful, below_limit, no_conflict, fresh) = reserve_checks_ok _ _ _ _ _ u h in
    record {
      simple = simple;
      meaningful = meaningful;
      below_limit = below_limit;
      no_conflict = no_conflict;
      fresh = fresh;
    }

-- A reservation is granted only when every check passes; then the table has it at its end.
pub reserve_ok :
    (new_id : Text) (now : ℕ) (r : Request) (db db' : Db) (row : Reservation)
    → reserve new_id now r db ≡ ok (db', row)
    → Accepts new_id now r db × (db' ≡ added new_id now r db) × (row ≡ new_row new_id now r)
unfolding reserve
reserve_ok new_id now r db db' row h = go (checked new_id now r db) (checked_ok new_id now r db) h
  where
    go :
        (m : Result StoreError (Unit {0}))
        → ((u : Unit {0}) → m ≡ ok u → Accepts new_id now r db)
        → ◌>>=◌ {B = Db × Reservation} m (λ _. ok (added new_id now r db, new_row new_id now r))
          ≡ ok (db', row)
        → Accepts new_id now r db × (db' ≡ added new_id now r db) × (row ≡ new_row new_id now r)
    go (ok u) k e = (k u refl, ground arith, ground arith)
    go (err x) k e = absurd (ground arith)
