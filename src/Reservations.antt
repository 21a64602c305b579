-- ===== src/Reservations.antt =====
-- File reservations: internal/storage/sqlite/sqlite.go (`Reserve`, `GetReservation`,
-- `ReleaseReservation`, `ActiveReservations`, `AgentReservations`, `CheckConflicts`, `SweepExpired`,
-- `HasReservationOverlap`) over the table `file_reservations` of schema.sql. A call is one transaction
-- on the table; the clock's reading and a generated id are arguments. The mirror in the second
-- database is best-effort and changes nothing here. Driver errors are left out.
pub mod Table
pub mod Accepted
pub mod Exclusion
pub mod Granted
pub mod Queries
pub mod Limit
pub mod History
use intermute.Base.{
  ℕ, suc, ◌+◌, ◌-◌, ◌*◌, Bool, true, false, not, ◌&&◌, ◌||◌, Option, none, some, List, [], ◌∷◌,
  ◌++◌, map, length, filter, ltb, leb, ◌==◌, if◌then◌else◌, Text, text_eq, is_empty, Result, ok,
  err, ◌>>=◌,
}
use intermute.Stamp.{second, stamp_lt, stamp_le}
use intermute.Glob.Parse.{GlobError}
use intermute.Glob.Paths.{patterns_overlap, validate_complexity}
use Table.{
  Reservation, AgentRow, Db, is_unreleased, is_active, of_project, of_agent, agent_name, has_id,
  newest_first,
}

-- A duration in nanoseconds; `past n` is -(n + 1).
pub data Duration : Type 0 where
  ahead : ℕ → Duration
  past : ℕ → Duration

abbrev pub minute : ℕ
minute = 60 * second

abbrev pub default_ttl : ℕ
default_ttl = 30 * minute

abbrev pub max_reservation_ttl : ℕ
max_reservation_ttl = 24 * 60 * minute

abbrev pub max_reservations_per_agent : ℕ
max_reservations_per_agent = 10

-- The argument of `Reserve`.
pub record Request : Type 0 where
  pub id : Text
  pub agent_id : Text
  pub project : Text
  pub path_pattern : Text
  pub exclusive : Bool
  pub reason : Text
  pub ttl : Duration

pub record ConflictDetail : Type 0 where
  pub reservation_id : Text
  pub agent_id : Text
  pub agent_name : Text
  pub pattern : Text
  pub reason : Text
  pub expires_at : ℕ

pub data StoreError : Type 0 where
  invalid_pattern : GlobError → StoreError
  too_many_reservations : ℕ → StoreError
  overlap_check : GlobError → StoreError
  conflict : List ConflictDetail → StoreError
  duplicate_id : StoreError
  not_found : StoreError

-- The default for 0, and the cap.
capped_ttl : Duration → Duration
capped_ttl (past n) = past n
capped_ttl (ahead n) =
    if n == 0
    then ahead default_ttl
    else if ltb max_reservation_ttl n
    then ahead max_reservation_ttl
    else ahead n

-- `now.Add(ttl)`
add_duration : ℕ → Duration → ℕ
add_duration now (ahead n) = now + n
add_duration now (past n) = now - suc n

unfoldable pub expiry : ℕ → Duration → ℕ
unfolding add_duration capped_ttl
expiry now ttl = add_duration now (capped_ttl ttl)

abbrev pub or_invalid {ℓ} : {A : Type ℓ} → Result GlobError A → Result StoreError A
or_invalid (ok a) = ok a
or_invalid (err e) = err (invalid_pattern e)

abbrev pub or_overlap_check {ℓ} : {A : Type ℓ} → Result GlobError A → Result StoreError A
or_overlap_check (ok a) = ok a
or_overlap_check (err e) = err (overlap_check e)

-- The sweep at the start of the transaction: `UPDATE ... SET released_at`.
pub sweep_row : Text → ℕ → Reservation → Reservation
sweep_row project now r =
    if of_project project r && (is_unreleased r && stamp_le r.expires_at now)
    then record r { released_at = some now }
    else r

pub sweep_project : Text → ℕ → List Reservation → List Reservation
unfolding sweep_row
sweep_project project now rows = map (sweep_row project now) rows

pub count_active : Text → Text → ℕ → List Reservation → ℕ
count_active agent project now rows =
    length (filter (λ r. of_agent agent r && (of_project project r && is_active now r)) rows)

-- The active rows of the other agents.
pub rivals : Text → Text → ℕ → List Reservation → List Reservation
rivals agent project now rows =
    filter (λ r. of_project project r && (is_active now r && not (of_agent agent r))) rows

pub detail : Db → Reservation → ConflictDetail
detail db r = record {
  reservation_id = r.id;
  agent_id = r.agent_id;
  agent_name = agent_name db r.agent_id;
  pattern = r.path_pattern;
  reason = r.reason;
  expires_at = r.expires_at;
}

-- The loop over the active rows; an overlap check that fails ends it.
pub collect_conflicts :
    Db → Text → Bool → List Reservation → Result StoreError (List ConflictDetail)
unfolding detail
collect_conflicts db pattern exclusive [] = ok []
collect_conflicts db pattern exclusive (r ∷ rows) =
    let rest = collect_conflicts db pattern exclusive rows in
    if not exclusive && not r.exclusive
    then rest
    else or_overlap_check (patterns_overlap pattern r.path_pattern) >>= λ overlap.
        if overlap then rest >>= (λ conflicts. ok (detail db r ∷ conflicts)) else rest

abbrev refuse_conflicts : List ConflictDetail → Result StoreError (Unit {0})
refuse_conflicts [] = ok tt
refuse_conflicts (c ∷ cs) = err (conflict (c ∷ cs))

abbrev refuse_limit : ℕ → Result StoreError (Unit {0})
refuse_limit active =
    if leb max_reservations_per_agent active then err (too_many_reservations active) else ok tt

-- The primary key of the table.
abbrev refuse_duplicate : Bool → Result StoreError (Unit {0})
refuse_duplicate true = err duplicate_id
refuse_duplicate false = ok tt

pub new_row : Text → ℕ → Request → Reservation
unfolding expiry
new_row new_id now r = record {
  id = if is_empty r.id then new_id else r.id;
  agent_id = r.agent_id;
  project = r.project;
  path_pattern = r.path_pattern;
  exclusive = r.exclusive;
  reason = r.reason;
  created_at = now;
  expires_at = expiry now r.ttl;
  released_at = none;
}

-- The checks in the order of the code, on what each of them reads.
pub reserve_checks :
    Result GlobError (Unit {0})
    → Result GlobError Bool
    → ℕ
    → Result StoreError (List ConflictDetail)
    → Bool
    → Result StoreError (Unit {0})
reserve_checks complexity itself active found duplicate = do
  _ ← or_invalid complexity
  _ ← or_invalid itself
  _ ← refuse_limit active
  conflicts ← found
  _ ← refuse_conflicts conflicts
  refuse_duplicate duplicate

-- All of them, on the table as the sweep leaves it.
pub checked : Text → ℕ → Request → Db → Result StoreError (Unit {0})
checked new_id now r db =
    let swept = sweep_project r.project now db.reservations in
    reserve_checks (validate_complexity r.path_pattern)
      (patterns_overlap r.path_pattern r.path_pattern) (count_active r.agent_id r.project now swept)
      (collect_conflicts db r.path_pattern r.exclusive (rivals r.agent_id r.project now swept))
      (has_id (new_row new_id now r).id swept)

-- The table with the new row at its end.
pub added : Text → ℕ → Request → Db → Db
added new_id now r db = record db {
  reservations = sweep_project r.project now db.reservations ++ new_row new_id now r ∷ [];
}

-- `Reserve`: on an error the transaction is rolled back, and the table is as before.
unfoldable pub reserve : Text → ℕ → Request → Db → Result StoreError (Db × Reservation)
unfolding checked reserve_checks added new_row sweep_project count_active rivals collect_conflicts
    validate_complexity patterns_overlap stamp_lt text_eq has_id
reserve new_id now r db = do
  _ ← checked new_id now r db
  ok (added new_id now r db, new_row new_id now r)

-- `GetReservation`
unfoldable pub get_reservation : Text → List Reservation → Result StoreError Reservation
get_reservation id [] = err not_found
get_reservation id (r ∷ rows) = if text_eq r.id id then ok r else get_reservation id rows

abbrev pub releases : Text → Text → Reservation → Bool
releases id agent r = text_eq r.id id && (of_agent agent r && is_unreleased r)

pub release_row : Text → Text → ℕ → Reservation → Reservation
release_row id agent now r = if releases id agent r then record r { released_at = some now } else r

-- `ReleaseReservation`: one UPDATE, and an error if it changed no row.
unfoldable pub release_reservation : Text → Text → ℕ → Db → Result StoreError Db
unfolding release_row
release_reservation id agent now db =
    if length (filter (releases id agent) db.reservations) == 0
    then err not_found
    else ok (record db { reservations = map (release_row id agent now) db.reservations })

-- `ActiveReservations`, the newest first.
unfoldable pub active_reservations : Text → ℕ → Db → List Reservation
unfolding newest_first
active_reservations project now db =
    newest_first (filter (λ r. of_project project r && is_active now r) db.reservations)

-- `AgentReservations`: all rows of the agent, released and expired ones too.
unfoldable pub agent_reservations : Text → Db → List Reservation
unfolding newest_first
agent_reservations agent db = newest_first (filter (of_agent agent) db.reservations)
