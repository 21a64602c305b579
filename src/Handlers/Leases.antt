-- ===== src/Handlers/Leases.antt =====
-- The handlers of reservations: internal/http/handlers_reservations.go.
use intermute.Base.{
  ℕ, ◌*◌, ◌-◌, ◌%◌, ◌^◌, Bool, not, ◌||◌, List, [], ltb, ◌==◌, if◌then◌else◌, Text, text_eq,
  is_empty, Result, ok, err,
}
use intermute.Auth.{Info}
use intermute.Reservations.Table.{Reservation, Db}
use intermute.Reservations.{
  Duration, ahead, past, minute, default_ttl, StoreError, reserve, get_reservation,
  release_reservation, active_reservations, agent_reservations, ConflictDetail,
}
use intermute.Reservations.Queries.{check_conflicts}
use intermute.Handlers.{HandlerError, bad_request, forbidden, may_use}

pub record ReservationRequest : Type 0 where
  pub agent_id : Text
  pub project : Text
  pub path_pattern : Text
  pub exclusive : Bool
  pub reason : Text
  pub ttl_minutes : ℕ

-- `time.Duration(minutes) * time.Minute` on an int64, which wraps.
unfoldable pub ttl_of : ℕ → Duration
ttl_of minutes =
    let wrapped = (minutes * minute) % 2 ^ 64 in
    if minutes == 0
    then ahead default_ttl
    else if ltb wrapped (2 ^ 63)
    then ahead wrapped
    else past (2 ^ 64 - wrapped)

-- The handler's own refusal, or the error of the store.
pub data LeaseError : Type 0 where
  refused : HandlerError → LeaseError
  store : StoreError → LeaseError

abbrev or_store {ℓ} : {A : Type ℓ} → Result StoreError A → Result LeaseError A
or_store (ok a) = ok a
or_store (err e) = err (store e)

unfoldable pub create_reservation :
    Info → Text → ℕ → ReservationRequest → Db → Result LeaseError (Db × Reservation)
unfolding ttl_of reserve
create_reservation info new_id now req db =
    let project = if is_empty req.project then info.project else req.project in
    let done : Result StoreError (Db × Reservation) =
      reserve new_id now
        (record {
          id = [];
          agent_id = req.agent_id;
          project = project;
          path_pattern = req.path_pattern;
          exclusive = req.exclusive;
          reason = req.reason;
          ttl = ttl_of req.ttl_minutes;
        })
        db in
    if is_empty req.agent_id || is_empty req.path_pattern
    then err (refused bad_request)
    else if not (may_use info project)
    then err (refused forbidden)
    else or_store done

-- All of an agent's, or the active ones of a project.
unfoldable pub list_reservations :
    Info → Text → Text → ℕ → Db → Result LeaseError (List Reservation)
unfolding agent_reservations active_reservations
list_reservations info query_project query_agent now db =
    let project = if is_empty query_project then info.project else query_project in
    if not (is_empty query_agent)
    then ok (agent_reservations query_agent db)
    else if not (is_empty project)
    then ok (active_reservations project now db)
    else err (refused bad_request)

unfoldable pub handle_check_conflicts :
    Text → Text → Bool → ℕ → Db → Result LeaseError (List ConflictDetail)
unfolding check_conflicts
handle_check_conflicts project pattern exclusive now db =
    if is_empty project || is_empty pattern
    then err (refused bad_request)
    else or_store (check_conflicts project pattern exclusive now db)

-- Only the agent that holds a reservation releases it.
unfoldable pub handle_release_reservation : Info → Text → ℕ → Db → Result LeaseError Db
unfolding get_reservation release_reservation
handle_release_reservation info id now db =
    if is_empty id then err (refused bad_request) else elim (get_reservation id db.reservations) [
      | err e ↦ err (store e)
      | ok r ↦
          if text_eq r.agent_id info.agent_id
          then or_store (release_reservation id info.agent_id now db)
          else err (refused forbidden)
    ]
