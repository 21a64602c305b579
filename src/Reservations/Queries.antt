-- ===== src/Reservations/Queries.antt =====
-- The operations beside `Reserve` and `ReleaseReservation`: `CheckConflicts`, `SweepExpired`,
-- `HasReservationOverlap` and `activeReservationPatterns` of internal/storage/sqlite/sqlite.go.
use intermute.Base.{
  ℕ, Bool, false, not, ◌&&◌, ◌||◌, List, [], ◌∷◌, map, filter, if◌then◌else◌, Text, text_eq, Result,
  ok, err, ◌>>=◌,
}
use intermute.Stamp.{stamp_lt}
use intermute.Glob.Paths.{patterns_overlap, validate_complexity}
use intermute.Reservations.Table.{
  Reservation, AgentRow, Db, is_unreleased, is_active, of_project, of_agent,
}
use intermute.Reservations.{ConflictDetail, StoreError, detail, or_invalid}

-- Whether the loop of `CheckConflicts` reports a row; a pattern that does not parse is skipped.
unfoldable pub reports : Text → Bool → Reservation → Bool
reports pattern exclusive r =
    if not exclusive && not r.exclusive
    then false
    else elim (patterns_overlap pattern r.path_pattern) [ ok b ↦ b | err e ↦ false ]

-- `CheckConflicts`
unfoldable pub check_conflicts :
    Text → Text → Bool → ℕ → Db → Result StoreError (List ConflictDetail)
check_conflicts project pattern exclusive now db = do
  _ ← or_invalid (validate_complexity pattern)
  let active = filter (λ r. of_project project r && is_active now r) db.reservations
  ok (map (detail db) (filter (reports pattern exclusive) active))

-- `agent_id IN (SELECT id FROM agents WHERE last_seen > heartbeat_after)`
alive : ℕ → Text → List AgentRow → Bool
alive heartbeat_after agent [] = false
alive heartbeat_after agent (a ∷ rows) =
    (text_eq a.id agent && stamp_lt heartbeat_after a.last_seen) || alive heartbeat_after agent rows

-- The rows that `SweepExpired` deletes.
unfoldable pub swept : ℕ → ℕ → Db → Reservation → Bool
unfolding alive
swept expired_before heartbeat_after db r =
    is_unreleased r
    && (stamp_lt r.expires_at expired_before && not (alive heartbeat_after r.agent_id db.agents))

-- `SweepExpired`: the rows that are left, and the rows that it returns.
unfoldable pub sweep_expired : ℕ → ℕ → Db → Db × List Reservation
sweep_expired expired_before heartbeat_after db = (
  record db {
    reservations = filter (λ r. not (swept expired_before heartbeat_after db r)) db.reservations;
  },
  filter (swept expired_before heartbeat_after db) db.reservations,
)

-- `activeReservationPatterns`
unfoldable pub active_reservation_patterns : Text → Text → ℕ → Db → List Text
active_reservation_patterns project agent now db =
    map (λ r. r.path_pattern)
      (filter (λ r. of_project project r && (of_agent agent r && is_active now r)) db.reservations)

-- A pair whose check fails counts as not overlapping.
unfoldable pub overlaps : Text → Text → Bool
overlaps a b = elim (patterns_overlap a b) [ ok answer ↦ answer | err e ↦ false ]

pub overlaps_any : Text → List Text → Bool
overlaps_any a [] = false
overlaps_any a (b ∷ bs) = overlaps a b || overlaps_any a bs

pub pairwise_overlap : List Text → List Text → Bool
pairwise_overlap [] bs = false
pairwise_overlap (a ∷ as') bs = overlaps_any a bs || pairwise_overlap as' bs

-- `HasReservationOverlap`; its early return on no pattern is that of the empty loop.
unfoldable pub has_reservation_overlap : Text → Text → Text → ℕ → Db → Bool
has_reservation_overlap project agent_a agent_b now db =
    pairwise_overlap (active_reservation_patterns project agent_a now db)
      (active_reservation_patterns project agent_b now db)
