-- ===== src/Registry.antt =====
-- The agents of the SQLite store: `RegisterAgent`, `Heartbeat`, `ListAgents` and
-- `UpdateAgentMetadata` of internal/storage/sqlite/sqlite.go over the table `agents`. Ids and tokens
-- that the code makes are arguments, as is the test of a UUID. JSON and driver errors are left out;
-- the text of the token is not among the columns that are read back.
pub mod Policies
pub mod Windows
use intermute.Base.{
  ℕ, ◌*◌, ◌-◌, Bool, true, false, not, ◌&&◌, ◌||◌, Option, none, some, List, [], ◌∷◌, ◌++◌, map,
  filter, ltb, ◌==◌, if◌then◌else◌, Text, text_eq, codes, is_empty, Map, put, Result, ok, err,
}
use intermute.Stamp.{second, stamp_lt}
use intermute.Memory.{Agent}
use intermute.Contact.{policy_contacts_only}
use intermute.Reservations.Table.{Reservation}
use intermute.Messages.{or_now}
use intermute.Domain.{ordered, newer, wanted, or_else}
use intermute.Live.{focus_unknown}

pub data RegistryError : Type 0 where
  invalid_session_id : RegistryError
  active_session_conflict : RegistryError
  constraint_failed : RegistryError
  agent_not_found : RegistryError

-- `core.SessionStaleThreshold`
abbrev pub session_stale_threshold : ℕ
session_stale_threshold = 5 * 60 * second

-- The defaults of a registration.
unfoldable pub with_defaults : Text → ℕ → Agent → Agent
with_defaults new_token now a = record a {
  token = or_else new_token a.token;
  focus_state = or_else focus_unknown a.focus_state;
  live_contact_policy = or_else policy_contacts_only a.live_contact_policy;
  focus_state_updated = or_now now a.focus_state_updated;
  last_seen = or_now now a.last_seen;
  created_at = or_now now a.created_at;
}

unfoldable pub agent_of_session : Text → List Agent → Option Agent
agent_of_session session_id [] = none
agent_of_session session_id (a ∷ rows) =
    let rest = agent_of_session session_id rows in
    if text_eq a.session_id session_id then some a else rest

unfoldable pub agent_by_id : Text → List Agent → Option Agent
agent_by_id id [] = none
agent_by_id id (a ∷ rows) =
    let rest = agent_by_id id rows in if text_eq a.id id then some a else rest

abbrev pub is_released : Option ℕ → Bool
is_released none = false
is_released (some t) = true

-- A reservation of the agent, in any project, that is neither released nor expired.
unfoldable pub holds_active : ℕ → Text → List Reservation → Bool
holds_active now id [] = false
holds_active now id (r ∷ rows) =
    let rest = holds_active now id rows in
    (text_eq r.agent_id id && (not (is_released r.released_at) && stamp_lt now r.expires_at))
    || rest

-- The columns that a reused session writes; the project and the time of creation stay.
unfoldable pub reuse_row : Agent → Agent → Agent
reuse_row new a = record a {
  name = new.name;
  token = new.token;
  capabilities = new.capabilities;
  metadata = new.metadata;
  status = new.status;
  contact_policy = new.contact_policy;
  focus_state = new.focus_state;
  focus_state_updated = new.focus_state_updated;
  live_contact_policy = new.live_contact_policy;
  last_seen = new.last_seen;
}

unfoldable pub reuse_agent : Agent → Text → List Agent → List Agent
unfolding reuse_row
reuse_agent new id rows = map (λ (a : Agent). if text_eq a.id id then reuse_row new a else a) rows

-- The insert of a session that is not there: the id is the primary key, and the session id is not
-- there by the lookup before.
unfoldable pub insert_agent : Agent → List Agent → Result RegistryError (Agent × List Agent)
unfolding agent_by_id
insert_agent new rows = elim (agent_by_id new.id rows) [
  | none ↦ ok (new, rows ++ new ∷ [])
  | some a ↦ err constraint_failed
]

-- `ON CONFLICT(id) DO UPDATE`: all columns but the time of creation.
unfoldable pub upsert_agent : Agent → List Agent → List Agent
upsert_agent new [] = new ∷ []
upsert_agent new (a ∷ rows) =
    let rest = upsert_agent new rows in
    if text_eq a.id new.id then record new { created_at = a.created_at } ∷ rows else a ∷ rest

-- An agent that holds the session: it can be taken over once it is stale and holds nothing.
unfoldable pub take_over :
    ℕ → List Reservation → Agent → Agent → List Agent → Result RegistryError (Agent × List Agent)
unfolding holds_active reuse_agent
take_over now reservations new old rows =
    if ltb (now - old.last_seen) session_stale_threshold
    then err active_session_conflict
    else if holds_active now old.id reservations
    then err active_session_conflict
    else ok (record new { id = old.id }, reuse_agent new old.id rows)

unfoldable pub register_agent :
    (Text → Bool)
    → Text
    → Text
    → Text
    → ℕ
    → List Reservation
    → Agent
    → List Agent
    → Result RegistryError (Agent × List Agent)
unfolding with_defaults agent_of_session take_over insert_agent upsert_agent
register_agent is_uuid new_token new_id new_session now reservations agent rows =
    let new = with_defaults new_token now agent in
    let named : Agent = record new { id = or_else new_id new.id } in
    let fresh : Agent = record named { session_id = new_session } in
    if is_empty agent.session_id
    then ok (fresh, upsert_agent fresh rows)
    else if not (is_uuid agent.session_id)
    then err invalid_session_id
    else elim (agent_of_session agent.session_id rows) [
      | some old ↦ take_over now reservations new old rows
      | none ↦ insert_agent named rows
    ]

-- The row as it is read back.
abbrev pub shown : Agent → Agent
shown a = record a { token = [] }

abbrev pub of_agent_id : Text → Agent → Bool
of_agent_id id a = text_eq a.id id

-- A heartbeat of an agent in another project changes nothing.
abbrev beat_row : ℕ → Text → Text → Agent → Agent
beat_row now project id a =
    if of_agent_id id a && wanted project a.project then record a { last_seen = now } else a

unfoldable pub heartbeat : ℕ → Text → Text → List Agent → Result RegistryError (Agent × List Agent)
unfolding agent_by_id
heartbeat now project id rows =
    elim (agent_by_id id (filter (λ (a : Agent). wanted project a.project) rows)) [
      | none ↦ err agent_not_found
      | some a ↦ ok (shown (record a { last_seen = now }), map (beat_row now project id) rows)
    ]

has_text : Text → List Text → Bool
has_text t [] = false
has_text t (s ∷ rest) = text_eq s t || has_text t rest

-- Any of the capabilities that are asked for; none asked for is no condition.
unfoldable pub matches_any : List Text → List Text → Bool
unfolding has_text
matches_any [] capabilities = false
matches_any (c ∷ cs) capabilities = has_text c capabilities || matches_any cs capabilities

abbrev no_capabilities : List Text → Bool
no_capabilities [] = true
no_capabilities (c ∷ cs) = false

unfoldable pub list_agents : Text → List Text → List Agent → List Agent
unfolding matches_any ordered
list_agents project capabilities rows = map shown (
    ordered (newer Agent.last_seen) (
      filter
        (λ (a : Agent).
          wanted project a.project
          && (no_capabilities capabilities || matches_any capabilities a.capabilities))
        rows))

merge_metadata : Map Text → Map Text → Map Text
unfolding put
merge_metadata existing [] = existing
merge_metadata existing ((k, v) ∷ meta) = merge_metadata (put k v existing) meta

-- The keys that come in overwrite, the others stay; it counts as a heartbeat.
unfoldable pub update_agent_metadata :
    ℕ → Text → Map Text → List Agent → Result RegistryError (Agent × List Agent)
unfolding agent_by_id merge_metadata
update_agent_metadata now id meta rows = elim (agent_by_id id rows) [
  | none ↦ err agent_not_found
  | some a ↦
      let merged = merge_metadata a.metadata meta in
      ok (
        shown (record a { metadata = merged; last_seen = now }),
        map
            (λ (b : Agent).
              if of_agent_id id b then record b { metadata = merged; last_seen = now } else b)
            rows,
      )
]
