-- ===== src/Registry/Policies.antt =====
-- Policies, focus and contacts of the agents: internal/storage/sqlite/sqlite.go. An agent that is
-- not there reads as the default.
use intermute.Base.{
  ℕ, ◌*◌, ◌-◌, Bool, false, not, ◌&&◌, ◌||◌, Option, none, some, List, [], ◌∷◌, map, filter, ltb,
  if◌then◌else◌, Text, text_eq, Result, ok, err,
}
use intermute.Stamp.{second}
use intermute.Memory.{Agent}
use intermute.Contact.{policy_open, policy_contacts_only}
use intermute.Domain.{or_else}
use intermute.Live.{focus_unknown}
use intermute.Registry.{RegistryError, agent_not_found, agent_by_id, of_agent_id}

-- `UPDATE agents SET ... WHERE id = ?`; no row is an error.
unfoldable pub set_columns : Text → (Agent → Agent) → List Agent → Result RegistryError (List Agent)
unfolding agent_by_id
set_columns id change rows = elim (agent_by_id id rows) [
  | none ↦ err agent_not_found
  | some a ↦ ok (map (λ (b : Agent). if of_agent_id id b then change b else b) rows)
]

unfoldable pub set_contact_policy : Text → Text → List Agent → Result RegistryError (List Agent)
unfolding set_columns
set_contact_policy id policy rows = set_columns id (λ a. record a { contact_policy = policy }) rows

unfoldable pub get_contact_policy : Text → List Agent → Text
unfolding agent_by_id
get_contact_policy id rows = elim (agent_by_id id rows) [
  | none ↦ policy_open
  | some a ↦ or_else policy_open a.contact_policy
]

unfoldable pub set_live_contact_policy :
    Text → Text → List Agent → Result RegistryError (List Agent)
unfolding set_columns
set_live_contact_policy id policy rows =
    set_columns id (λ a. record a { live_contact_policy = policy }) rows

unfoldable pub get_live_contact_policy : Text → List Agent → Text
unfolding agent_by_id
get_live_contact_policy id rows = elim (agent_by_id id rows) [
  | none ↦ policy_contacts_only
  | some a ↦ or_else policy_contacts_only a.live_contact_policy
]

unfoldable pub set_agent_focus_state :
    ℕ → Text → Text → List Agent → Result RegistryError (List Agent)
unfolding set_columns
set_agent_focus_state now id state rows =
    set_columns id
      (λ a. record a { focus_state = or_else focus_unknown state; focus_state_updated = now }) rows

-- `StalenessFocusThreshold`
abbrev pub staleness_focus_threshold : ℕ
staleness_focus_threshold = 2 * second

-- The state, with the time of its update; `none` where there is no agent. The time of a row is
-- always set.
unfoldable pub get_agent_focus_state : ℕ → Text → List Agent → Text × Option ℕ
unfolding agent_by_id
get_agent_focus_state now id rows = elim (agent_by_id id rows) [
  | none ↦ (focus_unknown, none)
  | some a ↦ (
    if ltb staleness_focus_threshold (now - a.focus_state_updated)
        then focus_unknown
        else or_else focus_unknown a.focus_state,
    some a.focus_state_updated,
  )
]

-- The table `agent_contacts`, by its primary key: the agent and its contact.
abbrev pub Contacts : Type 0
Contacts = List (Text × Text)

abbrev same_contact : Text → Text → Text × Text → Bool
same_contact agent_id contact row = text_eq row.0 agent_id && text_eq row.1 contact

unfoldable pub is_contact : Text → Text → Contacts → Bool
is_contact agent_id sender [] = false
is_contact agent_id sender (row ∷ rows) =
    same_contact agent_id sender row || is_contact agent_id sender rows

-- `INSERT OR IGNORE`
unfoldable pub add_contact : Text → Text → Contacts → Contacts
add_contact agent_id contact [] = (agent_id, contact) ∷ []
add_contact agent_id contact (row ∷ rows) =
    let rest = add_contact agent_id contact rows in
    if same_contact agent_id contact row then row ∷ rows else row ∷ rest

unfoldable pub remove_contact : Text → Text → Contacts → Contacts
remove_contact agent_id contact rows = filter (λ row. not (same_contact agent_id contact row)) rows

unfoldable pub list_contacts : Text → Contacts → List Text
list_contacts agent_id rows = map (λ row. row.1) (filter (λ row. text_eq row.0 agent_id) rows)
