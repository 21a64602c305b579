-- ===== src/Handlers/Agents.antt =====
-- The handlers of agents: internal/http/handlers_agents.go, on the table of Registry. A call gives
-- its response and the table it leaves. Names that are made up, and the JSON of a list of files, are
-- arguments; the texts of times are left out.
use intermute.Base.{
  ℕ, Bool, true, false, not, ◌&&◌, ◌||◌, Option, none, some, List, [], ◌∷◌, map, filter,
  if◌then◌else◌, Text, text_eq, codes, is_empty, split_on, Map, find_or, Result, ok, err,
}
use intermute.Auth.{Info, mode_localhost, mode_api_key}
use intermute.Memory.{Agent}
use intermute.Contact.{valid_contact_policy}
use intermute.Reservations.Table.{Reservation}
use intermute.Live.{focus_at_prompt, focus_unknown}
use intermute.Registry
use intermute.Registry.{
  RegistryError, active_session_conflict, register_agent, update_agent_metadata,
}
use intermute.Registry.Policies.{
  set_contact_policy, get_contact_policy, set_live_contact_policy, get_live_contact_policy,
  set_agent_focus_state,
}
use intermute.Handlers.{HandlerError, bad_request, forbidden}

pub data AgentFailure : Type 0 where
  refused : HandlerError → AgentFailure
  registry : RegistryError → AgentFailure
  internal : AgentFailure
  unknown_agent : AgentFailure

pub record RegisterAgentRequest : Type 0 where
  pub name : Text
  pub session_id : Text
  pub project : Text
  pub capabilities : List Text
  pub metadata : Map Text
  pub status : Text

-- The project of a listing: with an API key, that of the key or none given.
unfoldable pub listed_project : Info → Text → Result HandlerError Text
listed_project info project = elim info.mode [
  | mode_localhost ↦ ok project
  | mode_api_key ↦
      if is_empty project
      then ok info.project
      else if text_eq project info.project
      then ok project
      else err forbidden
]

-- The names between the commas, trimmed, without the empty ones.
unfoldable pub capabilities_of : (Text → Text) → Text → List Text
unfolding split_on
capabilities_of trim_space param =
    filter (λ c. not (is_empty c)) (map trim_space (split_on b',' param))

unfoldable pub handle_list_agents :
    (Text → Text) → Info → Text → Text → List Agent → Result HandlerError (List Agent)
unfolding listed_project capabilities_of Registry.list_agents
handle_list_agents trim_space info query capability agents = elim (listed_project info query) [
  | err e ↦ err e
  | ok project ↦ ok (Registry.list_agents project (capabilities_of trim_space capability) agents)
]

pub record AgentPresence : Type 0 where
  pub agent_id : Text
  pub kind : Text
  pub status : Text
  pub last_seen : ℕ
  pub repo : Text
  pub files : List Text
  pub objective : Text
  pub confidence : Text
  pub active_bead_id : Text
  pub thread_id : Text

module _ (trim_space : Text → Text) (parse_list : Text → Option (List Text)) where
  abbrev presence_value : Map Text → Text → Text
  presence_value meta key = trim_space (find_or [] key meta)

  unfoldable pub presence_status : Agent → Text
  unfolding find_or
  presence_status a =
      let status = presence_value a.metadata (codes "status") in
      if is_empty status then trim_space a.status else status

  unfoldable pub presence_confidence : Agent → Text
  unfolding find_or
  presence_confidence a =
      let confidence = presence_value a.metadata (codes "active_bead_confidence") in
      if is_empty confidence then codes "unknown" else confidence

  unfoldable pub parse_presence_files : Text → List Text
  parse_presence_files raw = if is_empty (trim_space raw) then [] else elim (parse_list raw) [
    | none ↦ []
    | some files ↦ filter (λ f. not (is_empty f)) (map trim_space files)
  ]

  presence_of : Agent → AgentPresence
  unfolding find_or presence_status presence_confidence parse_presence_files
  presence_of a = record {
    agent_id = a.id;
    kind = presence_value a.metadata (codes "agent_kind");
    status = presence_status a;
    last_seen = a.last_seen;
    repo = presence_value a.metadata (codes "repo");
    files = parse_presence_files (find_or [] (codes "files_touched") a.metadata);
    objective = presence_value a.metadata (codes "objective");
    confidence = presence_confidence a;
    active_bead_id = presence_value a.metadata (codes "active_bead_id");
    thread_id = presence_value a.metadata (codes "thread_id");
  }

  abbrev present : Text → Text → Agent → Bool
  present repo active_bead_id a =
      (is_empty repo || text_eq (presence_value a.metadata (codes "repo")) repo)
      && (is_empty active_bead_id
          || text_eq (presence_value a.metadata (codes "active_bead_id")) active_bead_id)

  unfoldable pub handle_list_agent_presence :
      Info → Text → Text → Text → List Agent → Result HandlerError (List AgentPresence)
  unfolding listed_project presence_of Registry.list_agents find_or
  handle_list_agent_presence info query repo active_bead_id agents =
      elim (listed_project info (trim_space query)) [
        | err e ↦ err e
        | ok project ↦ ok (
            map presence_of (
              filter (present (trim_space repo) (trim_space active_bead_id))
                (Registry.list_agents project [] agents)))
      ]

abbrev registered_agent : (Text → Text) → Text → ℕ → RegisterAgentRequest → Agent
registered_agent trim_space new_name now req = record {
  id = [];
  session_id = trim_space req.session_id;
  name = if is_empty (trim_space req.name) then new_name else req.name;
  project = trim_space req.project;
  token = [];
  capabilities = req.capabilities;
  metadata = req.metadata;
  status = req.status;
  contact_policy = [];
  focus_state = [];
  live_contact_policy = [];
  focus_state_updated = 0;
  last_seen = now;
  created_at = now;
}

-- A session that is in use, or no UUID, has its own response; the other errors are internal.
abbrev or_registry {ℓ} : {A : Type ℓ} → Result RegistryError A → Result AgentFailure A
or_registry (ok a) = ok a
or_registry (err e) = err (registry e)

unfoldable pub handle_register_agent :
    (Text → Text)
    → (Text → Bool)
    → Text
    → Text
    → Text
    → Text
    → Info
    → ℕ
    → List Reservation
    → RegisterAgentRequest
    → List Agent
    → Result AgentFailure (Agent × List Agent)
unfolding register_agent
handle_register_agent trim_space is_uuid new_name new_token new_id new_session info now reservations
      req agents =
    let done =
      register_agent is_uuid new_token new_id new_session now reservations
        (registered_agent trim_space new_name now req) agents in
    elim info.mode [
      | mode_localhost ↦ or_registry done
      | mode_api_key ↦
          if is_empty (trim_space req.project)
          then err (refused bad_request)
          else if text_eq req.project info.project
          then or_registry done
          else err (refused forbidden)
    ]

-- `core.ValidFocusState`
unfoldable pub valid_focus_state : Text → Bool
valid_focus_state s =
    is_empty s
    || (text_eq s focus_at_prompt
        || (text_eq s (codes "tool-use")
            || (text_eq s (codes "thinking") || text_eq s focus_unknown)))

-- The heartbeat after the focus state is set, for the project of an API key.
unfoldable pub beat_after_focus :
    Info → ℕ → Text → List Agent → Result AgentFailure Text × List Agent
unfolding Registry.heartbeat
beat_after_focus info now id agents =
    let project = elim info.mode as (λ m. Text) [
      | mode_localhost ↦ []
      | mode_api_key ↦ info.project
    ] in
    elim (Registry.heartbeat now project id agents) [
      | ok done ↦ (ok id, done.1)
      | err e ↦ (err unknown_agent, agents)
    ]

-- The focus state is set before the project is looked at.
unfoldable pub handle_agent_heartbeat :
    Info → ℕ → Text → Text → List Agent → Result AgentFailure Text × List Agent
unfolding valid_focus_state set_agent_focus_state beat_after_focus
handle_agent_heartbeat info now id state agents =
    if not (valid_focus_state state)
    then (err (refused bad_request), agents)
    else if is_empty state
    then beat_after_focus info now id agents
    else elim (set_agent_focus_state now id state agents) [
      | ok after ↦ beat_after_focus info now id after
      | err e ↦ (err internal, agents)
    ]

abbrev no_metadata : Map Text → Bool
no_metadata [] = true
no_metadata (entry ∷ meta) = false

unfoldable pub handle_agent_metadata :
    ℕ → Text → Map Text → List Agent → Result AgentFailure (Agent × List Agent)
unfolding update_agent_metadata
handle_agent_metadata now id meta agents =
    if no_metadata meta
    then err (refused bad_request)
    else elim (update_agent_metadata now id meta agents) [
      | ok done ↦ ok done
      | err e ↦ err unknown_agent
    ]

-- Both policies, as they are after the call.
abbrev policies : Text → List Agent → (Text × Text) × List Agent
policies id agents = ((get_contact_policy id agents, get_live_contact_policy id agents), agents)

-- A policy that is not given is left alone.
abbrev set_given :
    (Text → Text → List Agent → Result RegistryError (List Agent))
    → Text
    → Text
    → List Agent
    → Result RegistryError (List Agent)
set_given set id policy agents = if is_empty policy then ok agents else set id policy agents

unfoldable pub handle_agent_policy :
    Text → Text → Text → List Agent → Result AgentFailure ((Text × Text) × List Agent)
unfolding set_contact_policy get_contact_policy set_live_contact_policy get_live_contact_policy
    valid_contact_policy
handle_agent_policy id policy live_policy agents =
    if (is_empty policy && is_empty live_policy)
      || ((not (is_empty policy) && not (valid_contact_policy policy))
          || (not (is_empty live_policy) && not (valid_contact_policy live_policy)))
    then err (refused bad_request)
    else elim (set_given set_contact_policy id policy agents) [
      | err e ↦ err internal
      | ok after ↦ elim (set_given set_live_contact_policy id live_policy after) [
        | err e ↦ err internal
        | ok last ↦ ok (policies id last)
      ]
    ]
