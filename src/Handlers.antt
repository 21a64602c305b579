-- ===== src/Handlers.antt =====
-- The other handlers: the rest of internal/http/handlers_messages.go, and handlers_threads.go,
-- handlers_inbox_pokes.go, handlers_reservations.go, handlers_agents.go, handlers_window_identity.go
-- and, in part, handlers_domain.go, on requests that are decoded and paths that are taken apart; a
-- number that does not parse, or a limit that is not above 0, is 0. `Info` is what the middleware has
-- let through. Driver errors are left out.
pub mod Reading
pub mod Writing
pub mod Leases
pub mod Agents
pub mod Panes
pub mod Entities
use intermute.Base.{
  ℕ, Bool, true, false, not, ◌&&◌, List, [], ◌∷◌, if◌then◌else◌, Text, text_eq, is_empty, Result,
  ok, err,
}
use intermute.Auth.{Mode, Info, mode_localhost, mode_api_key}

pub data HandlerError : Type 0 where
  bad_request : HandlerError
  forbidden : HandlerError
  not_found : HandlerError
  rate_limited : HandlerError
  policy_denied : List Text → HandlerError

-- The project of a request: that of the key, or else the query's.
abbrev pub project_or_query : (Text → Text) → Info → Text → Text
project_or_query trim_space info query =
    if is_empty info.project then trim_space query else info.project

-- A caller with an API key keeps to its project.
abbrev pub may_use : Info → Text → Bool
may_use info project = elim info.mode [
  | mode_localhost ↦ true
  | mode_api_key ↦ text_eq project info.project
]
