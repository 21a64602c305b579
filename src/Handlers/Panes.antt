-- ===== src/Handlers/Panes.antt =====
-- The handlers of window identities: internal/http/handlers_window_identity.go, on decoded requests.
-- The test of a tmux target is a regular expression of Go's library, and an argument.
use intermute.Base.{
  ℕ, Bool, not, ◌&&◌, ◌||◌, none, List, [], if◌then◌else◌, Text, is_empty, Result, ok, err,
}
use intermute.Memory.{Agent}
use intermute.Registry.Windows.{
  WindowRow, WindowError, list_window_identities, expire_window_identity,
}
use intermute.Registry.Windows
use intermute.Handlers.{HandlerError, bad_request}

pub record UpsertWindowRequest : Type 0 where
  pub project : Text
  pub window_uuid : Text
  pub agent_id : Text
  pub display_name : Text
  pub tmux_target : Text
  pub registration_token : Text

abbrev requested_window : UpsertWindowRequest → WindowRow
requested_window req = record {
  id = [];
  project = req.project;
  window_uuid = req.window_uuid;
  agent_id = req.agent_id;
  display_name = if is_empty req.display_name then req.agent_id else req.display_name;
  tmux_target = req.tmux_target;
  created_at = 0;
  last_active_at = 0;
  expires_at = none;
}

pub data WindowFailure : Type 0 where
  refused : HandlerError → WindowFailure
  window : WindowError → WindowFailure

unfoldable pub handle_upsert_window :
    (Text → Text)
    → (Text → Bool)
    → Text
    → ℕ
    → UpsertWindowRequest
    → List Agent
    → List WindowRow
    → Result WindowFailure (WindowRow × List WindowRow)
unfolding Windows.upsert_window_identity_with_token
handle_upsert_window trim_space is_target new_id now req agents rows =
    if is_empty req.project || (is_empty req.window_uuid || is_empty req.agent_id)
    then err (refused bad_request)
    else if not (is_empty req.tmux_target) && not (is_target req.tmux_target)
    then err (refused bad_request)
    else elim (Windows.upsert_window_identity_with_token trim_space new_id now
        (requested_window req) req.registration_token agents rows) [
          | ok done ↦ ok done
          | err e ↦ err (window e)
        ]

unfoldable pub handle_list_windows :
    ℕ → Text → List WindowRow → Result HandlerError (List WindowRow)
unfolding list_window_identities
handle_list_windows now project rows =
    if is_empty project then err bad_request else ok (list_window_identities now project rows)

-- `handleWindowByID`
unfoldable pub handle_expire_window :
    ℕ → Text → Text → List WindowRow → Result HandlerError (List WindowRow)
unfolding expire_window_identity
handle_expire_window now project window_uuid rows =
    if is_empty window_uuid || is_empty project
    then err bad_request
    else ok (expire_window_identity now project window_uuid rows)
