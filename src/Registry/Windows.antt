-- ===== src/Registry/Windows.antt =====
-- The window identities of the SQLite store: internal/storage/sqlite/sqlite.go.
use intermute.Base.{
  ℕ, Bool, true, false, not, ◌&&◌, ◌||◌, Option, none, some, List, [], ◌∷◌, map, filter,
  if◌then◌else◌, Text, text_eq, is_empty, Result, ok, err,
}
use intermute.Stamp.{stamp_lt}
use intermute.Memory.{Agent}
use intermute.Messages.{or_now}
use intermute.Domain.{ordered, newer, or_else}

pub record WindowRow : Type 0 where
  pub id : Text
  pub project : Text
  pub window_uuid : Text
  pub agent_id : Text
  pub display_name : Text
  pub tmux_target : Text
  pub created_at : ℕ
  pub last_active_at : ℕ
  pub expires_at : Option ℕ

pub data WindowError : Type 0 where
  agent_token_mismatch : WindowError
  no_row : WindowError
  constraint_failed : WindowError

abbrev pub same_window : Text → Text → WindowRow → Bool
same_window project window_uuid w = text_eq w.project project && text_eq w.window_uuid window_uuid

-- `expires_at IS NULL OR expires_at > ?`
unfoldable pub is_live : ℕ → WindowRow → Bool
is_live now w = elim w.expires_at [ none ↦ true | some t ↦ stamp_lt now t ]

-- A window that comes back keeps its id and its time of creation, and no longer expires.
unfoldable pub upsert_window : WindowRow → List WindowRow → List WindowRow
upsert_window wi [] = wi ∷ []
upsert_window wi (w ∷ rows) =
    let rest = upsert_window wi rows in
    if same_window wi.project wi.window_uuid w
    then record wi { id = w.id; created_at = w.created_at; expires_at = none } ∷ rows
    else w ∷ rest

-- The id is the primary key: another window with it is an error.
unfoldable pub id_taken : WindowRow → List WindowRow → Bool
id_taken wi [] = false
id_taken wi (w ∷ rows) =
    (text_eq w.id wi.id && not (same_window wi.project wi.window_uuid w)) || id_taken wi rows

unfoldable pub lookup_window_identity : ℕ → Text → Text → List WindowRow → Option WindowRow
unfolding is_live
lookup_window_identity now project window_uuid [] = none
lookup_window_identity now project window_uuid (w ∷ rows) =
    let rest = lookup_window_identity now project window_uuid rows in
    if same_window project window_uuid w && is_live now w then some w else rest

-- The row is read back in the transaction, which is undone where it is not found: it has expired.
unfoldable pub upsert_window_identity :
    Text → ℕ → WindowRow → List WindowRow → Result WindowError (WindowRow × List WindowRow)
unfolding upsert_window id_taken lookup_window_identity
upsert_window_identity new_id now wi rows =
    let new : WindowRow = record wi {
      id = or_else new_id wi.id;
      created_at = or_now now wi.created_at;
      last_active_at = now;
    } in
    let after = upsert_window new rows in
    if id_taken new rows
    then err constraint_failed
    else elim (lookup_window_identity now new.project new.window_uuid after) [
      | none ↦ err no_row
      | some w ↦ ok (w, after)
    ]

unfoldable pub agent_for_token : Text → List Agent → Option Text
agent_for_token token [] = none
agent_for_token token (a ∷ rows) =
    let rest = agent_for_token token rows in if text_eq a.token token then some a.id else rest

unfoldable pub upsert_window_identity_with_token :
    (Text → Text)
    → Text
    → ℕ
    → WindowRow
    → Text
    → List Agent
    → List WindowRow
    → Result WindowError (WindowRow × List WindowRow)
unfolding agent_for_token upsert_window_identity
upsert_window_identity_with_token trim_space new_id now wi token agents rows =
    let done = upsert_window_identity new_id now wi rows in
    if is_empty (trim_space token)
    then err agent_token_mismatch
    else elim (agent_for_token token agents) [
      | none ↦ err agent_token_mismatch
      | some id ↦ if text_eq id wi.agent_id then done else err agent_token_mismatch
    ]

unfoldable pub list_window_identities : ℕ → Text → List WindowRow → List WindowRow
unfolding is_live ordered
list_window_identities now project rows =
    ordered (newer WindowRow.last_active_at)
      (filter (λ (w : WindowRow). text_eq w.project project && is_live now w) rows)

unfoldable pub expire_window_identity : ℕ → Text → Text → List WindowRow → List WindowRow
expire_window_identity now project window_uuid rows =
    map
      (λ (w : WindowRow).
        if same_window project window_uuid w then record w { expires_at = some now } else w)
      rows
