-- ===== src/Reservations/Table.antt =====
-- The rows of `file_reservations` and `agents`, and the conditions that the queries put on them.
use intermute.Base.{
  ℕ, Bool, true, false, ◌&&◌, Option, none, some, List, [], ◌∷◌, ◌||◌, if◌then◌else◌, Text, text_eq,
}
use intermute.Stamp.{stamp_lt}

-- A row, and `core.Reservation` as it is read back.
pub record Reservation : Type 0 where
  pub id : Text
  pub agent_id : Text
  pub project : Text
  pub path_pattern : Text
  pub exclusive : Bool
  pub reason : Text
  pub created_at : ℕ
  pub expires_at : ℕ
  pub released_at : Option ℕ

-- The columns of `agents` that these queries read.
pub record AgentRow : Type 0 where
  pub id : Text
  pub name : Text
  pub last_seen : ℕ

pub record Db : Type 0 where
  pub reservations : List Reservation
  pub agents : List AgentRow

-- `released_at IS NULL`
abbrev pub is_unreleased : Reservation → Bool
is_unreleased r = elim r.released_at [ none ↦ true | some t ↦ false ]

-- `released_at IS NULL AND expires_at > now`
abbrev pub is_active : ℕ → Reservation → Bool
is_active now r = is_unreleased r && stamp_lt now r.expires_at

abbrev pub of_project : Text → Reservation → Bool
of_project project r = text_eq r.project project

abbrev pub of_agent : Text → Reservation → Bool
of_agent agent r = text_eq r.agent_id agent

-- `COALESCE(a.name, r.agent_id)` over the left join; `id` is the primary key of `agents`.
name_of : Text → List AgentRow → Text
name_of agent [] = agent
name_of agent (a ∷ rows) = if text_eq a.id agent then a.name else name_of agent rows

unfoldable pub agent_name : Db → Text → Text
unfolding name_of
agent_name db agent = name_of agent db.agents

unfoldable pub has_id : Text → List Reservation → Bool
has_id id [] = false
has_id id (r ∷ rows) = text_eq r.id id || has_id id rows

-- `ORDER BY created_at DESC`, by insertion.
insert_newest : Reservation → List Reservation → List Reservation
insert_newest r [] = r ∷ []
insert_newest r (s ∷ rows) =
    let later = s ∷ insert_newest r rows in
    if stamp_lt r.created_at s.created_at then later else r ∷ s ∷ rows

unfoldable pub newest_first : List Reservation → List Reservation
unfolding insert_newest
newest_first [] = []
newest_first (r ∷ rows) = insert_newest r (newest_first rows)
