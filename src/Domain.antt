-- ===== src/Domain.antt =====
-- The domain entities of the SQLite store: internal/storage/sqlite/domain.go over the types of
-- core/domain.go. The operations do the same for every entity, so they are written once, for an
-- interface of the columns. A table is the list of its rows; its primary key is (project, id).
pub mod Plans
pub mod Work
pub mod Journeys
pub mod Insights
pub mod Keys
pub mod Reads
pub mod Versions
use intermute.Base.{
  ℕ, zero, suc, ◌+◌, ◌%◌, ◌^◌, ◌≡◌, Bool, true, false, not, ◌&&◌, ◌||◌, Option, none, some, List,
  [], ◌∷◌, ◌++◌, map, filter, ◌==◌, if◌then◌else◌, Text, text_eq, is_empty, Result, ok, err,
}
use intermute.Stamp.{stamp_lt}

pub data DomainError : Type 0 where
  concurrent_modification : DomainError
  already_exists : DomainError

-- A `Version` is an int64, as its residue modulo 2^64.
unfoldable pub next_version : ℕ → ℕ
next_version v = (v + 1) % 2 ^ 64

-- `touch` sets UpdatedAt and Version; `assign` is the SET clause of the update.
pub record Columns (A : Type 0) : Type 0 where
  pub project : A → Text
  pub id : A → Text
  pub version : A → ℕ
  pub touch : ℕ → A → A
  pub assign : A → A → A

-- What the columns of an entity have to keep to.
pub record ColumnLaws {A : Type 0} (c : Columns A) : Type 0 where
  pub assign-project : (new r : A) → c.project (c.assign new r) ≡ c.project r
  pub assign-id : (new r : A) → c.id (c.assign new r) ≡ c.id r
  pub assign-version : (new r : A) → c.version (c.assign new r) ≡ c.version new
  pub touch-project : (now : ℕ) (e : A) → c.project (c.touch now e) ≡ c.project e
  pub touch-id : (now : ℕ) (e : A) → c.id (c.touch now e) ≡ c.id e
  pub touch-version : (now : ℕ) (e : A) → c.version (c.touch now e) ≡ next_version (c.version e)

module _ {A : Type 0} (c : Columns A) where
  abbrev pub same_key : Text → Text → A → Bool
  same_key project id r = text_eq (c.project r) project && text_eq (c.id r) id

  abbrev pub at_version : Text → Text → ℕ → A → Bool
  at_version project id v r = same_key project id r && c.version r == v

  unfoldable pub any_entity : (A → Bool) → List A → Bool
  any_entity p [] = false
  any_entity p (r ∷ rows) = let rest = any_entity p rows in p r || rest

  -- `QueryRow`: the first row; `none` is sql.ErrNoRows.
  unfoldable pub get_entity : Text → Text → List A → Option A
  get_entity project id [] = none
  get_entity project id (r ∷ rows) =
      let rest = get_entity project id rows in if same_key project id r then some r else rest

  -- The insert fails on a key that is there.
  unfoldable pub create_entity : A → List A → Result DomainError (A × List A)
  unfolding any_entity
  create_entity e rows =
      if any_entity (same_key (c.project e) (c.id e)) rows
      then err already_exists
      else ok (e, rows ++ e ∷ [])

  abbrev pub set_row : Text → Text → ℕ → A → A → A
  set_row project id v new r = if at_version project id v r then c.assign new r else r

  -- `UPDATE ... WHERE project = ? AND id = ? AND version = ?`; no row changed is a conflict.
  unfoldable pub update_entity : ℕ → A → List A → Result DomainError (A × List A)
  unfolding any_entity
  update_entity now e rows =
      let new = c.touch now e in
      if any_entity (at_version (c.project new) (c.id new) (c.version e)) rows
      then ok (new, map (set_row (c.project new) (c.id new) (c.version e) new) rows)
      else err concurrent_modification

  -- Updates one after another; one that fails changes nothing.
  abbrev pub rows_after : List A → Result DomainError (A × List A) → List A
  rows_after rows (ok done) = done.1
  rows_after rows (err why) = rows

  unfoldable pub run_updates : List (ℕ × A) → List A → List A
  run_updates [] rows = rows
  run_updates ((now, e) ∷ us) rows = run_updates us (rows_after rows (update_entity now e rows))

  unfoldable pub delete_entity : Text → Text → List A → List A
  delete_entity project id rows = filter (λ r. not (same_key project id r)) rows

-- `ORDER BY`, by insertion; `before` is strict.
insert_ordered : {A : Type 0} → (A → A → Bool) → A → List A → List A
insert_ordered before e [] = e ∷ []
insert_ordered before e (f ∷ rows) =
    let later = f ∷ insert_ordered before e rows in if before f e then later else e ∷ f ∷ rows

unfoldable pub ordered : {A : Type 0} → (A → A → Bool) → List A → List A
unfolding insert_ordered
ordered before [] = []
ordered before (e ∷ rows) = insert_ordered before e (ordered before rows)

-- `ORDER BY ... DESC` on the text of a time.
abbrev pub newer : {A : Type 0} → (A → ℕ) → A → A → Bool
newer time e f = stamp_lt (time f) (time e)

-- A filter of a query that is only there where the argument is.
abbrev pub wanted : Text → Text → Bool
wanted argument column = is_empty argument || text_eq column argument

-- A text that is filled in where it is empty.
abbrev pub or_else : Text → Text → Text
or_else default s = if is_empty s then default else s
