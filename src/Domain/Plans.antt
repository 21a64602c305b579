-- ===== src/Domain/Plans.antt =====
-- Specs and epics.
use intermute.Base.{ℕ, refl, ◌&&◌, Option, List, filter, Text, codes, Result}
use intermute.Messages.{or_now}
use intermute.Domain.{
  DomainError, Columns, ColumnLaws, next_version, any_entity, get_entity, create_entity,
  update_entity, delete_entity, ordered, newer, wanted, or_else,
}

pub record Spec : Type 0 where
  pub id : Text
  pub project : Text
  pub title : Text
  pub vision : Text
  pub users : Text
  pub problem : Text
  pub status : Text
  pub version : ℕ
  pub created_at : ℕ
  pub updated_at : ℕ

-- What the insert is given: an id, the times, the version and the defaults are filled in.
unfoldable pub fresh_spec : Text → ℕ → Spec → Spec
fresh_spec new_id now spec = record spec {
  id = or_else new_id spec.id;
  status = or_else (codes "draft") spec.status;
  version = 1;
  created_at = or_now now spec.created_at;
  updated_at = or_now now spec.updated_at;
}

unfoldable pub touch_spec : ℕ → Spec → Spec
unfolding next_version
touch_spec now spec = record spec { version = next_version spec.version; updated_at = now }

unfoldable pub assign_spec : Spec → Spec → Spec
assign_spec new r = record r {
  title = new.title;
  vision = new.vision;
  users = new.users;
  problem = new.problem;
  status = new.status;
  version = new.version;
  updated_at = new.updated_at;
}

unfoldable pub spec_columns : Columns Spec
unfolding touch_spec assign_spec
spec_columns = record {
  project = λ spec. spec.project;
  id = λ spec. spec.id;
  version = λ spec. spec.version;
  touch = touch_spec;
  assign = assign_spec;
}

pub spec_columns-laws : ColumnLaws spec_columns
unfolding spec_columns touch_spec assign_spec
spec_columns-laws = record {
  assign-project = λ new r. refl;
  assign-id = λ new r. refl;
  assign-version = λ new r. refl;
  touch-project = λ now e. refl;
  touch-id = λ now e. refl;
  touch-version = λ now e. refl;
}

unfoldable pub create_spec : Text → ℕ → Spec → List Spec → Result DomainError (Spec × List Spec)
unfolding spec_columns create_entity any_entity fresh_spec
create_spec new_id now spec rows = create_entity spec_columns (fresh_spec new_id now spec) rows

unfoldable pub get_spec : Text → Text → List Spec → Option Spec
unfolding spec_columns get_entity
get_spec = get_entity spec_columns

unfoldable pub list_specs : Text → Text → List Spec → List Spec
unfolding ordered
list_specs project status rows =
    ordered (newer Spec.updated_at)
      (filter (λ (r : Spec). wanted project r.project && wanted status r.status) rows)

unfoldable pub update_spec : ℕ → Spec → List Spec → Result DomainError (Spec × List Spec)
unfolding spec_columns update_entity any_entity touch_spec assign_spec next_version
update_spec = update_entity spec_columns

unfoldable pub delete_spec : Text → Text → List Spec → List Spec
unfolding spec_columns delete_entity
delete_spec = delete_entity spec_columns

pub record Epic : Type 0 where
  pub id : Text
  pub project : Text
  pub spec_id : Text
  pub title : Text
  pub description : Text
  pub status : Text
  pub version : ℕ
  pub created_at : ℕ
  pub updated_at : ℕ

-- What the insert is given: an id, the times, the version and the defaults are filled in.
unfoldable pub fresh_epic : Text → ℕ → Epic → Epic
fresh_epic new_id now epic = record epic {
  id = or_else new_id epic.id;
  status = or_else (codes "open") epic.status;
  version = 1;
  created_at = or_now now epic.created_at;
  updated_at = or_now now epic.updated_at;
}

unfoldable pub touch_epic : ℕ → Epic → Epic
unfolding next_version
touch_epic now epic = record epic { version = next_version epic.version; updated_at = now }

unfoldable pub assign_epic : Epic → Epic → Epic
assign_epic new r = record r {
  spec_id = new.spec_id;
  title = new.title;
  description = new.description;
  status = new.status;
  version = new.version;
  updated_at = new.updated_at;
}

unfoldable pub epic_columns : Columns Epic
unfolding touch_epic assign_epic
epic_columns = record {
  project = λ epic. epic.project;
  id = λ epic. epic.id;
  version = λ epic. epic.version;
  touch = touch_epic;
  assign = assign_epic;
}

pub epic_columns-laws : ColumnLaws epic_columns
unfolding epic_columns touch_epic assign_epic
epic_columns-laws = record {
  assign-project = λ new r. refl;
  assign-id = λ new r. refl;
  assign-version = λ new r. refl;
  touch-project = λ now e. refl;
  touch-id = λ now e. refl;
  touch-version = λ now e. refl;
}

unfoldable pub create_epic : Text → ℕ → Epic → List Epic → Result DomainError (Epic × List Epic)
unfolding epic_columns create_entity any_entity fresh_epic
create_epic new_id now epic rows = create_entity epic_columns (fresh_epic new_id now epic) rows

unfoldable pub get_epic : Text → Text → List Epic → Option Epic
unfolding epic_columns get_entity
get_epic = get_entity epic_columns

unfoldable pub list_epics : Text → Text → List Epic → List Epic
unfolding ordered
list_epics project spec_id rows =
    ordered (newer Epic.updated_at)
      (filter (λ (r : Epic). wanted project r.project && wanted spec_id r.spec_id) rows)

unfoldable pub update_epic : ℕ → Epic → List Epic → Result DomainError (Epic × List Epic)
unfolding epic_columns update_entity any_entity touch_epic assign_epic next_version
update_epic = update_entity epic_columns

unfoldable pub delete_epic : Text → Text → List Epic → List Epic
unfolding epic_columns delete_entity
delete_epic = delete_entity epic_columns
