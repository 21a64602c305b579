-- ===== src/Domain/Journeys.antt =====
-- Critical user journeys and their links to features. Steps and criteria go through JSON, which is
-- left out: a list is read back as it was.
use intermute.Base.{
  ℕ, refl, Bool, not, ◌&&◌, ◌||◌, Option, List, [], ◌∷◌, filter, ◌==◌, if◌then◌else◌, Text, text_eq,
  codes, Result,
}
use intermute.Stamp.{text_lt, stamp_lt}
use intermute.Messages.{or_now}
use intermute.Domain.{
  DomainError, Columns, ColumnLaws, next_version, any_entity, get_entity, create_entity,
  update_entity, delete_entity, ordered, wanted, or_else,
}

pub record CujStep : Type 0 where
  pub order : ℕ
  pub action : Text
  pub expected : Text
  pub alternatives : List Text

pub record Cuj : Type 0 where
  pub id : Text
  pub spec_id : Text
  pub project : Text
  pub title : Text
  pub persona : Text
  pub priority : Text
  pub entry_point : Text
  pub exit_point : Text
  pub steps : List CujStep
  pub success_criteria : List Text
  pub error_recovery : List Text
  pub status : Text
  pub version : ℕ
  pub created_at : ℕ
  pub updated_at : ℕ

-- What the insert is given: an id, the times, the version and the defaults are filled in.
unfoldable pub fresh_cuj : Text → ℕ → Cuj → Cuj
fresh_cuj new_id now cuj = record cuj {
  id = or_else new_id cuj.id;
  status = or_else (codes "draft") cuj.status;
  priority = or_else (codes "medium") cuj.priority;
  version = if cuj.version == 0 then 1 else cuj.version;
  created_at = or_now now cuj.created_at;
  updated_at = or_now now cuj.updated_at;
}

unfoldable pub touch_cuj : ℕ → Cuj → Cuj
unfolding next_version
touch_cuj now cuj = record cuj { version = next_version cuj.version; updated_at = now }

unfoldable pub assign_cuj : Cuj → Cuj → Cuj
assign_cuj new r = record r {
  spec_id = new.spec_id;
  title = new.title;
  persona = new.persona;
  priority = new.priority;
  entry_point = new.entry_point;
  exit_point = new.exit_point;
  steps = new.steps;
  success_criteria = new.success_criteria;
  error_recovery = new.error_recovery;
  status = new.status;
  version = new.version;
  updated_at = new.updated_at;
}

unfoldable pub cuj_columns : Columns Cuj
unfolding touch_cuj assign_cuj
cuj_columns = record {
  project = λ cuj. cuj.project;
  id = λ cuj. cuj.id;
  version = λ cuj. cuj.version;
  touch = touch_cuj;
  assign = assign_cuj;
}

pub cuj_columns-laws : ColumnLaws cuj_columns
unfolding cuj_columns touch_cuj assign_cuj
cuj_columns-laws = record {
  assign-project = λ new r. refl;
  assign-id = λ new r. refl;
  assign-version = λ new r. refl;
  touch-project = λ now e. refl;
  touch-id = λ now e. refl;
  touch-version = λ now e. refl;
}

unfoldable pub create_cuj : Text → ℕ → Cuj → List Cuj → Result DomainError (Cuj × List Cuj)
unfolding cuj_columns create_entity any_entity fresh_cuj
create_cuj new_id now cuj rows = create_entity cuj_columns (fresh_cuj new_id now cuj) rows

unfoldable pub get_cuj : Text → Text → List Cuj → Option Cuj
unfolding cuj_columns get_entity
get_cuj = get_entity cuj_columns

-- `ORDER BY priority ASC, updated_at DESC`
by_priority : Cuj → Cuj → Bool
unfolding text_lt
by_priority e f =
    text_lt e.priority f.priority
    || (text_eq e.priority f.priority && stamp_lt f.updated_at e.updated_at)

unfoldable pub list_cujs : Text → Text → List Cuj → List Cuj
unfolding ordered by_priority
list_cujs project spec_id rows =
    ordered by_priority
      (filter (λ (r : Cuj). wanted project r.project && wanted spec_id r.spec_id) rows)

unfoldable pub update_cuj : ℕ → Cuj → List Cuj → Result DomainError (Cuj × List Cuj)
unfolding cuj_columns update_entity any_entity touch_cuj assign_cuj next_version
update_cuj = update_entity cuj_columns

unfoldable pub delete_cuj : Text → Text → List Cuj → List Cuj
unfolding cuj_columns delete_entity
delete_cuj = delete_entity cuj_columns

pub record CujFeatureLink : Type 0 where
  pub project : Text
  pub cuj_id : Text
  pub feature_id : Text
  pub linked_at : ℕ

abbrev link_of : Text → Text → CujFeatureLink → Bool
link_of project cuj_id l = text_eq l.project project && text_eq l.cuj_id cuj_id

abbrev same_link : Text → Text → Text → CujFeatureLink → Bool
same_link project cuj_id feature_id l = link_of project cuj_id l && text_eq l.feature_id feature_id

-- `DeleteCUJ`, with the links of the journey.
unfoldable pub delete_cuj_tx :
    Text → Text → List Cuj × List CujFeatureLink → List Cuj × List CujFeatureLink
unfolding delete_cuj
delete_cuj_tx project id (cujs, links) =
    (delete_cuj project id cujs, filter (λ l. not (link_of project id l)) links)

-- `ON CONFLICT ... DO UPDATE SET linked_at`
unfoldable pub link_cuj_to_feature :
    ℕ → Text → Text → Text → List CujFeatureLink → List CujFeatureLink
link_cuj_to_feature now project cuj_id feature_id [] =
    record { project = project; cuj_id = cuj_id; feature_id = feature_id; linked_at = now } ∷ []
link_cuj_to_feature now project cuj_id feature_id (l ∷ links) =
    let rest = link_cuj_to_feature now project cuj_id feature_id links in
    if same_link project cuj_id feature_id l then record l { linked_at = now } ∷ links else l ∷ rest

unfoldable pub unlink_cuj_from_feature :
    Text → Text → Text → List CujFeatureLink → List CujFeatureLink
unlink_cuj_from_feature project cuj_id feature_id links =
    filter (λ l. not (same_link project cuj_id feature_id l)) links

unfoldable pub get_cuj_feature_links : Text → Text → List CujFeatureLink → List CujFeatureLink
get_cuj_feature_links project cuj_id links = filter (link_of project cuj_id) links
