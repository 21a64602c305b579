-- ===== src/Domain/Work.antt =====
-- Stories, tasks and sessions. The acceptance criteria of a story go through JSON, which is left
-- out: a list of texts is read back as it was.
use intermute.Base.{
  ℕ, refl, ◌&&◌, Option, List, map, filter, if◌then◌else◌, Text, text_eq, codes, Result,
}
use intermute.Messages.{or_now}
use intermute.Domain.{
  DomainError, Columns, ColumnLaws, next_version, any_entity, get_entity, create_entity,
  update_entity, delete_entity, ordered, newer, wanted, or_else,
}

pub record Story : Type 0 where
  pub id : Text
  pub project : Text
  pub epic_id : Text
  pub title : Text
  pub acceptance_criteria : List Text
  pub status : Text
  pub version : ℕ
  pub created_at : ℕ
  pub updated_at : ℕ

-- What the insert is given: an id, the times, the version and the defaults are filled in.
unfoldable pub fresh_story : Text → ℕ → Story → Story
fresh_story new_id now story = record story {
  id = or_else new_id story.id;
  status = or_else (codes "todo") story.status;
  version = 1;
  created_at = or_now now story.created_at;
  updated_at = or_now now story.updated_at;
}

unfoldable pub touch_story : ℕ → Story → Story
unfolding next_version
touch_story now story = record story { version = next_version story.version; updated_at = now }

unfoldable pub assign_story : Story → Story → Story
assign_story new r = record r {
  epic_id = new.epic_id;
  title = new.title;
  acceptance_criteria = new.acceptance_criteria;
  status = new.status;
  version = new.version;
  updated_at = new.updated_at;
}

unfoldable pub story_columns : Columns Story
unfolding touch_story assign_story
story_columns = record {
  project = λ story. story.project;
  id = λ story. story.id;
  version = λ story. story.version;
  touch = touch_story;
  assign = assign_story;
}

pub story_columns-laws : ColumnLaws story_columns
unfolding story_columns touch_story assign_story
story_columns-laws = record {
  assign-project = λ new r. refl;
  assign-id = λ new r. refl;
  assign-version = λ new r. refl;
  touch-project = λ now e. refl;
  touch-id = λ now e. refl;
  touch-version = λ now e. refl;
}

unfoldable pub create_story :
    Text → ℕ → Story → List Story → Result DomainError (Story × List Story)
unfolding story_columns create_entity any_entity fresh_story
create_story new_id now story rows = create_entity story_columns (fresh_story new_id now story) rows

unfoldable pub get_story : Text → Text → List Story → Option Story
unfolding story_columns get_entity
get_story = get_entity story_columns

unfoldable pub list_stories : Text → Text → List Story → List Story
unfolding ordered
list_stories project epic_id rows =
    ordered (newer Story.updated_at)
      (filter (λ (r : Story). wanted project r.project && wanted epic_id r.epic_id) rows)

unfoldable pub update_story : ℕ → Story → List Story → Result DomainError (Story × List Story)
unfolding story_columns update_entity any_entity touch_story assign_story next_version
update_story = update_entity story_columns

unfoldable pub delete_story : Text → Text → List Story → List Story
unfolding story_columns delete_entity
delete_story = delete_entity story_columns

pub record Task : Type 0 where
  pub id : Text
  pub project : Text
  pub story_id : Text
  pub title : Text
  pub agent : Text
  pub session_id : Text
  pub status : Text
  pub version : ℕ
  pub created_at : ℕ
  pub updated_at : ℕ

-- What the insert is given: an id, the times, the version and the defaults are filled in.
unfoldable pub fresh_task : Text → ℕ → Task → Task
fresh_task new_id now task = record task {
  id = or_else new_id task.id;
  status = or_else (codes "pending") task.status;
  version = 1;
  created_at = or_now now task.created_at;
  updated_at = or_now now task.updated_at;
}

unfoldable pub touch_task : ℕ → Task → Task
unfolding next_version
touch_task now task = record task { version = next_version task.version; updated_at = now }

unfoldable pub assign_task : Task → Task → Task
assign_task new r = record r {
  story_id = new.story_id;
  title = new.title;
  agent = new.agent;
  session_id = new.session_id;
  status = new.status;
  version = new.version;
  updated_at = new.updated_at;
}

unfoldable pub task_columns : Columns Task
unfolding touch_task assign_task
task_columns = record {
  project = λ task. task.project;
  id = λ task. task.id;
  version = λ task. task.version;
  touch = touch_task;
  assign = assign_task;
}

pub task_columns-laws : ColumnLaws task_columns
unfolding task_columns touch_task assign_task
task_columns-laws = record {
  assign-project = λ new r. refl;
  assign-id = λ new r. refl;
  assign-version = λ new r. refl;
  touch-project = λ now e. refl;
  touch-id = λ now e. refl;
  touch-version = λ now e. refl;
}

unfoldable pub create_task : Text → ℕ → Task → List Task → Result DomainError (Task × List Task)
unfolding task_columns create_entity any_entity fresh_task
create_task new_id now task rows = create_entity task_columns (fresh_task new_id now task) rows

unfoldable pub get_task : Text → Text → List Task → Option Task
unfolding task_columns get_entity
get_task = get_entity task_columns

unfoldable pub list_tasks : Text → Text → Text → List Task → List Task
unfolding ordered
list_tasks project status agent rows = ordered (newer Task.updated_at) (
    filter
      (λ (r : Task). wanted project r.project && (wanted status r.status && wanted agent r.agent))
      rows)

unfoldable pub update_task : ℕ → Task → List Task → Result DomainError (Task × List Task)
unfolding task_columns update_entity any_entity touch_task assign_task next_version
update_task = update_entity task_columns

unfoldable pub delete_task : Text → Text → List Task → List Task
unfolding task_columns delete_entity
delete_task = delete_entity task_columns

-- A session has no version: its update takes whatever row has the key, and none is no error.
pub record Session : Type 0 where
  pub id : Text
  pub project : Text
  pub name : Text
  pub agent : Text
  pub task_id : Text
  pub status : Text
  pub started_at : ℕ
  pub updated_at : ℕ

unfoldable pub fresh_session : Text → ℕ → Session → Session
fresh_session new_id now session = record session {
  id = or_else new_id session.id;
  status = or_else (codes "running") session.status;
  started_at = or_now now session.started_at;
  updated_at = or_now now session.updated_at;
}

-- No column of a session is a version: the generic operations that read none are shared.
unfoldable pub session_columns : Columns Session
session_columns = record {
  project = λ session. session.project;
  id = λ session. session.id;
  version = λ session. 0;
  touch = λ now session. record session { updated_at = now };
  assign = λ new r. record r {
    name = new.name;
    agent = new.agent;
    task_id = new.task_id;
    status = new.status;
    updated_at = new.updated_at;
  };
}

unfoldable pub create_session :
    Text → ℕ → Session → List Session → Result DomainError (Session × List Session)
unfolding session_columns create_entity any_entity fresh_session
create_session new_id now session rows =
    create_entity session_columns (fresh_session new_id now session) rows

unfoldable pub get_session : Text → Text → List Session → Option Session
unfolding session_columns get_entity
get_session = get_entity session_columns

unfoldable pub list_sessions : Text → Text → List Session → List Session
unfolding ordered
list_sessions project status rows =
    ordered (newer Session.started_at)
      (filter (λ (r : Session). wanted project r.project && wanted status r.status) rows)

unfoldable pub update_session : ℕ → Session → List Session → Session × List Session
unfolding session_columns
update_session now session rows =
    let new : Session = record session { updated_at = now } in
    (
      new,
      map
          (λ (r : Session).
            if text_eq r.project new.project && text_eq r.id new.id
            then Columns.assign session_columns new r
            else r)
          rows,
    )

unfoldable pub delete_session : Text → Text → List Session → List Session
unfolding session_columns delete_entity
delete_session = delete_entity session_columns
