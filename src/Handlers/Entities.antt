-- ===== src/Handlers/Entities.antt =====
-- The handlers of specs, epics, stories and tasks: internal/http/handlers_domain.go, on decoded
-- requests, with the events that they put on the bus. The id of a path stands in the entity that is
-- updated. Driver errors are left out.
use intermute.Base.{
  ℕ, Option, none, some, List, [], ◌∷◌, if◌then◌else◌, Text, text_eq, codes, is_empty, Result, ok,
  err,
}
use intermute.Auth.{Info}
use intermute.Domain.{DomainError, concurrent_modification, already_exists, Columns}
use intermute.Domain.Plans.{
  Spec, create_spec, get_spec, list_specs, update_spec, delete_spec, Epic, create_epic, get_epic,
  list_epics, update_epic, delete_epic, spec_columns, epic_columns,
}
use intermute.Domain.Work.{
  Story, create_story, get_story, list_stories, update_story, delete_story, Task, create_task,
  get_task, list_tasks, update_task, delete_task, story_columns, task_columns,
}
use intermute.Handlers.{may_use}

pub record DomainEvent : Type 0 where
  pub type : Text
  pub project : Text
  pub entity_id : Text

pub data EntityFailure : Type 0 where
  forbidden_project : EntityFailure
  conflict : EntityFailure
  no_entity : EntityFailure
  internal_error : EntityFailure

-- What a call that writes leaves behind.
pub record Written (A : Type 0) : Type 0 where
  pub response : Result EntityFailure A
  pub events : List DomainEvent
  pub rows : List A

abbrev unwritten : {A : Type 0} → EntityFailure → List A → Written A
unwritten e rows = record { response = err e; events = []; rows = rows }

-- The project of the key, or of the query.
abbrev pub own_project : Info → Text → Text
own_project info query = if is_empty info.project then query else info.project

module _ {A : Type 0} (c : Columns A) where
  event_of : Text → Text → A → DomainEvent
  event_of type project e = record { type = type; project = project; entity_id = c.id e }

  -- After the store: the entity is written, and announced where there is an event for it.
  unfoldable pub announced :
      (A → List DomainEvent) → List A → Result DomainError (A × List A) → Written A
  announced events rows (ok done) = record {
    response = ok done.0;
    events = events done.0;
    rows = done.1;
  }
  announced events rows (err concurrent_modification) = unwritten conflict rows
  announced events rows (err already_exists) = unwritten internal_error rows

  -- With an API key the entity is one of the key's project.
  unfoldable pub scoped :
      Info → A → (A → List DomainEvent) → List A → Result DomainError (A × List A) → Written A
  unfolding announced
  scoped info e events rows done =
      if may_use info (c.project e)
      then announced events rows done
      else unwritten forbidden_project rows

abbrev found_or : {A : Type 0} → Option A → Result EntityFailure A
found_or none = err no_entity
found_or (some e) = ok e

unfoldable pub handle_create_spec : Info → Text → ℕ → Spec → List Spec → Written Spec
unfolding create_spec event_of scoped
handle_create_spec info new_id now spec rows =
    scoped spec_columns info spec
      (λ new. event_of spec_columns (codes "spec.created") spec.project new ∷ []) rows
      (create_spec new_id now spec rows)

unfoldable pub handle_get_spec : Info → Text → Text → List Spec → Result EntityFailure Spec
unfolding get_spec
handle_get_spec info query id rows = found_or (get_spec (own_project info query) id rows)

unfoldable pub handle_list_specs : Info → Text → Text → List Spec → List Spec
unfolding list_specs
handle_list_specs info query status rows = list_specs (own_project info query) status rows

unfoldable pub handle_update_spec : Info → ℕ → Spec → List Spec → Written Spec
unfolding update_spec event_of scoped
handle_update_spec info now spec rows =
    scoped spec_columns info spec
      (λ new. event_of spec_columns (codes "spec.updated") spec.project new ∷ []) rows
      (update_spec now spec rows)

unfoldable pub handle_delete_spec : Info → Text → Text → List Spec → List DomainEvent × List Spec
unfolding delete_spec
handle_delete_spec info query id rows =
    let project = own_project info query in
    (
      record { type = codes "spec.archived"; project = project; entity_id = id } ∷ [],
      delete_spec project id rows,
    )

unfoldable pub handle_create_epic : Info → Text → ℕ → Epic → List Epic → Written Epic
unfolding create_epic event_of scoped
handle_create_epic info new_id now epic rows =
    scoped epic_columns info epic
      (λ new. event_of epic_columns (codes "epic.created") epic.project new ∷ []) rows
      (create_epic new_id now epic rows)

unfoldable pub handle_get_epic : Info → Text → Text → List Epic → Result EntityFailure Epic
unfolding get_epic
handle_get_epic info query id rows = found_or (get_epic (own_project info query) id rows)

unfoldable pub handle_list_epics : Info → Text → Text → List Epic → List Epic
unfolding list_epics
handle_list_epics info query spec_id rows = list_epics (own_project info query) spec_id rows

unfoldable pub handle_update_epic : Info → ℕ → Epic → List Epic → Written Epic
unfolding update_epic event_of scoped
handle_update_epic info now epic rows =
    scoped epic_columns info epic
      (λ new. event_of epic_columns (codes "epic.updated") epic.project new ∷ []) rows
      (update_epic now epic rows)

unfoldable pub handle_delete_epic : Info → Text → Text → List Epic → List Epic
unfolding delete_epic
handle_delete_epic info query id rows = delete_epic (own_project info query) id rows

unfoldable pub handle_create_story : Info → Text → ℕ → Story → List Story → Written Story
unfolding create_story event_of scoped
handle_create_story info new_id now story rows =
    scoped story_columns info story
      (λ new. event_of story_columns (codes "story.created") story.project new ∷ []) rows
      (create_story new_id now story rows)

unfoldable pub handle_get_story : Info → Text → Text → List Story → Result EntityFailure Story
unfolding get_story
handle_get_story info query id rows = found_or (get_story (own_project info query) id rows)

unfoldable pub handle_list_stories : Info → Text → Text → List Story → List Story
unfolding list_stories
handle_list_stories info query epic_id rows = list_stories (own_project info query) epic_id rows

unfoldable pub handle_update_story : Info → ℕ → Story → List Story → Written Story
unfolding update_story event_of scoped
handle_update_story info now story rows =
    scoped story_columns info story
      (λ new. event_of story_columns (codes "story.updated") story.project new ∷ []) rows
      (update_story now story rows)

unfoldable pub handle_delete_story : Info → Text → Text → List Story → List Story
unfolding delete_story
handle_delete_story info query id rows = delete_story (own_project info query) id rows

unfoldable pub handle_create_task : Info → Text → ℕ → Task → List Task → Written Task
unfolding create_task event_of scoped
handle_create_task info new_id now task rows =
    scoped task_columns info task
      (λ new. event_of task_columns (codes "task.created") task.project new ∷ []) rows
      (create_task new_id now task rows)

unfoldable pub handle_get_task : Info → Text → Text → List Task → Result EntityFailure Task
unfolding get_task
handle_get_task info query id rows = found_or (get_task (own_project info query) id rows)

unfoldable pub handle_list_tasks : Info → Text → Text → Text → List Task → List Task
unfolding list_tasks
handle_list_tasks info query status agent rows =
    list_tasks (own_project info query) status agent rows

unfoldable pub handle_update_task : Info → ℕ → Task → List Task → Written Task
unfolding update_task event_of scoped
handle_update_task info now task rows =
    scoped task_columns info task
      (λ (new : Task).
        if text_eq new.status (codes "done")
        then event_of task_columns (codes "task.completed") task.project new ∷ []
        else [])
      rows (update_task now task rows)

unfoldable pub handle_delete_task : Info → Text → Text → List Task → List Task
unfolding delete_task
handle_delete_task info query id rows = delete_task (own_project info query) id rows

-- The task is read, given to the agent and written at the version that was read.
unfoldable pub handle_assign_task : Info → ℕ → Text → Text → Text → List Task → Written Task
unfolding get_task update_task event_of announced
handle_assign_task info now query id agent rows =
    let project = own_project info query in
    elim (get_task project id rows) [
      | none ↦ unwritten no_entity rows
      | some task ↦
          announced task_columns
            (λ new. event_of task_columns (codes "task.assigned") project new ∷ []) rows
            (update_task now (record task { agent = agent; status = codes "running" }) rows)
    ]
