-- ===== src/Tests/Domain.antt =====
-- Runs of the domain entities, on specs.
use intermute.Base.{
  ◌≡◌, refl, ◌&&◌, some, List, [], ◌∷◌, if◌then◌else◌, text_eq, codes, ok, err, arith,
}
use intermute.Domain.{
  concurrent_modification, next_version, any_entity, get_entity, create_entity, update_entity,
  run_updates,
}
use intermute.Domain.Keys.{Reachable, empty_table, created}
use intermute.Domain.Versions.{stale_update-rejected}
use intermute.Domain.Reads.{update_entity-get}
use intermute.Domain.Plans.{
  Spec, touch_spec, assign_spec, spec_columns, spec_columns-laws, create_spec,
}

abbrev plan : Spec
plan = record {
  id = codes "s1";
  project = codes "p";
  title = codes "title";
  vision = [];
  users = [];
  problem = [];
  status = codes "draft";
  version = 1;
  created_at = 5;
  updated_at = 5;
}

-- The first writer's change, and the second's, both of version 1.
abbrev retitled : Spec
retitled = record plan { title = codes "first" }

abbrev overtaken : Spec
overtaken = record plan { title = codes "second" }

abbrev after_first : Spec × List Spec
after_first = (
  record retitled { version = 2; updated_at = 9 },
  record retitled { version = 2; updated_at = 9 } ∷ [],
)

made : create_entity spec_columns plan [] ≡ ok (plan, plan ∷ [])
unfolding create_entity any_entity
made = refl

first_update : update_entity spec_columns 9 retitled (plan ∷ []) ≡ ok after_first
unfolding update_entity any_entity spec_columns touch_spec assign_spec next_version text_eq
first_update = refl

-- The default of a status is filled in, and the version starts at 1.
create_spec_defaults :
    create_spec
      (codes "s1")
      5
      (record plan { id = []; status = []; version = 7; created_at = 0; updated_at = 0 })
      []
    ≡ ok (plan, plan ∷ [])
unfolding create_spec
create_spec_defaults = refl

reached : Reachable spec_columns (plan ∷ [])
reached = created plan (plan, plan ∷ []) empty_table made

stale_update-rejected_example :
    update_entity spec_columns 12 overtaken (
      run_updates spec_columns
        ((10, record retitled { version = 2; title = codes "third" }) ∷ [])
        after_first.1)
    ≡ err concurrent_modification
unfolding spec_columns
stale_update-rejected_example =
    stale_update-rejected spec_columns spec_columns-laws 9 retitled (plan ∷ []) after_first
      ((10, record retitled { version = 2; title = codes "third" }) ∷ []) 12 overtaken (tt, tt)
      first_update (refl, refl, refl) (omega arith)

update_entity-get_example :
    (old : Spec) × (get_entity spec_columns (codes "p") (codes "s1") (plan ∷ []) ≡ some old)
    × (old.version ≡ 1)
    × (get_entity spec_columns (codes "p") (codes "s1") after_first.1 ≡ (
        if text_eq (codes "p") (codes "p") && text_eq (codes "s1") (codes "s1")
        then some (assign_spec (touch_spec 9 retitled) old)
        else get_entity spec_columns (codes "p") (codes "s1") (plan ∷ [])))
unfolding spec_columns
update_entity-get_example =
    update_entity-get spec_columns spec_columns-laws 9 retitled (plan ∷ []) after_first reached
      first_update (codes "p") (codes "s1")
