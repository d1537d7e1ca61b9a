-- ===== src/Changeset/Repository.antt =====
-- src/changeset/DAL/changesetRepository.ts.
use osm_sync_tracker.Prelude.{
  is_some, not, if◌then◌else◌, Bool, Option, some, [], ◌∷◌, find, patch, update_where, ◌==◌,
  option_eq,
}
use osm_sync_tracker.Common.Enums.{EntityStatus}
use osm_sync_tracker.Common.Errors.{Error}
use osm_sync_tracker.Common.Action.{Action, ok, err, attempt, modify}
use osm_sync_tracker.Tables.{Uuid, EntityRow, ChangesetRow, Db, same_changeset, insert_rows}
use osm_sync_tracker.Changeset.Models.{Changeset, UpdateChangeset, changeset_row}
use mathlib.Core.Bool.{true}

unfoldable pub create_changeset : Changeset → Action Db Unit
create_changeset c = attempt λ db.
    elim (insert_rows same_changeset (λ _. true) (changeset_row c ∷ []) db.changesets) [
      | ok rows ↦ ok (tt, record db { changesets = rows })
      | err e ↦ err e
    ]

-- An update that gives no column is an error.
unfoldable pub update_changeset : Uuid → UpdateChangeset → Action Db Unit
update_changeset changeset_id update = attempt λ db.
    if not (is_some update.osm_id)
    then err Error.other_error
    else ok (
      tt,
      record db {
        changesets =
            update_where (λ c. c.changeset_id == changeset_id)
              (λ c. record c { osm_id = patch update.osm_id c.osm_id }) db.changesets;
      },
    )

abbrev pub is_in_changeset : Uuid → EntityRow → Bool
is_in_changeset changeset_id e = option_eq ◌==◌ e.changeset_id (some changeset_id)

unfoldable pub update_entities_of_changeset_as_completed : Uuid → Action Db Unit
update_entities_of_changeset_as_completed changeset_id = modify λ db. record db {
  entities =
      update_where (is_in_changeset changeset_id)
        (λ e. record e { status = EntityStatus.completed }) db.entities;
}

unfoldable pub find_one_changeset : Uuid → Db → Option ChangesetRow
find_one_changeset changeset_id db = find (λ c. c.changeset_id == changeset_id) db.changesets
