-- ===== src/Store/Spec.antt =====
-- A store of rows by key, and the calls of the repositories in src/*/DAL on it. The store forgets the
-- order of the rows and how a table holds them.
use osm_sync_tracker.Changeset.Models.{changeset_row, Changeset, UpdateChangeset}
use osm_sync_tracker.Sync.Models as Sync
use osm_sync_tracker.Entity.Models as Entity
use osm_sync_tracker.Sync.Models.{SyncUpdate}
use osm_sync_tracker.Entity.Models.{UpdateEntity, entity_row, FiledEntity}
use osm_sync_tracker.File.Models.{file_row, File, FileUpdate}
use osm_sync_tracker.Prelude.{
  not, Bool, true, ◌||◌, Option, none, some, patch, is_some, ◌==◌, if◌then◌else◌, option_eq, ◌&&◌,
}
use mathlib.Core.Option
use osm_sync_tracker.Common.Enums.{EntityStatus}
use osm_sync_tracker.Common.Errors.{Error, SqlState}
use osm_sync_tracker.Common.Action.{Action, ok, err}
use osm_sync_tracker.Tables.{Uuid, SyncRow, FileRow, EntityRow, ChangesetRow, nullable}

pub record Store : Type 0 where
  pub sync : Uuid → Option SyncRow
  pub file : Uuid → Option FileRow
  -- by the ids of the entity and of its file
  pub entity : Uuid → Uuid → Option EntityRow
  pub changeset : Uuid → Option ChangesetRow

-- The calls that create and update one row, and the completion of a changeset's entities.
pub data Call : Type 0 where
  create_sync : SyncRow → Call
  update_sync : Uuid → SyncUpdate → Call
  create_file : File → Call
  update_file : Uuid → FileUpdate → Call
  create_entity : FiledEntity → Call
  update_entity : Uuid → Uuid → UpdateEntity → Call
  create_changeset : Changeset → Call
  update_changeset : Uuid → UpdateChangeset → Call
  complete_entities : Uuid → Call

abbrev unique_violation : Error
unique_violation = Error.query_failed (some SqlState.unique_violation)

abbrev foreign_key_violation : Error
foreign_key_violation = Error.query_failed (some SqlState.foreign_key_violation)

-- A function, changed at one key.
abbrev pub at_key {ℓ} : {A : Type ℓ} → Uuid → (A → A) → (Uuid → A) → Uuid → A
at_key id change f i = if i == id then change (f i) else f i

-- A row is stored unless its key is taken or a reference of it is to nothing.
abbrev pub insert : Bool → Bool → Store → Action Store (Unit {0})
insert taken refers stored st =
    if taken
    then (err unique_violation, st)
    else (if refers then (ok tt, stored) else (err foreign_key_violation, st))

-- An update has to give a column, and a row that is written refers to what is stored.
abbrev pub update : Bool → Bool → Store → Action Store (Unit {0})
update gives refers updated st =
    if not gives
    then (err Error.other_error, st)
    else (if refers then (ok tt, updated) else (err foreign_key_violation, st))

-- The columns that are given.
abbrev set_sync : SyncUpdate → SyncRow → SyncRow
set_sync u s = record {
  id = s.id;
  dump_date = patch u.dump_date s.dump_date;
  start_date = patch u.start_date s.start_date;
  end_date = patch u.end_date s.end_date;
  status = patch u.status s.status;
  layer_id = patch u.layer_id s.layer_id;
  is_full = s.is_full;
  total_files = patch u.total_files s.total_files;
  geometry_type = patch u.geometry_type s.geometry_type;
  base_sync_id = patch u.base_sync_id s.base_sync_id;
  run_number = patch u.run_number s.run_number;
  metadata = patch u.metadata s.metadata;
}

abbrev set_entity : UpdateEntity → EntityRow → EntityRow
set_entity u e = record {
  entity_id = e.entity_id;
  file_id = e.file_id;
  changeset_id = patch u.changeset_id e.changeset_id;
  status = patch u.status e.status;
  action = patch u.action e.action;
  fail_reason = patch u.fail_reason e.fail_reason;
}

abbrev complete_in : Uuid → EntityRow → EntityRow
complete_in id e =
    if option_eq ◌==◌ e.changeset_id (some id)
    then record e { status = EntityStatus.completed }
    else e

abbrev pub perform : Call → Action Store (Unit {0})
perform (create_sync s) st =
    insert (is_some (st.sync s.id))
      (nullable (λ b. b == s.id || is_some (st.sync b)) s.base_sync_id)
      (record st { sync = at_key s.id (λ _. some s) st.sync }) st
perform (update_sync id u) st =
    update (Sync.gives_columns u)
      (not (is_some (st.sync id))
        || nullable (λ b. is_some (st.sync b)) (patch u.base_sync_id none))
      (record st { sync = at_key id (Option.map (set_sync u)) st.sync }) st
perform (create_file f) st =
    insert (is_some (st.file f.file_id)) (is_some (st.sync f.sync_id))
      (record st { file = at_key f.file_id (λ _. some (file_row f)) st.file }) st
perform (update_file id u) st =
    update (is_some u.total_entities) true
      (record st {
        file =
            at_key id
              (Option.map {A = FileRow}
                λ f. record f { total_entities = patch u.total_entities f.total_entities })
              st.file;
      })
      st
perform (create_entity e) st =
    insert (is_some (st.entity e.entity.entity_id e.file_id))
      (is_some (st.file e.file_id)
        && nullable (λ c. is_some (st.changeset c)) (patch e.entity.changeset_id none))
      (record st {
        entity = at_key e.entity.entity_id (at_key e.file_id (λ _. some (entity_row e))) st.entity;
      })
      st
perform (update_entity entity_id file_id u) st =
    update (Entity.gives_columns u)
      (not (is_some (st.entity entity_id file_id))
        || nullable (λ c. is_some (st.changeset c)) (patch u.changeset_id none))
      (record st {
        entity = at_key entity_id (at_key file_id (Option.map (set_entity u))) st.entity;
      })
      st
perform (create_changeset c) st =
    insert (is_some (st.changeset c.changeset_id)) true
      (record st { changeset = at_key c.changeset_id (λ _. some (changeset_row c)) st.changeset })
      st
perform (update_changeset id u) st =
    update (is_some u.osm_id) true
      (record st {
        changeset =
            at_key id
              (Option.map {A = ChangesetRow} λ c. record c { osm_id = patch u.osm_id c.osm_id })
              st.changeset;
      })
      st
perform (complete_entities id) st =
    (ok tt, record st { entity = λ e f. Option.map (complete_in id) (st.entity e f) })
