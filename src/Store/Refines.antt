-- ===== src/Store/Refines.antt =====
-- The repositories in src/*/DAL refine the store of rows by key.
use osm_sync_tracker.Store.View.{
  set_entities, has_file-view, changeset_stored, view, references_view, nullable_ext,
  set_changesets, has_sync-view, set_files, entity_stored, set_syncs, file_stored, sync_stored,
}
use osm_sync_tracker.File.Models.{FileUpdate, File, file_row}
use osm_sync_tracker.Entity.Models.{UpdateEntity, FiledEntity, entity_row}
use osm_sync_tracker.Changeset.Models.{UpdateChangeset, Changeset, changeset_row}
use osm_sync_tracker.Sync.Models.{SyncUpdate}
use osm_sync_tracker.Store.Lookup.{
  any-is_some, any-taken, entity-taken, look_up-update, entity_at-update,
}
use osm_sync_tracker.Tables.{
  SyncRow, Db, Uuid, nullable, has_sync, FileRow, ChangesetRow, EntityRow, insert_rows, same_file,
  same_changeset, same_entity, entity_refers, file_refers,
}
use osm_sync_tracker.Prelude.{
  none, some, [], ◌∷◌, is_some, ◌==◌, ◌≡◌, refl, arith, ◌||◌, List, find-update_where, patch, true,
  ◌&&◌,
}
use osm_sync_tracker.Common.Action.{Action, attempt, ok, err, Result}
use osm_sync_tracker.Common.Enums.{EntityStatus}
use osm_sync_tracker.Store.Spec.{insert, Store, Call, perform, at_key}
use osm_sync_tracker.Sync.Repository as Syncs
use osm_sync_tracker.File.Repository as Files
use osm_sync_tracker.Entity.Repository as Entities
use osm_sync_tracker.Changeset.Repository as Changesets

-- The calls as the repositories make them.
abbrev pub call : Call → Action Db (Unit {0})
call (Call.create_sync s) = Syncs.create_sync s
call (Call.update_sync id u) = Syncs.update_sync id u
call (Call.create_file f) = Files.create_file f
call (Call.update_file id u) = Files.update_file id u
call (Call.create_entity e) = Entities.create_entity e
call (Call.update_entity e f u) = Entities.update_entity e f u
call (Call.create_changeset c) = Changesets.create_changeset c
call (Call.update_changeset id u) = Changesets.update_changeset id u
call (Call.complete_entities id) = Changesets.update_entities_of_changeset_as_completed id

abbrev Refined : Action Db (Unit {0}) → Action Store (Unit {0}) → Db → Type 0
Refined m spec db = ((m db).0 ≡ (spec (view db)).0) × (view (m db).1 ≡ (spec (view db)).1)

create_sync_refines :
    (s : SyncRow) (db : Db) → Refined (Syncs.create_sync s) (perform (Call.create_sync s)) db
unfolding Syncs.create_sync Syncs.find_one_sync
create_sync_refines s db = ground (
  arith,
  any-taken (λ x. x.id) s db.syncs,
  nullable_ext (λ b. b == s.id || has_sync db b) (λ b. b == s.id || is_some ((view db).sync b))
      s.base_sync_id (λ b. rw (has_sync-view db b) refl),
  sync_stored db s,
)

file_inserted :
    (r : FileRow) (db : Db)
    → Refined
        (attempt λ db. elim (insert_rows same_file (file_refers db) (r ∷ []) db.files) [
          | ok rows ↦ ok (tt, record db { files = rows })
          | err e ↦ err e
        ])
        (λ st.
          insert
            (is_some (st.file r.file_id))
            (is_some (st.sync r.sync_id))
            (record st { file = at_key r.file_id (λ _. some r) st.file })
            st)
        db
unfolding Files.find_one_file
file_inserted r db =
    ground
      (arith, any-taken (λ x. x.file_id) r db.files, has_sync-view db r.sync_id, file_stored db r)

create_file_refines :
    (f : File) (db : Db) → Refined (Files.create_file f) (perform (Call.create_file f)) db
unfolding Files.create_file
create_file_refines f db = file_inserted (file_row f) db

entity_inserted :
    (r : EntityRow) (db : Db)
    → Refined
        (attempt λ db. elim (insert_rows same_entity (entity_refers db) (r ∷ []) db.entities) [
          | ok rows ↦ ok (tt, record db { entities = rows })
          | err e ↦ err e
        ])
        (λ st.
          insert
            (is_some (st.entity r.entity_id r.file_id))
            (is_some (st.file r.file_id) && nullable (λ c. is_some (st.changeset c)) r.changeset_id)
            (record st { entity = at_key r.entity_id (at_key r.file_id (λ _. some r)) st.entity })
            st)
        db
unfolding Entities.find_one_entity
entity_inserted r db = ground (
  arith,
  entity-taken r db.entities,
  has_file-view db r.file_id,
  references_view db r.changeset_id,
  entity_stored db r,
)

create_entity_refines :
    (e : FiledEntity) (db : Db)
    → Refined (Entities.create_entity e) (perform (Call.create_entity e)) db
unfolding Entities.create_entity Entities.create_entities
create_entity_refines e db = entity_inserted (entity_row e) db

changeset_inserted :
    (r : ChangesetRow) (db : Db)
    → Refined
        (attempt λ db. elim (insert_rows same_changeset (λ _. true) (r ∷ []) db.changesets) [
          | ok rows ↦ ok (tt, record db { changesets = rows })
          | err e ↦ err e
        ])
        (λ st.
          insert
            (is_some (st.changeset r.changeset_id))
            (true)
            (record st { changeset = at_key r.changeset_id (λ _. some r) st.changeset })
            st)
        db
unfolding Changesets.find_one_changeset
changeset_inserted r db =
    ground (arith, any-taken (λ x. x.changeset_id) r db.changesets, changeset_stored db r)

create_changeset_refines :
    (c : Changeset) (db : Db)
    → Refined (Changesets.create_changeset c) (perform (Call.create_changeset c)) db
unfolding Changesets.create_changeset
create_changeset_refines c db = changeset_inserted (changeset_row c) db

update_sync_refines :
    (id : Uuid) (u : SyncUpdate) (db : Db)
    → Refined (Syncs.update_sync id u) (perform (Call.update_sync id u)) db
unfolding Syncs.update_sync Syncs.find_one_sync
update_sync_refines id u db = ground (
  arith,
  nullable_ext (has_sync db) (λ b. is_some ((view db).sync b)) (patch u.base_sync_id none)
      (has_sync-view db),
  has_sync-view db id,
  set_syncs db _ _ (λ i. look_up-update (λ x. x.id) id (Syncs.patch_sync u) db.syncs i (λ x. refl)),
)

update_file_refines :
    (id : Uuid) (u : FileUpdate) (db : Db)
    → Refined (Files.update_file id u) (perform (Call.update_file id u)) db
unfolding Files.update_file Files.find_one_file
update_file_refines id u db = ground (
  arith,
  set_files db _ _ (λ i.
      look_up-update (λ x. x.file_id) id
        (λ f. record f { total_entities = patch u.total_entities f.total_entities }) db.files i
        (λ x. refl)),
)

update_changeset_refines :
    (id : Uuid) (u : UpdateChangeset) (db : Db)
    → Refined (Changesets.update_changeset id u) (perform (Call.update_changeset id u)) db
unfolding Changesets.update_changeset Changesets.find_one_changeset
update_changeset_refines id u db = ground (
  arith,
  set_changesets db _ _ (λ i.
      look_up-update (λ x. x.changeset_id) id (λ c. record c { osm_id = patch u.osm_id c.osm_id })
        db.changesets i (λ x. refl)),
)

update_entity_refines :
    (e f : Uuid) (u : UpdateEntity) (db : Db)
    → Refined (Entities.update_entity e f u) (perform (Call.update_entity e f u)) db
unfolding Entities.update_entity Entities.find_one_entity
update_entity_refines e f u db = ground (
  arith,
  references_view db (patch u.changeset_id none),
  any-is_some (Entities.has_key e f) db.entities,
  set_entities db _ _ (λ i j.
      entity_at-update e f (Entities.patch_entity u) db.entities i j (λ x. refl) (λ x. refl)),
)

complete_entities_refines :
    (id : Uuid) (db : Db)
    → Refined
        (Changesets.update_entities_of_changeset_as_completed id)
        (perform (Call.complete_entities id))
        db
unfolding Changesets.update_entities_of_changeset_as_completed Entities.find_one_entity
complete_entities_refines id db = (
  refl,
  set_entities db _ _ (λ i j.
      find-update_where (Entities.has_key i j) (Changesets.is_in_changeset id)
        (λ e. record e { status = EntityStatus.completed }) db.entities (λ x. refl)),
)

refines : (c : Call) (db : Db) → Refined (call c) (perform c) db
refines (Call.create_sync s) db = create_sync_refines s db
refines (Call.update_sync id u) db = update_sync_refines id u db
refines (Call.create_file f) db = create_file_refines f db
refines (Call.update_file id u) db = update_file_refines id u db
refines (Call.create_entity e) db = create_entity_refines e db
refines (Call.update_entity e f u) db = update_entity_refines e f u db
refines (Call.create_changeset c) db = create_changeset_refines c db
refines (Call.update_changeset id u) db = update_changeset_refines id u db
refines (Call.complete_entities id) db = complete_entities_refines id db

-- A client that makes calls one after another: the results, and the state at the end.
abbrev pub replay :
    {S : Type 0} → (Call → Action S (Unit {0})) → List Call → S → List (Result (Unit {0})) × S
replay m [] s = ([], s)
replay m (c ∷ cs) s = let (rs, s') = replay m cs (m c s).1 in ((m c s).0 ∷ rs, s')

-- Every sequence of calls to the repositories that insert one row, update a row by its key or complete
-- the entities of a changeset, errors included, gives the results that the store of rows by key gives,
-- and the lookups see afterwards what the store holds: the order of the rows and the tables behind
-- them are never seen.
pub replay-view :
    (cs : List Call) (db : Db)
    → ((replay call cs db).0 ≡ (replay perform cs (view db)).0)
      × (view (replay call cs db).1 ≡ (replay perform cs (view db)).1)
replay-view [] db = (refl, refl)
replay-view (c ∷ cs) db =
    let (result, state) = refines c db in
    let (results, end) = replay-view cs (call c db).1 in
    rw (← state) (rw (result, results) refl, end)
