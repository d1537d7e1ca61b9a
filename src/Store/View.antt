-- ===== src/Store/View.antt =====
-- A database as a store: what the lookups of the repositories in src/*/DAL see.
use osm_sync_tracker.Store.Lookup.{look_up-append, any-is_some, entity_at, entity_at-append}
use osm_sync_tracker.Tables.{
  SyncRow, Db, Uuid, nullable, has_sync, has_file, has_changeset, FileRow, ChangesetRow, EntityRow,
}
use osm_sync_tracker.Prelude.{
  Bool, false, Option, none, some, [], ◌∷◌, ◌++◌, is_some, ◌==◌, ◌≡◌, refl, ap, List, find,
}
use mathlib.Core.Path.{fun_ext}
use osm_sync_tracker.Store.Spec.{Store, at_key}
use osm_sync_tracker.Sync.Repository as Syncs
use osm_sync_tracker.File.Repository as Files
use osm_sync_tracker.Entity.Repository as Entities
use osm_sync_tracker.Changeset.Repository as Changesets

-- What the lookups of the repositories see.
abbrev pub view : Db → Store
view db = record {
  sync = λ id. Syncs.find_one_sync id db;
  file = λ id. Files.find_one_file id db;
  entity = λ e f. Entities.find_one_entity e f db;
  changeset = λ id. Changesets.find_one_changeset id db;
}

pub nullable_ext :
    (p q : Uuid → Bool) (o : Option Uuid)
    → ((id : Uuid) → p id ≡ q id)
    → nullable p o ≡ nullable q o
nullable_ext p q none same = refl
nullable_ext p q (some id) same = same id

-- A row is there if the lookup finds it.
module _ (db : Db) where
  pub has_sync-view : (id : Uuid) → has_sync db id ≡ is_some ((view db).sync id)
  unfolding Syncs.find_one_sync
  has_sync-view id = any-is_some (λ x. x.id == id) db.syncs

  pub has_file-view : (id : Uuid) → has_file db id ≡ is_some ((view db).file id)
  unfolding Files.find_one_file
  has_file-view id = any-is_some (λ x. x.file_id == id) db.files

  pub has_changeset-view : (id : Uuid) → has_changeset db id ≡ is_some ((view db).changeset id)
  unfolding Changesets.find_one_changeset
  has_changeset-view id = any-is_some (λ x. x.changeset_id == id) db.changesets

  pub references_view :
      (o : Option Uuid)
      → nullable (has_changeset db) o ≡ nullable (λ c. is_some ((view db).changeset c)) o
  references_view o = nullable_ext _ _ o has_changeset-view

-- A table is seen through its lookup alone.
module _ (db : Db) where
  pub set_syncs :
      (rows : List SyncRow) (f : Uuid → Option SyncRow)
      → ((i : Uuid) → find (λ x. x.id == i) rows ≡ f i)
      → view (record db { syncs = rows }) ≡ record (view db) { sync = f }
  unfolding Syncs.find_one_sync Files.find_one_file Entities.find_one_entity
      Changesets.find_one_changeset
  set_syncs rows f same = ap (λ g. record (view db) { sync = g }) (fun_ext same)

  pub set_files :
      (rows : List FileRow) (f : Uuid → Option FileRow)
      → ((i : Uuid) → find (λ x. x.file_id == i) rows ≡ f i)
      → view (record db { files = rows }) ≡ record (view db) { file = f }
  unfolding Syncs.find_one_sync Files.find_one_file Entities.find_one_entity
      Changesets.find_one_changeset
  set_files rows f same = ap (λ g. record (view db) { file = g }) (fun_ext same)

  pub set_entities :
      (rows : List EntityRow) (f : Uuid → Uuid → Option EntityRow)
      → ((i j : Uuid) → entity_at rows i j ≡ f i j)
      → view (record db { entities = rows }) ≡ record (view db) { entity = f }
  unfolding Syncs.find_one_sync Files.find_one_file Entities.find_one_entity
      Changesets.find_one_changeset
  set_entities rows f same =
      ap (λ g. record (view db) { entity = g }) (fun_ext λ i. fun_ext λ j. same i j)

  pub set_changesets :
      (rows : List ChangesetRow) (f : Uuid → Option ChangesetRow)
      → ((i : Uuid) → find (λ x. x.changeset_id == i) rows ≡ f i)
      → view (record db { changesets = rows }) ≡ record (view db) { changeset = f }
  unfolding Syncs.find_one_sync Files.find_one_file Entities.find_one_entity
      Changesets.find_one_changeset
  set_changesets rows f same = ap (λ g. record (view db) { changeset = g }) (fun_ext same)

  pub sync_stored :
      (s : SyncRow)
      → is_some ((view db).sync s.id) ≡ false
      → view (record db { syncs = db.syncs ++ s ∷ [] })
        ≡ record (view db) { sync = at_key s.id (λ _. some s) (view db).sync }
  unfolding Syncs.find_one_sync
  sync_stored s h = set_syncs _ _ (λ i. look_up-append (λ x. x.id) s db.syncs i h)

  pub file_stored :
      (f : FileRow)
      → is_some ((view db).file f.file_id) ≡ false
      → view (record db { files = db.files ++ f ∷ [] })
        ≡ record (view db) { file = at_key f.file_id (λ _. some f) (view db).file }
  unfolding Files.find_one_file
  file_stored f h = set_files _ _ (λ i. look_up-append (λ x. x.file_id) f db.files i h)

  pub entity_stored :
      (e : EntityRow)
      → is_some ((view db).entity e.entity_id e.file_id) ≡ false
      → view (record db { entities = db.entities ++ e ∷ [] }) ≡ record (view db) {
        entity = at_key e.entity_id (at_key e.file_id (λ _. some e)) (view db).entity;
      }
  unfolding Entities.find_one_entity
  entity_stored e h = set_entities _ _ (λ i j. entity_at-append e db.entities i j h)

  pub changeset_stored :
      (c : ChangesetRow)
      → is_some ((view db).changeset c.changeset_id) ≡ false
      → view (record db { changesets = db.changesets ++ c ∷ [] })
        ≡ record (view db) { changeset = at_key c.changeset_id (λ _. some c) (view db).changeset }
  unfolding Changesets.find_one_changeset
  changeset_stored c h =
      set_changesets _ _ (λ i. look_up-append (λ x. x.changeset_id) c db.changesets i h)
