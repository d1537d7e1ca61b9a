-- ===== src/Tables/Changes.antt =====
-- Tables with new rows, or with other values in their rows, and the foreign keys.
use osm_sync_tracker.Prelude.{
  all-append, all-update_where, any-update_where_same, Bool, true, List, ◌++◌, ◌≡◌, all,
  update_where, ◌==◌, any-grown,
}
use osm_sync_tracker.Tables.{
  SyncRow, FileRow, EntityRow, ChangesetRow, Db, sync_refers, file_refers, entity_refers,
}
use osm_sync_tracker.Tables.References.{IsReferring, Grows-IsReferring}

-- New syncs.
pub syncs_grown :
    (rows : List SyncRow) (db : Db)
    → all (sync_refers db) rows ≡ true
    → IsReferring db
    → IsReferring (record db { syncs = db.syncs ++ rows })
syncs_grown rows db h k =
    Grows-IsReferring {db = db}
      (record {
        syncs = λ id. any-grown _ db.syncs rows;
        files = λ id e. e;
        changesets = λ id e. e;
      })
      (all-append (sync_refers db) db.syncs rows k.syncs h) k.files k.entities k.history

pub files_grown :
    (rows : List FileRow) (db : Db)
    → all (file_refers db) rows ≡ true
    → IsReferring db
    → IsReferring (record db { files = db.files ++ rows })
files_grown rows db h k =
    Grows-IsReferring {db = db}
      (record {
        syncs = λ id e. e;
        files = λ id. any-grown _ db.files rows;
        changesets = λ id e. e;
      })
      k.syncs (all-append (file_refers db) db.files rows k.files h) k.entities k.history

pub changesets_grown :
    (rows : List ChangesetRow) (db : Db)
    → IsReferring db
    → IsReferring (record db { changesets = db.changesets ++ rows })
changesets_grown rows db k =
    Grows-IsReferring {db = db}
      (record {
        syncs = λ id e. e;
        files = λ id e. e;
        changesets = λ id. any-grown _ db.changesets rows;
      })
      k.syncs k.files k.entities k.history

-- Entities that refer to what is there.
pub entities_set :
    (rows : List EntityRow) (db : Db)
    → all (entity_refers db) rows ≡ true
    → IsReferring db
    → IsReferring (record db { entities = rows })
entities_set rows db h k = record {
  syncs = k.syncs;
  files = k.files;
  entities = h;
  history = k.history;
}

-- An update of syncs that leaves their ids alone.
pub syncs_updated :
    (p : SyncRow → Bool) (f : SyncRow → SyncRow) (db : Db)
    → ((x : SyncRow) → (f x).id ≡ x.id)
    → ((x : SyncRow) → sync_refers db x ≡ true → sync_refers db (f x) ≡ true)
    → IsReferring db
    → IsReferring (record db { syncs = update_where p f db.syncs })
syncs_updated p f db same keep k =
    Grows-IsReferring {db = db}
      (record {
        syncs =
            λ id e. rw (any-update_where_same (λ s. s.id == id) p f db.syncs (λ x. rw (same x))) e;
        files = λ id e. e;
        changesets = λ id e. e;
      })
      (all-update_where (sync_refers db) p f db.syncs keep k.syncs) k.files k.entities k.history

pub files_updated :
    (p : FileRow → Bool) (f : FileRow → FileRow) (db : Db)
    → ((x : FileRow) → (f x).file_id ≡ x.file_id)
    → ((x : FileRow) → (f x).sync_id ≡ x.sync_id)
    → IsReferring db
    → IsReferring (record db { files = update_where p f db.files })
files_updated p f db same same_sync_id k =
    Grows-IsReferring {db = db}
      (record {
        syncs = λ id e. e;
        files = λ id e.
            rw (any-update_where_same (λ f. f.file_id == id) p f db.files (λ x. rw (same x))) e;
        changesets = λ id e. e;
      })
      k.syncs
      (all-update_where (file_refers db) p f db.files (λ x e. rw (same_sync_id x) e) k.files)
      k.entities k.history
