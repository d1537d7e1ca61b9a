-- ===== src/Sync/Creation.antt =====
-- When a sync is created: `createSync` of src/sync/models/syncManager.ts.
use osm_sync_tracker.Common.Errors.{sync_error, Error, SqlState, SyncError}
use osm_sync_tracker.Sync.Repository
use osm_sync_tracker.Common.Action.{err, ok}
use osm_sync_tracker.Common.Enums.{geometry_type_eq}
use osm_sync_tracker.Prelude.{
  Bool, ◌==◌, ◌≡◌, List, is_some, true, ltb, ◌&&◌, any, if◌then◌else◌, length, find, ◌∷◌, filter,
  arith, [], refl, ◌∙◌, ◌++◌, some,
}
use osm_sync_tracker.Tables.{SyncRow, Db, has_sync, same_sync, sync_refers}
use osm_sync_tracker.Sync.Repository.{find_one_sync, find_syncs, bool_eq}
use osm_sync_tracker.Sync.Manager.{create_sync, full_syncs_like}

module _ {A : Type 0} (p : A → Bool) where
  any-find_eq : (xs : List A) → is_some (find p xs) ≡ any p xs
  any-find_eq [] = refl
  any-find_eq (x ∷ xs) = ground (arith, any-find_eq xs)

  length-filter_pos : (xs : List A) → ltb 0 (length (filter p xs)) ≡ any p xs
  length-filter_pos [] = ground arith
  length-filter_pos (x ∷ xs) = ground (arith, length-filter_pos xs)

-- A full sync of the same layer and geometry type.
abbrev pub is_full_like : SyncRow → SyncRow → Bool
is_full_like s x =
    x.layer_id == s.layer_id && geometry_type_eq x.geometry_type s.geometry_type && x.is_full

-- The test that the look-up makes of each sync.
abbrev full_match : SyncRow → SyncRow → Bool
full_match s x =
    x.layer_id == s.layer_id
    && geometry_type_eq x.geometry_type s.geometry_type
    && bool_eq x.is_full s.is_full
    && true

full_any :
    (s : SyncRow) (xs : List SyncRow)
    → s.is_full ≡ true
    → any (full_match s) xs ≡ any (is_full_like s) xs
full_any s [] h = refl
full_any s (x ∷ xs) h = ground (arith, h, full_any s xs h)

full_exists :
    (s : SyncRow) (db : Db)
    → s.is_full ≡ true
    → ltb 0 (length (find_syncs (full_syncs_like s) db)) ≡ any (is_full_like s) db.syncs
unfolding find_syncs
full_exists s db h = length-filter_pos (full_match s) db.syncs ∙ full_any s db.syncs h

id_swap : (s : SyncRow) (xs : List SyncRow) → any (λ x. x.id == s.id) xs ≡ any (same_sync s) xs
id_swap s [] = refl
id_swap s (x ∷ xs) = ground (arith, id_swap s xs)

-- A sync is refused if its id is taken, then if it is full and there is a full sync of its layer and
-- geometry type, and then if the base sync that it names is missing; otherwise it is added to the
-- table as it was given. A refused sync leaves the database as it was.
pub create_sync_lem :
    (s : SyncRow) (db : Db)
    → create_sync s db ≡ (
        if has_sync db s.id
        then (err (sync_error SyncError.sync_already_exists), db)
        else if s.is_full && any (is_full_like s) db.syncs
        then (err (sync_error SyncError.full_sync_already_exists), db)
        else if sync_refers db s
        then (ok tt, record db { syncs = db.syncs ++ s ∷ [] })
        else (err (Error.query_failed (some SqlState.foreign_key_violation)), db))
unfolding create_sync Repository.create_sync find_one_sync
create_sync_lem s db =
    ground (arith, any-find_eq (λ x. x.id == s.id) db.syncs, full_exists s db, id_swap s db.syncs)
