-- ===== src/Sync/Metadata.antt =====
-- What an update does to the metadata of a sync: `updateSync` of src/sync/models/syncManager.ts.
use osm_sync_tracker.Common.Action.{ok}
use osm_sync_tracker.Sync.Models.{SyncUpdate}
use osm_sync_tracker.Tables.{Uuid, Json, SyncRow, Metadata, Db}
use text.Mathlib.Text.{◌==◌ as str_eq}
use text.Mathlib.TextEquality.{eq_iff}
use mathlib.Core.Option
use osm_sync_tracker.Prelude.{
  ◌==◌, filter, find, any, none, some, get_or, Option, String, Bool, not, ◌≡◌, List, ◌++◌, [],
  is_some, true, patch, arith, ap, ◌∷◌, find-update_where, refl, find_sound,
}
use osm_sync_tracker.Sync.Repository
use osm_sync_tracker.Sync.Repository.{find_one_sync, patch_sync}
use osm_sync_tracker.Sync.Manager.{update_sync, spread}

-- The value of a property of an object.
abbrev pub property : String → Metadata → Option Json
property name m = Option.map (λ (_, v). v) (find (λ (k, _). str_eq k name) m)

abbrev pub or_else : Option Json → Option Json → Option Json
or_else none o = o
or_else (some v) o = some v

any-is_some {ℓ} : {A : Type ℓ} (p : A → Bool) (xs : List A) → any p xs ≡ is_some (find p xs)
any-is_some p [] = refl
any-is_some p (x ∷ xs) = ground (arith, any-is_some p xs)

module _ (name : String) (new : Metadata) where
  same_name :
      (k : String)
      → str_eq k name ≡ true
      → any (λ (j, _). str_eq j k) new ≡ any (λ (j, _). str_eq j name) new
  same_name k h = ap (λ n. any (λ (j, _). str_eq j n) new) ((eq_iff k name).0 h)

  abbrev kept : Metadata → Metadata
  kept old = filter (λ (k, _). not (any (λ (j, _). str_eq j k) new)) old

  -- A property that the new object has is found in it.
  any-named : any (λ (j, _). str_eq j name) new ≡ is_some (find (λ (j, _). str_eq j name) new)
  any-named = any-is_some (λ (j, _). str_eq j name) new

  new_only : property name new ≡ or_else (property name new) none
  new_only = ground arith

  property-kept :
      (old : Metadata)
      → property name (kept old ++ new) ≡ or_else (property name new) (property name old)
  property-kept [] = ground (arith, new_only)
  property-kept ((k, v) ∷ old) = ground (arith, property-kept old, same_name k, any-named)

-- The object of a nullable column.
abbrev pub object_of : Option Metadata → Metadata
object_of m = get_or m []

-- The update as it reaches the table.
abbrev merged : SyncRow → SyncUpdate → SyncUpdate
merged s u = record u { metadata = some (some (spread s.metadata (patch u.metadata none))) }

-- An update of a sync that succeeds leaves the stored sync with the given columns, and with metadata
-- that has each property of the update and, where the update does not have it, of the stored sync.
pub update_sync_merges :
    (id : Uuid) (u : SyncUpdate) (db : Db) (s : SyncRow)
    → find_one_sync id db ≡ some s
    → (update_sync id u db).0 ≡ ok tt
    → (m : Metadata) × (find_one_sync id (update_sync id u db).1
        ≡ some (record (patch_sync u s) { metadata = some m }))
      × ((name : String)
          → property name m
            ≡ or_else
                (property name (object_of (patch u.metadata none)))
                (property name (object_of s.metadata)))
unfolding update_sync Repository.update_sync find_one_sync
update_sync_merges id u db s found done =
    let new = object_of (patch u.metadata none) in
    let old = object_of s.metadata in
    (
      spread s.metadata (patch u.metadata none),
      ground (
        arith,
        found,
        done,
        find-update_where (λ r. r.id == id) (λ r. r.id == id) (patch_sync (merged s u)) db.syncs
            (λ x. refl),
        find_sound (λ r. r.id == id) db.syncs s found,
      ),
      λ name. property-kept name new old,
    )
