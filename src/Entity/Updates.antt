-- ===== src/Entity/Updates.antt =====
-- What a bulk update of entities does: `updateEntities` of src/entity/models/entityManager.ts.
use osm_sync_tracker.Prelude.{
  Bool, true, false, none, some, List, [], ◌∷◌, ◌≡◌, ◌∙◌, ◌≤◌, refl, arith, map, length, any, all,
  find, count, update_where, ◌==◌, if◌then◌else◌, count-none, count-or, all-length-count,
}
use osm_sync_tracker.Common.Action.{ok}
use osm_sync_tracker.Common.Lodash.{Lodash}
use osm_sync_tracker.Common.Uniq.{uniq_by-distinct}
use osm_sync_tracker.Tables.{EntityRow, Db, same_entity, distinct}
use osm_sync_tracker.Entity.Models.{KeyedUpdate}
use osm_sync_tracker.Entity.Repository.{
  has_key, patch_entity, save_entity, save_rows, count_entities_by_ids,
}
use osm_sync_tracker.Entity.Repository
use osm_sync_tracker.Entity.Manager.{update_entities}

abbrev pub names : KeyedUpdate → EntityRow → Bool
names u = has_key u.entity_id u.file_id

abbrev pub same_id : KeyedUpdate → KeyedUpdate → Bool
same_id u v = u.entity_id == v.entity_id

-- A row with the columns of the update that names it, if there is one.
abbrev pub updated_by : List KeyedUpdate → EntityRow → EntityRow
updated_by us row = elim (find (λ u. names u row) us) [
  | none ↦ row
  | some u ↦ patch_entity u.update row
]

others-unnamed :
    (u : KeyedUpdate) (r : EntityRow) (rows : List EntityRow)
    → any (same_entity r) rows ≡ false
    → names u r ≡ true
    → any (names u) rows ≡ false
others-unnamed u r [] h named = refl
others-unnamed u r (x ∷ rows) h named = ground (arith, others-unnamed u r rows)

-- Every update names a row where as many rows are named as there are updates.
count-key_le :
    (u : KeyedUpdate) (rows : List EntityRow)
    → distinct same_entity rows ≡ true
    → count (names u) rows ≤ (if any (names u) rows then 1 else 0)
count-key_le u [] h = omega arith
count-key_le u (r ∷ rows) h =
    ground (arith, h, count-key_le u rows, others-unnamed u r rows, count-none (names u) rows)

count_named-le :
    (us : List KeyedUpdate) (rows : List EntityRow)
    → distinct same_entity rows ≡ true
    → count (λ r. any (λ u. names u r) us) rows ≤ count (λ u. any (names u) rows) us
count_named-le [] [] h = omega arith
count_named-le [] (r ∷ rows) h = ground (arith, count_named-le [] rows)
count_named-le (u ∷ us) rows h = ground (
  arith,
  count-or (names u) (λ r. any (λ v. names v r) us) rows,
  count-key_le u rows h,
  count_named-le us rows h,
)

has_rows :
    (us : List KeyedUpdate) (db : Db)
    → distinct same_entity db.entities ≡ true
    → count_entities_by_ids us db ≡ length us
    → all (λ u. any (names u) db.entities) us ≡ true
unfolding count_entities_by_ids
has_rows [] db keyed h = refl
has_rows (u ∷ us) db keyed h =
    all-length-count (λ u. any (names u) db.entities) (u ∷ us)
      (ground (arith, h, count_named-le (u ∷ us) db.entities keyed))

-- The rows after the updates, one after the other.
map-cong :
    (f g : EntityRow → EntityRow) (rows : List EntityRow)
    → ((r : EntityRow) → f r ≡ g r)
    → map f rows ≡ map g rows
map-cong f g [] same = refl
map-cong f g (r ∷ rows) same = rw (same r, map-cong f g rows same)

map-map :
    (f g : EntityRow → EntityRow) (rows : List EntityRow)
    → map f (map g rows) ≡ map (λ r. f (g r)) rows
map-map f g [] = refl
map-map f g (r ∷ rows) = rw (map-map f g rows)

any-updated :
    (u v : KeyedUpdate) (rows : List EntityRow)
    → any (names v) (update_where (names u) (patch_entity u.update) rows) ≡ any (names v) rows
any-updated u v [] = refl
any-updated u v (r ∷ rows) = ground (arith, any-updated u v rows)

all-updated :
    (u : KeyedUpdate) (us : List KeyedUpdate) (rows : List EntityRow)
    → all (λ v. any (names v) rows) us ≡ true
    → all (λ v. any (names v) (update_where (names u) (patch_entity u.update) rows)) us ≡ true
all-updated u [] rows h = refl
all-updated u (v ∷ us) rows h = ground (arith, any-updated u v rows, all-updated u us rows)

find-other :
    (u : KeyedUpdate) (r : EntityRow) (us : List KeyedUpdate)
    → any (same_id u) us ≡ false
    → names u r ≡ true
    → find (λ v. names v r) us ≡ none
find-other u r [] h named = refl
find-other u r (v ∷ us) h named = ground (arith, find-other u r us)

updated_by-first :
    (u : KeyedUpdate) (us : List KeyedUpdate) (r : EntityRow)
    → any (same_id u) us ≡ false
    → updated_by us (if names u r then patch_entity u.update r else r) ≡ updated_by (u ∷ us) r
updated_by-first u us r h = ground (arith, h, find-other u r us h)

saved :
    (u : KeyedUpdate) (rows : List EntityRow)
    → any (names u) rows ≡ true
    → save_entity u rows ≡ update_where (names u) (patch_entity u.update) rows
saved u rows h = rw h

save_rows_lem :
    (us : List KeyedUpdate) (rows : List EntityRow)
    → distinct same_id us ≡ true
    → all (λ u. any (names u) rows) us ≡ true
    → save_rows us rows ≡ map (updated_by us) rows
save_rows_lem [] [] unique there = refl
save_rows_lem [] (r ∷ rows) unique there = rw (← save_rows_lem [] rows refl refl)
save_rows_lem (u ∷ us) rows unique there =
    let write = λ (r : EntityRow). if names u r then patch_entity u.update r else r in
    rw (saved u rows (ground (arith, there))) (
      save_rows_lem us (map write rows) (ground (arith, unique))
        (all-updated u us rows (ground (arith, there)))
      ∙ map-map (updated_by us) write rows
      ∙ map-cong (λ r. updated_by us (write r)) (updated_by (u ∷ us)) rows
          (λ r. updated_by-first u us r (ground (arith, unique))))

-- What an update that succeeds has passed.
update_entities-passed :
    (lodash : Lodash) (us : List KeyedUpdate) (db : Db)
    → (update_entities lodash us db).0 ≡ ok tt
    → (length (lodash.uniq_by (λ u. u.entity_id) us) ≡ length us)
      × (count_entities_by_ids us db ≡ length us)
      × ((update_entities lodash us db).1 ≡ record db { entities = save_rows us db.entities })
unfolding update_entities Repository.update_entities
update_entities-passed lodash us db done =
    (ground (arith, done), ground (arith, done), ground (arith, done))

-- A bulk update that succeeds has a row for each of its updates, adds none, and leaves every row
-- with the columns of the one update that names it, or as it was where none does; the other
-- tables stay.
pub update_entities_lem :
    (lodash : Lodash) (us : List KeyedUpdate) (db : Db)
    → distinct same_entity db.entities ≡ true
    → (update_entities lodash us db).0 ≡ ok tt
    → (all (λ u. any (names u) db.entities) us ≡ true)
      × ((update_entities lodash us db).1
          ≡ record db { entities = map (updated_by us) db.entities })
update_entities_lem lodash us db keyed done =
    let (lengths, counts, after) = update_entities-passed lodash us db done in
    let there = has_rows us db keyed counts in
    let unique = uniq_by-distinct lodash (λ (u : KeyedUpdate). u.entity_id) us lengths in
    (there, rw (← save_rows_lem us db.entities unique there) after)
