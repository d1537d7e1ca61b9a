-- ===== src/Entity/Bulk.antt =====
-- What a bulk creation answers: `createEntities` of src/entity/models/entityManager.ts.
use osm_sync_tracker.File.Repository.{find_one_file}
use osm_sync_tracker.Entity.Repository.{find_many_entities_by_ids}
use osm_sync_tracker.Sync.Repository.{find_syncs}
use osm_sync_tracker.Common.Action.{ok}
use osm_sync_tracker.Common.Lodash.{Lodash}
use osm_sync_tracker.Entity.Models.{FiledEntity, Entity}
use osm_sync_tracker.Prelude.{
  List, Bool, contains, ℕ, ◌≡◌, count, ◌+◌, false, ◌==◌, map, ◌∷◌, arith, filter, if◌then◌else◌, [],
  ==→eq, ap, true, refl, ◌&&◌, Option, some, none, ◌++◌, Bool-cases, not, ltb, length, inl, inr,
  Option-cases,
}
use osm_sync_tracker.Tables.{Uuid, EntityRow, Db, FileRow}
use osm_sync_tracker.Entity.Manager.{
  create_entities, create_entities_in, EntityBulkCreationResult, id_of, insert_entities,
  upsert_entities, for_upsert, write_entities, row_id, reruns_of, ids_for_rerun, duplicate_ids,
  with_file_id,
}

-- How often an id stands in a list.
abbrev pub occurrences : Uuid → List Uuid → ℕ
occurrences id = count (λ x. x == id)

-- Every id is answered for: as created, or as completed before.
abbrev pub AccountsFor : List Uuid → EntityBulkCreationResult → Type 0
AccountsFor ids r =
    (id : Uuid)
    → occurrences id r.created + occurrences id r.previously_completed ≡ occurrences id ids

occurrences-none : (id : Uuid) (xs : List Uuid) → contains id xs ≡ false → occurrences id xs ≡ 0
occurrences-none id [] h = refl
occurrences-none id (x ∷ xs) h = ground (arith, occurrences-none id xs)

module _ (wanted : Uuid → Bool) (id : Uuid) where
  wanted-eq : (x : Uuid) → (x == id) ≡ true → wanted x ≡ wanted id
  wanted-eq x h = ap wanted (==→eq x id h)

  -- The ids of the entities that are wanted.
  occurrences-wanted :
      (es : List FiledEntity)
      → occurrences id (map id_of (filter (λ e. wanted (id_of e)) es))
        ≡ (if wanted id then occurrences id (map id_of es) else 0)
  occurrences-wanted [] = ground arith
  occurrences-wanted (e ∷ es) = ground (arith, occurrences-wanted es, wanted-eq (id_of e))

  occurrences-filter :
      (xs : List Uuid)
      → occurrences id (filter wanted xs) ≡ (if wanted id then occurrences id xs else 0)
  occurrences-filter [] = ground arith
  occurrences-filter (x ∷ xs) = ground (arith, occurrences-filter xs, wanted-eq x)

  contains-wanted :
      (es : List FiledEntity)
      → contains id (map id_of (filter (λ e. wanted (id_of e)) es))
        ≡ (wanted id && contains id (map id_of es))
  contains-wanted [] = ground arith
  contains-wanted (e ∷ es) = ground (arith, contains-wanted es, wanted-eq (id_of e))

module _ (l : Lodash) where
  upsert_accounts :
      (es : List FiledEntity) (o : Option (List EntityRow)) (db : Db) (r : EntityBulkCreationResult)
      → (upsert_entities l es o db).0 ≡ ok r
      → AccountsFor (map id_of es) r
  upsert_accounts es none db r h id = ground (arith, h)
  upsert_accounts es (some rows) db r h id =
      let up = for_upsert l es rows in
      let absent = l.difference (map id_of es) (map row_id rows) in
      let wanted = λ (x : Uuid). contains x (absent ++ ids_for_rerun rows) in
      let left_out = λ (x : Uuid). not (contains x (map id_of up)) in
      let answer = l.difference_lem (map id_of es) (map id_of up) in
      ground (
        arith,
        h,
        ap (occurrences id) answer,
        occurrences-filter left_out id (map id_of es),
        occurrences-wanted wanted id es,
        contains-wanted wanted id es,
        occurrences-none id (map id_of es),
      )

  insert_accounts :
      (es : List FiledEntity) (o : Option (List EntityRow)) (db : Db) (r : EntityBulkCreationResult)
      → (insert_entities l es o db).0 ≡ ok r
      → AccountsFor (map id_of es) r
  insert_accounts es o db r h id = ground (arith, h)

  pub write_accounts :
      (b : Bool) (es : List FiledEntity) (o : Option (List EntityRow)) (db : Db)
      (r : EntityBulkCreationResult)
      → (write_entities l b es o db).0 ≡ ok r
      → AccountsFor (map id_of es) r
  write_accounts true es o = upsert_accounts es o
  write_accounts false es o = insert_accounts es o

  create_accounts :
      (f : FileRow) (es : List FiledEntity) (db : Db) (r : EntityBulkCreationResult)
      → (create_entities_in l f es db).0 ≡ ok r
      → AccountsFor (map id_of es) r
  unfolding create_entities_in
  create_accounts f es db r h =
      let reruns = find_syncs (reruns_of f.sync_id) db in
      let existing = find_many_entities_by_ids es db in
      elim (Bool-cases (ltb 0 (length (duplicate_ids l (map id_of es))))) [
        | inl twice ↦ λ id. ground (arith, rw twice at h)
        | inr once ↦ write_accounts (not (length reruns == 0)) es existing db r (rw once at h)
      ]

  same_ids :
      (file_id : Uuid) (es : List Entity)
      → map id_of (map (with_file_id file_id) es) ≡ map (λ e. e.entity_id) es
  same_ids file_id [] = refl
  same_ids file_id (e ∷ es) = ap (◌∷◌ e.entity_id) (same_ids file_id es)

  -- A bulk creation that succeeds answers for each id that it was given: each stands in `created` and
  -- `previously_completed` together as often as in the request.
  pub create_entities-AccountsFor :
      (file_id : Uuid) (es : List Entity) (db : Db) (r : EntityBulkCreationResult)
      → (create_entities l file_id es db).0 ≡ ok r
      → AccountsFor (map (λ e. e.entity_id) es) r
  unfolding create_entities
  create_entities-AccountsFor file_id es db r h = elim (Option-cases (find_one_file file_id db)) [
    | inl missing ↦ λ id. ground (arith, rw missing at h)
    | inr (f, found) ↦ λ id.
        rw (← same_ids file_id es)
          (create_accounts f (map (with_file_id file_id) es) db r (rw found at h) id)
  ]
