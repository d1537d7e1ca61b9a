-- ===== src/Sync/Deletion.antt =====
-- What `deleteEmptyFiles` of src/sync/DAL/syncRepository.ts leaves.
use osm_sync_tracker.Prelude.{
  Bool, List, ◌≡◌, any, map, true, false, ◌==◌, ◌||◌, ◌∷◌, arith, all, filter, not, update_where,
  [], ◌&&◌, refl, contains, ap, ==→eq, ◌∙◌,
}
use osm_sync_tracker.Tables.{Uuid, Db, EntityRow, FileRow}
use osm_sync_tracker.Sync.Rerun.{delete_empty_files, has_entity, is_empty_file}

module _ {A B : Type 0} (q : A → B → Bool) where
  any-or : (p r : A → Bool) (xs : List A) → any (λ x. p x || r x) xs ≡ (any p xs || any r xs)
  any-or p r [] = ground arith
  any-or p r (x ∷ xs) = ground (arith, any-or p r xs)

  any-false : (xs : List A) → any (λ x. false) xs ≡ false
  any-false [] = ground arith
  any-false (x ∷ xs) = any-false xs

  any-swap :
      (xs : List A) (ys : List B)
      → any (λ x. any (λ y. q x y) ys) xs ≡ any (λ y. any (λ x. q x y) xs) ys
  any-swap xs [] = any-false xs
  any-swap xs (y ∷ ys) =
      ground (arith, any-or (λ x. q x y) (λ x. any (λ z. q x z) ys) xs, any-swap xs ys)

module _ {A : Type 0} where
  filter-not-none :
      (p : A → Bool) (xs : List A) → any p xs ≡ false → filter (λ x. not (p x)) xs ≡ xs
  filter-not-none p [] h = refl
  filter-not-none p (x ∷ xs) h = ground (arith, filter-not-none p xs)

  pub update_where-same :
      (good p q : A → Bool) (f : A → A) (xs : List A)
      → ((x : A) → good x ≡ true → p x ≡ q x)
      → all good xs ≡ true
      → update_where p f xs ≡ update_where q f xs
  update_where-same good p q f [] same h = refl
  update_where-same good p q f (x ∷ xs) same h =
      ground (arith, same x, update_where-same good p q f xs same)

module _ (base : Uuid) (db : Db) where
  no_entities :
      (fs : List FileRow)
      → any
          (λ i. any (λ e. e.file_id == i) db.entities)
          (map (λ f. f.file_id) (filter (is_empty_file base db) fs))
        ≡ false
  no_entities [] = refl
  no_entities (f ∷ fs) = ground (arith, no_entities fs)

  -- No entity stands in a file that is deleted.
  pub delete_empty_files-entities : (delete_empty_files base db).1.entities ≡ db.entities
  unfolding delete_empty_files
  delete_empty_files-entities =
      let ids = map (λ (f : FileRow). f.file_id) (filter (is_empty_file base db) db.files) in
      filter-not-none (λ e. contains e.file_id ids) db.entities
        (any-swap (λ (e : EntityRow) (i : Uuid). e.file_id == i) db.entities ids
          ∙ no_entities db.files)

  same_file_id :
      (f : FileRow) (e : EntityRow)
      → (f.file_id == e.file_id) ≡ true
      → has_entity db f.file_id ≡ has_entity db e.file_id
  same_file_id f e h = ap (has_entity db) (==→eq f.file_id e.file_id h)

  -- The files that are left are those of the entities.
  pub left_files :
      (e : EntityRow) (fs : List FileRow)
      → has_entity db e.file_id ≡ true
      → any
          (λ f. f.file_id == e.file_id && f.sync_id == base)
          (filter (λ f. not (is_empty_file base db f)) fs)
        ≡ any (λ f. f.file_id == e.file_id && f.sync_id == base) fs
  left_files e [] h = refl
  left_files e (f ∷ fs) h = ground (arith, left_files e fs, same_file_id f e)

pub have_files :
    (es zs : List EntityRow)
    → ((id : Uuid) → any (λ x. x.file_id == id) es ≡ true → any (λ x. x.file_id == id) zs ≡ true)
    → all (λ e. any (λ x. x.file_id == e.file_id) zs) es ≡ true
have_files [] zs sub = refl
have_files (e ∷ es) zs sub =
    ground (arith, sub e.file_id, have_files es zs (λ id h. sub id (ground (arith, h))))
