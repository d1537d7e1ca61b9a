-- ===== src/Store/Lookup.antt =====
-- Tables as functions of a key.
use osm_sync_tracker.Entity.Repository.{has_key}
use osm_sync_tracker.Tables.{EntityRow, Uuid, same_entity}
use osm_sync_tracker.Prelude.{
  ℕ, Bool, false, Option, some, List, [], ◌∷◌, ◌++◌, is_some, ◌==◌, ◌≡◌, refl, arith, any, find,
  update_where,
}
use mathlib.Core.Option
use osm_sync_tracker.Store.Spec.{at_key}

module _ {A : Type 0} where
  pub any-is_some : (p : A → Bool) (xs : List A) → any p xs ≡ is_some (find p xs)
  any-is_some p [] = refl
  any-is_some p (x ∷ xs) = ground (arith, any-is_some p xs)

module _ {A : Type 0} (key : A → ℕ) where
  abbrev pub look_up : List A → ℕ → Option A
  look_up xs i = find (λ x. key x == i) xs

  pub any-taken :
      (r : A) (xs : List A) → any (λ x. key r == key x) xs ≡ is_some (look_up xs (key r))
  any-taken r [] = refl
  any-taken r (x ∷ xs) = ground (arith, any-taken r xs)

  pub look_up-append :
      (r : A) (xs : List A) (i : ℕ)
      → is_some (look_up xs (key r)) ≡ false
      → look_up (xs ++ r ∷ []) i ≡ at_key (key r) (λ _. some r) (look_up xs) i
  look_up-append r [] i h = ground arith
  look_up-append r (x ∷ xs) i h = ground (arith, look_up-append r xs i)

  pub look_up-update :
      (id : ℕ) (f : A → A) (xs : List A) (i : ℕ)
      → ((x : A) → key (f x) ≡ key x)
      → look_up (update_where (λ x. key x == id) f xs) i ≡ at_key id (Option.map f) (look_up xs) i
  look_up-update id f [] i same = ground arith
  look_up-update id f (x ∷ xs) i same = ground (arith, same x, look_up-update id f xs i same)

abbrev pub entity_at : List EntityRow → Uuid → Uuid → Option EntityRow
entity_at rows e f = find (has_key e f) rows

pub entity-taken :
    (r : EntityRow) (rows : List EntityRow)
    → any (same_entity r) rows ≡ is_some (entity_at rows r.entity_id r.file_id)
entity-taken r [] = refl
entity-taken r (x ∷ rows) = ground (arith, entity-taken r rows)

pub entity_at-append :
    (r : EntityRow) (rows : List EntityRow) (e f : Uuid)
    → is_some (entity_at rows r.entity_id r.file_id) ≡ false
    → entity_at (rows ++ r ∷ []) e f
      ≡ at_key r.entity_id (at_key r.file_id (λ _. some r)) (entity_at rows) e f
entity_at-append r [] e f h = ground arith
entity_at-append r (x ∷ rows) e f h = ground (arith, entity_at-append r rows e f)

pub entity_at-update :
    (id file_id : Uuid) (g : EntityRow → EntityRow) (rows : List EntityRow) (e f : Uuid)
    → ((x : EntityRow) → (g x).entity_id ≡ x.entity_id)
    → ((x : EntityRow) → (g x).file_id ≡ x.file_id)
    → entity_at (update_where (has_key id file_id) g rows) e f
      ≡ at_key id (at_key file_id (Option.map g)) (entity_at rows) e f
entity_at-update id file_id g [] e f same_id same_file_id = ground arith
entity_at-update id file_id g (x ∷ rows) e f same_id same_file_id =
    ground (
      arith,
      same_id x,
      same_file_id x,
      entity_at-update id file_id g rows e f same_id same_file_id,
    )
