-- ===== src/Common/Hashes.antt =====
-- The batch hash and the order of the ids: `hashBatch` of src/common/utils/index.ts.
use osm_sync_tracker.Prelude.{List, [], ◌∷◌, true, ◌≡◌, ℕ, ◌||◌, arith, ap, ◌∙◌, refl}
use osm_sync_tracker.Common.Utils.{Hashing, hash_batch, insert_sorted, sort}

-- The lists that hold the same ids, in any order.
infix 20 ◌↭◌
pub data ◌↭◌ : List ℕ → List ℕ → Type 0 where
  none_left : [] ↭ []
  keep : {x : ℕ} {xs ys : List ℕ} → xs ↭ ys → (x ∷ xs) ↭ (x ∷ ys)
  exchange : {x y : ℕ} {xs : List ℕ} → (x ∷ y ∷ xs) ↭ (y ∷ x ∷ xs)
  compose : {xs ys zs : List ℕ} → xs ↭ ys → ys ↭ zs → xs ↭ zs

module _ (h : Hashing) (total : (a b : ℕ) → (h.before a b || h.before b a) ≡ true)
    (antisym : (a b : ℕ) → h.before a b ≡ true → h.before b a ≡ true → a ≡ b)
    (trans : (a b c : ℕ) → h.before a b ≡ true → h.before b c ≡ true → h.before a c ≡ true) where
  insert_sorted-swap :
      (x y : ℕ) (zs : List ℕ)
      → insert_sorted h x (insert_sorted h y zs) ≡ insert_sorted h y (insert_sorted h x zs)
  insert_sorted-swap x y [] = ground (arith, total x y, antisym x y)
  insert_sorted-swap x y (z ∷ zs) = ground (
    arith,
    insert_sorted-swap x y zs,
    total x y,
    antisym x y,
    trans x y z,
    trans y x z,
    total x z,
    total y z,
    trans x z y,
    trans y z x,
  )

  sort_order : {xs ys : List ℕ} → xs ↭ ys → sort h xs ≡ sort h ys
  sort_order none_left = refl
  sort_order (keep {x} p) = ap (insert_sorted h x) (sort_order p)
  sort_order (exchange {x} {y} {xs}) = insert_sorted-swap x y (sort h xs)
  sort_order (compose p q) = sort_order p ∙ sort_order q

  -- Let the comparison be a total order. Then a batch of the same ids in another order has the same
  -- hash, and leaves the same sorted array behind.
  pub hash_batch_order : (xs ys : List ℕ) → xs ↭ ys → hash_batch h xs ≡ hash_batch h ys
  unfolding hash_batch
  hash_batch_order xs ys p = ap (λ s. (h.digest s, s)) (sort_order p)
