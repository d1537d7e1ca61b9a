-- ===== src/Common/Uniq.antt =====
-- The test for duplicates by lodash's `uniqBy`, in src/file/models/fileManager.ts and
-- src/entity/models/entityManager.ts.
use osm_sync_tracker.Prelude.{
  ℕ, Bool, true, false, not, List, [], ◌∷◌, ◌≡◌, ◌≤◌, suc, zero, refl, ap, ◌∙◌, arith, length,
  filter, any, all, ◌==◌, Bool-cases, inl, inr, length-filter-le, all-length-filter,
  filter-all_same, any-all-not,
}
use osm_sync_tracker.Common.Lodash.{Lodash}
use osm_sync_tracker.Tables.{distinct}

module _ {A : Type 0} (lodash : Lodash) (key : A → ℕ) where
  abbrev pub same_key : A → A → Bool
  same_key x y = key x == key y

  uniq_by-le : (n : ℕ) (xs : List A) → length xs ≤ n → length (lodash.uniq_by key xs) ≤ length xs
  uniq_by-le n [] h = rw (lodash.uniq_by-nil key) (omega arith)
  uniq_by-le zero (x ∷ xs) h = ground (arith, h)
  uniq_by-le (suc n) (x ∷ xs) h =
      let rest = filter (λ y. not (same_key x y)) xs in
      let fewer = length-filter-le (λ y. not (same_key x y)) xs in
      rw (lodash.uniq_by-cons key x xs)
        (ground (arith, fewer, uniq_by-le n rest (ground (arith, fewer, h))))

  uniq_by-keeps_all :
      (x : A) (xs : List A)
      → length (lodash.uniq_by key (x ∷ xs)) ≡ suc (length xs)
      → all (λ y. not (same_key x y)) xs ≡ true
  uniq_by-keeps_all x xs h =
      let rest = filter (λ y. not (same_key x y)) xs in
      let kept = rw (lodash.uniq_by-cons key x xs) at h in
      let fewer = length-filter-le (λ y. not (same_key x y)) xs in
      let least = uniq_by-le (length rest) rest (omega arith) in
      all-length-filter (λ y. not (same_key x y)) xs (ground (arith, kept, fewer, least))

  pub uniq_by-distinct :
      (xs : List A) → length (lodash.uniq_by key xs) ≡ length xs → distinct same_key xs ≡ true
  uniq_by-distinct [] h = refl
  uniq_by-distinct (x ∷ xs) h =
      let others = uniq_by-keeps_all x xs h in
      let kept = rw (lodash.uniq_by-cons key x xs) at h in
      let tail = rw (filter-all_same (λ y. not (same_key x y)) xs others) at kept in
      ground (arith, any-all-not (same_key x) xs others, uniq_by-distinct xs (ground (arith, tail)))

  all-not-any :
      (x : A) (xs : List A) → any (same_key x) xs ≡ false → all (λ y. not (same_key x y)) xs ≡ true
  all-not-any x [] h = refl
  all-not-any x (y ∷ xs) h = ground (arith, all-not-any x xs)

  pub uniq_by-same : (xs : List A) → distinct same_key xs ≡ true → lodash.uniq_by key xs ≡ xs
  uniq_by-same [] h = lodash.uniq_by-nil key
  uniq_by-same (x ∷ xs) h =
      lodash.uniq_by-cons key x xs
      ∙ ap (λ ys. x ∷ lodash.uniq_by key ys)
          (filter-all_same (λ y. not (same_key x y)) xs (all-not-any x xs (ground (arith, h))))
      ∙ ap (◌∷◌ x) (uniq_by-same xs (ground (arith, h)))

  -- No two elements share their key exactly if none is dropped.
  pub uniq_by-test :
      (xs : List A) → (length (lodash.uniq_by key xs) == length xs) ≡ distinct same_key xs
  uniq_by-test xs = elim (Bool-cases (distinct same_key xs)) [
    | inl h ↦ ground (arith, h, ap length (uniq_by-same xs h))
    | inr h ↦ ground (arith, h, uniq_by-distinct xs)
  ]
