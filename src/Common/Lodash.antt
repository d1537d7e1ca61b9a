-- ===== src/Common/Lodash.antt =====
-- The functions of lodash that the managers call, with what its documentation says of them.
use osm_sync_tracker.Prelude.{
  ℕ, ◌+◌, ◌≡◌, Bool, not, List, [], ◌∷◌, filter, contains, drop, ◌==◌, ◌++◌,
}

-- The values of a list that pass a test of the value and its index, counted from `i`.
abbrev pub filter_from {ℓ} : {A : Type ℓ} → (A → ℕ → Bool) → ℕ → List A → List A
filter_from p i [] = []
filter_from p i (x ∷ xs) = filter (λ y. p y i) (x ∷ []) ++ filter_from p (i + 1) xs

pub record Lodash : Type 1 where
  pub uniq_by : {A : Type 0} → (A → ℕ) → List A → List A
  pub difference : List ℕ → List ℕ → List ℕ
  pub includes : List ℕ → ℕ → ℕ → Bool
  pub filter_indexed : (ℕ → ℕ → List ℕ → Bool) → List ℕ → List ℕ
  -- The first element of each key is kept, in order.
  pub uniq_by-nil : {A : Type 0} (key : A → ℕ) → uniq_by key [] ≡ []
  pub uniq_by-cons :
      {A : Type 0} (key : A → ℕ) (x : A) (xs : List A)
      → uniq_by key (x ∷ xs) ≡ x ∷ uniq_by key (filter (λ y. not (key x == key y)) xs)
  -- The values of the first list that the second does not hold, in order.
  pub difference_lem : (xs ys : List ℕ) → difference xs ys ≡ filter (λ x. not (contains x ys)) xs
  -- `includes(xs, x, from)` looks from an index on.
  pub includes_lem : (xs : List ℕ) (x from : ℕ) → includes xs x from ≡ contains x (drop from xs)
  -- The predicate is given the value, its index and the list.
  pub filter_indexed_lem :
      (p : ℕ → ℕ → List ℕ → Bool) (xs : List ℕ)
      → filter_indexed p xs ≡ filter_from (λ x i. p x i xs) 0 xs
