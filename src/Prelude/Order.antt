-- ===== src/Prelude/Order.antt =====
-- The first row of an order, and filtered lists.
use mathlib.Core.Path.{◌≡◌, refl}
use mathlib.Core.Bool.{Bool, ◌&&◌, true, false, ◌||◌}
use mathlib.Core.List.{List, [], ◌∷◌}
use mathlib.Core.Option.{none, some}
use mathlib.Core.Logic.{inl, inr}
use native.Mathlib.Omega.{arith}
use osm_sync_tracker.Prelude.Tests.{Option-cases, Bool-cases}
use osm_sync_tracker.Prelude.Lists.{first_by, any, all, filter}

module _ {ℓ} {A : Type ℓ} (before : A → A → Bool) where
  pub first_by-none : (q : A → Bool) (xs : List A) → first_by before xs ≡ none → any q xs ≡ false
  first_by-none q [] h = refl
  first_by-none q (x ∷ xs) h = elim (Option-cases (first_by before xs)) [
    | inl missing ↦ ground (arith, missing, h)
    | inr (z, found) ↦ ground (arith, h, found)
  ]

module _ {ℓ} {A : Type ℓ} (before : A → A → Bool) (irrefl : (a : A) → before a a ≡ false)
    (asym : (a b : A) → before a b ≡ true → before b a ≡ false)
    (cotrans : (a b c : A) → before a c ≡ true → (before a b || before b c) ≡ true) where
  behind :
      (x y : A) (xs : List A)
      → before y x ≡ false
      → any (λ z. before z y) xs ≡ false
      → any (λ z. before z x) xs ≡ false
  behind x y [] h k = refl
  behind x y (z ∷ xs) h k = ground (arith, behind x y xs, cotrans z y x)

  -- Nothing stands before the first row.
  pub first_by_first :
      (xs : List A) (y : A) → first_by before xs ≡ some y → any (λ z. before z y) xs ≡ false
  first_by_first [] y h = refl
  first_by_first (x ∷ xs) y h = elim (Option-cases (first_by before xs)) [
    | inl missing ↦
        ground (arith, missing, h, irrefl x, first_by-none before (λ z. before z y) xs missing)
    | inr (z, found) ↦
        ground (arith, h, found, irrefl x, asym z x, first_by_first xs z found, behind x z xs)
  ]

module _ {ℓ} {A : Type ℓ} (before : A → A → Bool) where
  pub first_by-all :
      (p : A → Bool) (xs : List A) (y : A)
      → first_by before xs ≡ some y
      → all p xs ≡ true
      → p y ≡ true
  first_by-all p [] y h k = cc
  first_by-all p (x ∷ xs) y h k = elim (Option-cases (first_by before xs)) [
    | inl missing ↦ ground (arith, missing, h, k)
    | inr (z, found) ↦ ground (arith, h, found, first_by-all p xs z found)
  ]

module _ {ℓ} {A : Type ℓ} (p : A → Bool) where
  pub all-filter : (xs : List A) → all p (filter p xs) ≡ true
  all-filter [] = refl
  all-filter (x ∷ xs) = ground (arith, all-filter xs)

  pub any-of-filter : (q : A → Bool) (xs : List A) → any q (filter p xs) ≡ any (λ z. p z && q z) xs
  any-of-filter q [] = refl
  any-of-filter q (x ∷ xs) = ground (arith, any-of-filter q xs)

module _ {ℓ} {A : Type ℓ} (before : A → A → Bool) (p : A → Bool) where
  pub first_by-filter-none : (xs : List A) → first_by before (filter p xs) ≡ none → any p xs ≡ false
  first_by-filter-none [] h = refl
  first_by-filter-none (x ∷ xs) h = elim (Bool-cases (p x)) [
    | inl passes ↦ ground (arith, passes, first_by-none before (λ z. true) (filter p (x ∷ xs)) h)
    | inr fails ↦ ground (arith, fails, h, first_by-filter-none xs)
  ]
