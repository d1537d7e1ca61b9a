-- ===== src/Prelude/Lists.antt =====
-- Lists by Boolean tests: the SQL clauses and the array methods that the program uses, and their
-- laws.
use Prim.Native.Nat.{ℕ, zero, suc, ◌+◌, ◌-◌, ◌≤◌}
use mathlib.Core.Path.{◌≡◌, refl, ap}
use mathlib.Core.Bool.{Bool, true, false, ◌&&◌, ◌||◌}
use mathlib.Core.List.{List, [], ◌∷◌, ◌++◌, map}
use mathlib.Core.Option
use mathlib.Core.Option.{Option, none, some}
use native.Mathlib.Omega.{arith}
use osm_sync_tracker.Prelude.Tests.{if◌then◌else◌, ◌==◌}

module _ {ℓ} {A : Type ℓ} where
  abbrev pub length : List A → ℕ
  length [] = 0
  length (x ∷ xs) = suc (length xs)

  abbrev pub filter : (A → Bool) → List A → List A
  filter p [] = []
  filter p (x ∷ xs) = let rest = filter p xs in if p x then x ∷ rest else rest

  abbrev pub any : (A → Bool) → List A → Bool
  any p [] = false
  any p (x ∷ xs) = p x || any p xs

  abbrev pub all : (A → Bool) → List A → Bool
  all p [] = true
  all p (x ∷ xs) = p x && all p xs

  abbrev pub find : (A → Bool) → List A → Option A
  find p [] = none
  find p (x ∷ xs) = let rest = find p xs in if p x then some x else rest

  -- `COUNT(*)` of the rows that pass.
  abbrev pub count : (A → Bool) → List A → ℕ
  count p [] = 0
  count p (x ∷ xs) = if p x then suc (count p xs) else count p xs

  -- The row that stands first in an order, if there is a row: `ORDER BY … LIMIT 1`.
  abbrev pub first_by : (A → A → Bool) → List A → Option A
  first_by before [] = none
  first_by before (x ∷ xs) = elim (first_by before xs) [
    | none ↦ some x
    | some y ↦ some (if before y x then y else x)
  ]

  -- A property that is left out keeps the column.
  abbrev pub patch : Option A → A → A
  patch none old = old
  patch (some new) old = new

  -- `UPDATE … SET … WHERE p`, on the rows of one table.
  abbrev pub update_where : (A → Bool) → (A → A) → List A → List A
  update_where p f xs = map (λ x. if p x then f x else x) xs

  abbrev pub take : ℕ → List A → List A
  take zero xs = []
  take (suc n) [] = []
  take (suc n) (x ∷ xs) = x ∷ take n xs

  abbrev pub drop : ℕ → List A → List A
  drop zero xs = xs
  drop (suc n) [] = []
  drop (suc n) (x ∷ xs) = drop n xs

  abbrev pub All {κ} : (A → Type κ) → List A → Type κ
  All P [] = Unit
  All P (x ∷ xs) = P x × All P xs

abbrev pub contains : ℕ → List ℕ → Bool
contains a = any (λ x. a == x)

abbrev pub flat_map {ℓ κ} : {A : Type ℓ} {B : Type κ} → (A → List B) → List A → List B
flat_map f [] = []
flat_map f (x ∷ xs) = f x ++ flat_map f xs

module _ {ℓ} {A : Type ℓ} where
  pub length-append : (xs ys : List A) → length (xs ++ ys) ≡ length xs + length ys
  length-append [] ys = omega arith
  length-append (x ∷ xs) ys = omega (arith, length-append xs ys)

  pub take-append-drop : (n : ℕ) (xs : List A) → take n xs ++ drop n xs ≡ xs
  take-append-drop zero xs = refl
  take-append-drop (suc n) [] = refl
  take-append-drop (suc n) (x ∷ xs) = ap (◌∷◌ x) (take-append-drop n xs)

  pub length-take-le : (n : ℕ) (xs : List A) → length (take n xs) ≤ n
  length-take-le zero xs = omega arith
  length-take-le (suc n) [] = omega arith
  length-take-le (suc n) (x ∷ xs) = omega (arith, length-take-le n xs)

  pub length-drop : (n : ℕ) (xs : List A) → length (drop n xs) ≡ length xs - n
  length-drop zero xs = omega arith
  length-drop (suc n) [] = omega arith
  length-drop (suc n) (x ∷ xs) = omega (arith, length-drop n xs)

  -- A row found by a key that the update keeps is the updated row.
  pub find-update_where :
      (q p : A → Bool) (f : A → A) (xs : List A)
      → ((x : A) → q (f x) ≡ q x)
      → find q (update_where p f xs) ≡ Option.map (λ x. if p x then f x else x) (find q xs)
  find-update_where q p f [] keep = refl
  find-update_where q p f (x ∷ xs) keep = ground (arith, keep x, find-update_where q p f xs keep)

  pub any-find : (p : A → Bool) (xs : List A) → find p xs ≡ none → any p xs ≡ false
  any-find p [] h = refl
  any-find p (x ∷ xs) h = ground (arith, any-find p xs)

  pub any-append : (p : A → Bool) (xs ys : List A) → any p (xs ++ ys) ≡ (any p xs || any p ys)
  any-append p [] ys = refl
  any-append p (x ∷ xs) ys = ground (arith, any-append p xs ys)

  pub find-append-none :
      (p : A → Bool) (xs ys : List A) → find p xs ≡ none → find p (xs ++ ys) ≡ find p ys
  find-append-none p [] ys h = refl
  find-append-none p (x ∷ xs) ys h = ground (arith, find-append-none p xs ys)

  pub find-append-some :
      (p : A → Bool) (xs ys : List A) (a : A) → find p xs ≡ some a → find p (xs ++ ys) ≡ some a
  find-append-some p [] ys a h = cc
  find-append-some p (x ∷ xs) ys a h = ground (arith, find-append-some p xs ys a)

  pub find_sound : (p : A → Bool) (xs : List A) (a : A) → find p xs ≡ some a → p a ≡ true
  find_sound p [] a h = cc
  find_sound p (x ∷ xs) a h = ground (arith, find_sound p xs a)

module _ {ℓ} {A : Type ℓ} (p : A → Bool) where
  -- No row passes: the table stays.
  pub update_where-none : (f : A → A) (xs : List A) → any p xs ≡ false → update_where p f xs ≡ xs
  update_where-none f [] h = refl
  update_where-none f (x ∷ xs) h = ground (arith, update_where-none f xs)

  pub filter-none : (xs : List A) → any p xs ≡ false → filter p xs ≡ []
  filter-none [] h = refl
  filter-none (x ∷ xs) h = ground (arith, filter-none xs)

  pub count-none : (xs : List A) → any p xs ≡ false → count p xs ≡ 0
  count-none [] h = refl
  count-none (x ∷ xs) h = ground (arith, count-none xs)

  pub count-eq-length-filter : (xs : List A) → count p xs ≡ length (filter p xs)
  count-eq-length-filter [] = refl
  count-eq-length-filter (x ∷ xs) = ground (arith, count-eq-length-filter xs)

module _ {ℓ} {A : Type ℓ} (p q : A → Bool) where
  pub count-le : (xs : List A) → count (λ x. p x && q x) xs ≤ count p xs
  count-le [] = omega arith
  count-le (x ∷ xs) = ground (arith, count-le xs)

  -- All of the rows that pass the first test pass the second exactly if the counts agree.
  pub count-eq→all :
      (xs : List A)
      → count (λ x. p x && q x) xs ≡ count p xs
      → all (λ x. if p x then q x else true) xs ≡ true
  count-eq→all [] h = refl
  count-eq→all (x ∷ xs) h = ground (arith, count-eq→all xs, count-le xs)

  pub all→count-eq :
      (xs : List A)
      → all (λ x. if p x then q x else true) xs ≡ true
      → count (λ x. p x && q x) xs ≡ count p xs
  all→count-eq [] h = refl
  all→count-eq (x ∷ xs) h = ground (arith, all→count-eq xs)

module _ {ℓ} {A : Type ℓ} (p q : A → Bool) (f : A → A) where
  -- The rows that passed no longer do.
  pub any-update_where :
      ((x : A) → p x ≡ true → q (f x) ≡ false)
      → ((x : A) → p x ≡ false → q x ≡ false)
      → (xs : List A) → any q (update_where p f xs) ≡ false
  any-update_where yes_case no_case [] = refl
  any-update_where yes_case no_case (x ∷ xs) =
      ground (arith, yes_case x, no_case x, any-update_where yes_case no_case xs)
