-- ===== src/Prelude/Passing.antt =====
-- Lists whose rows all pass a test.
use Prim.Native.Nat.{◌+◌, ◌≤◌}
use mathlib.Core.Path.{◌≡◌, refl}
use mathlib.Core.Bool.{Bool, true, false, not, ◌&&◌, ◌||◌}
use mathlib.Core.List.{List, [], ◌∷◌, ◌++◌}
use mathlib.Core.Option.{none}
use native.Mathlib.Omega.{arith}
use osm_sync_tracker.Prelude.Lists.{any-append, any, all, filter, update_where, find, length, count}

module _ {A : Type 0} where
  pub all_mono :
      (p q : A → Bool) (xs : List A)
      → ((x : A) → p x ≡ true → q x ≡ true)
      → all p xs ≡ true
      → all q xs ≡ true
  all_mono p q [] imp h = refl
  all_mono p q (x ∷ xs) imp h = ground (arith, imp x, all_mono p q xs imp)

  pub all-append :
      (p : A → Bool) (xs ys : List A) → all p xs ≡ true → all p ys ≡ true → all p (xs ++ ys) ≡ true
  all-append p [] ys h k = k
  all-append p (x ∷ xs) ys h k = ground (arith, all-append p xs ys)

  pub all-filter_kept :
      (p q : A → Bool) (xs : List A) → all p xs ≡ true → all p (filter q xs) ≡ true
  all-filter_kept p q [] h = refl
  all-filter_kept p q (x ∷ xs) h = ground (arith, all-filter_kept p q xs)

  -- The rows that pass the filter are known to pass it.
  pub all-filter_self :
      (p q r : A → Bool) (xs : List A)
      → ((x : A) → p x ≡ true → q x ≡ true → r x ≡ true)
      → all p xs ≡ true
      → all r (filter q xs) ≡ true
  all-filter_self p q r [] imp h = refl
  all-filter_self p q r (x ∷ xs) imp h = ground (arith, imp x, all-filter_self p q r xs imp)

  pub all-update_where :
      (p c : A → Bool) (f : A → A) (xs : List A)
      → ((x : A) → p x ≡ true → p (f x) ≡ true)
      → all p xs ≡ true
      → all p (update_where c f xs) ≡ true
  all-update_where p c f [] keep h = refl
  all-update_where p c f (x ∷ xs) keep h = ground (arith, keep x, all-update_where p c f xs keep)

  -- An update that leaves the tested column alone.
  pub any-update_where_same :
      (q c : A → Bool) (f : A → A) (xs : List A)
      → ((x : A) → q (f x) ≡ q x)
      → any q (update_where c f xs) ≡ any q xs
  any-update_where_same q c f [] same = refl
  any-update_where_same q c f (x ∷ xs) same =
      ground (arith, same x, any-update_where_same q c f xs same)

  pub any-none :
      (p q : A → Bool) (xs : List A)
      → ((x : A) → p x ≡ true → q x ≡ false)
      → all p xs ≡ true
      → any q xs ≡ false
  any-none p q [] imp h = refl
  any-none p q (x ∷ xs) imp h = ground (arith, imp x, any-none p q xs imp)

  -- What was appended is filtered out again.
  pub filter-append_new :
      (p : A → Bool) (xs ys : List A)
      → any p xs ≡ false
      → all p ys ≡ true
      → filter (λ x. not (p x)) (xs ++ ys) ≡ xs
  filter-append_new p [] [] h k = refl
  filter-append_new p [] (y ∷ ys) h k = ground (arith, filter-append_new p [] ys)
  filter-append_new p (x ∷ xs) ys h k = ground (arith, filter-append_new p xs ys)

  pub filter-all : (p : A → Bool) (xs : List A) → all p xs ≡ true → filter p xs ≡ xs
  filter-all p [] h = refl
  filter-all p (x ∷ xs) h = ground (arith, filter-all p xs)

  pub any_weaken :
      (p q : A → Bool) (xs : List A) → any p xs ≡ false → any (λ x. p x && q x) xs ≡ false
  any_weaken p q [] h = refl
  any_weaken p q (x ∷ xs) h = ground (arith, any_weaken p q xs)

  pub any-grown : (p : A → Bool) (xs ys : List A) → any p xs ≡ true → any p (xs ++ ys) ≡ true
  any-grown p xs ys h = ground (arith, any-append p xs ys)

  pub any-new : (p : A → Bool) (xs ys : List A) → any p ys ≡ true → any p (xs ++ ys) ≡ true
  any-new p xs ys h = ground (arith, any-append p xs ys)

  -- A row that passes both tests is still there.
  pub any-filter_other :
      (p q : A → Bool) (xs : List A)
      → ((x : A) → p x ≡ true → q x ≡ true)
      → any p xs ≡ true
      → any p (filter q xs) ≡ true
  any-filter_other p q [] imp h = h
  any-filter_other p q (x ∷ xs) imp h = ground (arith, imp x, any-filter_other p q xs imp)

  pub all_both :
      (p q r : A → Bool) (xs : List A)
      → ((x : A) → p x ≡ true → q x ≡ false → r x ≡ true)
      → all p xs ≡ true
      → any q xs ≡ false
      → all r xs ≡ true
  all_both p q r [] imp h k = refl
  all_both p q r (x ∷ xs) imp h k = ground (arith, imp x, all_both p q r xs imp)

  pub find-none : (p : A → Bool) (xs : List A) → any p xs ≡ false → find p xs ≡ none
  find-none p [] h = refl
  find-none p (x ∷ xs) h = ground (arith, find-none p xs)

module _ {ℓ} {A : Type ℓ} where
  pub length-filter-le : (p : A → Bool) (xs : List A) → length (filter p xs) ≤ length xs
  length-filter-le p [] = omega arith
  length-filter-le p (x ∷ xs) = ground (arith, length-filter-le p xs)

  pub all-length-filter :
      (p : A → Bool) (xs : List A) → length (filter p xs) ≡ length xs → all p xs ≡ true
  all-length-filter p [] h = refl
  all-length-filter p (x ∷ xs) h = ground (arith, all-length-filter p xs, length-filter-le p xs)

  pub filter-all_same : (p : A → Bool) (xs : List A) → all p xs ≡ true → filter p xs ≡ xs
  filter-all_same p [] h = refl
  filter-all_same p (x ∷ xs) h = ground (arith, filter-all_same p xs)

  pub count-le_length : (p : A → Bool) (xs : List A) → count p xs ≤ length xs
  count-le_length p [] = omega arith
  count-le_length p (x ∷ xs) = ground (arith, count-le_length p xs)

  pub all-length-count : (p : A → Bool) (xs : List A) → length xs ≤ count p xs → all p xs ≡ true
  all-length-count p [] h = refl
  all-length-count p (x ∷ xs) h = ground (arith, all-length-count p xs, count-le_length p xs)

  pub count-or :
      (p q : A → Bool) (xs : List A) → count (λ x. p x || q x) xs ≤ count p xs + count q xs
  count-or p q [] = omega arith
  count-or p q (x ∷ xs) = ground (arith, count-or p q xs)

  pub any-all-not : (p : A → Bool) (xs : List A) → all (λ x. not (p x)) xs ≡ true → any p xs ≡ false
  any-all-not p [] h = refl
  any-all-not p (x ∷ xs) h = ground (arith, any-all-not p xs)
