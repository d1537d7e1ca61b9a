-- ===== src/Common/Utils.antt =====
-- src/common/utils: the hash of a batch, a number from an interval, and retries.
use osm_sync_tracker.Prelude.{
  ℕ, zero, suc, ◌+◌, ◌-◌, ◌*◌, Bool, true, false, List, [], ◌∷◌, if◌then◌else◌, ◌==◌,
}
use osm_sync_tracker.Common.Errors.{Error}
use osm_sync_tracker.Common.Action.{Action, ok, err}
use Prim.Native.Nat.{◌/◌}

-- `localeCompare` and SHA-256: `before a b` holds if `a.localeCompare(b)` is not positive, and
-- `digest` is the hash of the joined ids.
pub record Hashing : Type 0 where
  pub before : ℕ → ℕ → Bool
  pub digest : List ℕ → ℕ

module _ (h : Hashing) where
  open h use {before, digest}

  abbrev pub insert_sorted : ℕ → List ℕ → List ℕ
  insert_sorted x [] = x ∷ []
  insert_sorted x (y ∷ ys) =
      let rest = insert_sorted x ys in if before x y then x ∷ y ∷ ys else y ∷ rest

  -- `input.sort(…)`, which is stable.
  abbrev pub sort : List ℕ → List ℕ
  sort [] = []
  sort (x ∷ xs) = insert_sorted x (sort xs)

  -- The digest, and the array that the call leaves behind: `sort` works in place.
  unfoldable pub hash_batch : List ℕ → ℕ × List ℕ
  hash_batch input = let sorted = sort input in (digest sorted, sorted)

-- `Math.floor(Math.random() * (max - min + 1)) + min`, where the random number is the fraction
-- `part / whole` below 1.
unfoldable pub random_int_from_interval : (part whole min max : ℕ) → ℕ
random_int_from_interval part whole min max =
    if min == max then min else part * (max + 1 - min) / whole + min

module _ {S A : Type 0} (is_retry_error : Error → Bool) (func : Action S A) where
  -- The rounds that are left of the loop.
  abbrev pub retry_rounds : ℕ → Action S A
  retry_rounds zero s = (err Error.exceeded_number_of_retries, s)
  retry_rounds (suc rounds) s =
      let (r, s') = func s in
      elim r [
        | ok a ↦ (ok a, s')
        | err e ↦ elim (is_retry_error e) [ true ↦ retry_rounds rounds s' | false ↦ (err e, s') ]
      ]

  -- The loop runs while `i <= options.numberOfRetries`.
  unfoldable pub retry_function_wrapper : ℕ → Action S A
  retry_function_wrapper number_of_retries = retry_rounds (number_of_retries + 1)
