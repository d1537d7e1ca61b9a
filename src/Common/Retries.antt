-- ===== src/Common/Retries.antt =====
-- How often a call is repeated: `retryFunctionWrapper` of src/common/utils/retryFunctionWrapper.ts.
use mathlib.Core.Path.{subst}
use osm_sync_tracker.Common.Action.{Action, Result, ok, err}
use osm_sync_tracker.Prelude.{Bool, ℕ, ltb, false, ◌+◌, ◌≤◌, ◌<◌, arith, ◌&&◌, suc, ◌≡◌, zero}
use osm_sync_tracker.Common.Errors.{Error}
use osm_sync_tracker.Common.Utils.{retry_rounds, retry_function_wrapper}

-- A result after which the function is called once more, if rounds are left.
abbrev pub calls_again : {A : Type 0} → (Error → Bool) → Result A → Bool
calls_again is_retry_error (ok a) = false
calls_again is_retry_error (err e) = is_retry_error e

module _ {S A : Type 0} (is_retry_error : Error → Bool) where
  -- The function, with its calls counted.
  abbrev pub counted : Action S A → Action (S × ℕ) A
  counted func (s, calls) = let (r, s') = func s in (r, (s', calls + 1))

  rounds_bound :
      (func : Action S A) (rounds : ℕ) (s : S) (calls : ℕ)
      → let out = retry_rounds is_retry_error (counted func) rounds (s, calls) in
        (calls ≤ out.1.1) × (out.1.1 ≤ calls + rounds)
  rounds_bound func zero s calls = ground arith
  rounds_bound func (suc rounds) s calls =
      ground (arith, rounds_bound func rounds (func s).1 (calls + 1))

  rounds_early :
      (func : Action S A) (rounds : ℕ) (s : S) (calls : ℕ)
      → let out = retry_rounds is_retry_error (counted func) rounds (s, calls) in
        (ltb out.1.1 (calls + rounds) && calls_again is_retry_error out.0) ≡ false
  rounds_early func zero s calls = ground arith
  rounds_early func (suc rounds) s calls =
      ground (arith, rounds_early func rounds (func s).1 (calls + 1))

  rounds_some :
      (func : Action S A) (rounds : ℕ) (s : S) (calls : ℕ)
      → calls < (retry_rounds is_retry_error (counted func) (suc rounds) (s, calls)).1.1
  rounds_some func rounds s calls = ground (arith, rounds_bound func rounds (func s).1 (calls + 1))

  -- With a number of retries, the function is called at least once and at most once more than that
  -- number, and if it is called less often then what it returned or threw last is not an error that
  -- calls for a retry.
  pub retry_function_wrapper_bound :
      (func : Action S A) (retries : ℕ) (s : S) (calls : ℕ)
      → let out = retry_function_wrapper is_retry_error (counted func) retries (s, calls) in
        (calls < out.1.1)
        × (out.1.1 ≤ calls + retries + 1)
        × ((ltb out.1.1 (calls + retries + 1) && calls_again is_retry_error out.0) ≡ false)
  unfolding retry_function_wrapper
  retry_function_wrapper_bound func retries s calls =
      let one_more : suc retries ≡ retries + 1 = omega arith in
      (
        subst (λ n. calls < (retry_rounds is_retry_error (counted func) n (s, calls)).1.1) one_more
            (rounds_some func retries s calls),
        omega (arith, (rounds_bound func (retries + 1) s calls).1),
        ground (arith, rounds_early func (retries + 1) s calls),
      )
