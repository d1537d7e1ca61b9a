-- ===== src/Queue/Batches.antt =====
-- What the batching of `push` in src/queueProvider/queues/bullQueueProvider.ts does with the jobs.
use osm_sync_tracker.Queue.Provider.{batch_loop, batch_jobs, job_id_of, batch_job, push, add_bulk}
use osm_sync_tracker.Queue.Bull.{Bull}
use osm_sync_tracker.Prelude.{
  zero, suc, ℕ, ◌||◌, ◌&&◌, Bool, ◌≡◌, List, [], ◌∷◌, ◌++◌, length, get_or, refl, arith, ◌+◌, count,
  ◌==◌, flat_map, ◌<◌, map, take, ◌≤◌, none, some, All, drop, length-drop, length-take-le, true,
}
use osm_sync_tracker.Common.Utils.{Hashing, sort, insert_sorted, hash_batch}
use osm_sync_tracker.Tables.{Uuid}
use osm_sync_tracker.Queue.Types.{ClosureJob, ExtendedJobOptions, QueueOptions}

-- The ids of a batch job, as a worker that takes batches reads them.
abbrev pub ids_of_batch : ClosureJob → List Uuid
ids_of_batch job = get_or job.batch_ids []

-- How often an id stands in a list.
abbrev pub occurrences : Uuid → List Uuid → ℕ
occurrences id = count (λ x. x == id)

occurrences-append :
    (id : Uuid) (xs ys : List Uuid)
    → occurrences id (xs ++ ys) ≡ occurrences id xs + occurrences id ys
occurrences-append id [] ys = omega arith
occurrences-append id (x ∷ xs) ys = ground (arith, occurrences-append id xs ys)

module _ (h : Hashing) where
  occurrences-insert_sorted :
      (id x : Uuid) (xs : List Uuid)
      → occurrences id (insert_sorted h x xs) ≡ occurrences id (x ∷ xs)
  occurrences-insert_sorted id x [] = refl
  occurrences-insert_sorted id x (y ∷ ys) = ground (arith, occurrences-insert_sorted id x ys)

  pub occurrences-sort :
      (id : Uuid) (xs : List Uuid) → occurrences id (sort h xs) ≡ occurrences id xs
  occurrences-sort id [] = refl
  occurrences-sort id (x ∷ xs) =
      ground (arith, occurrences-insert_sorted id x (sort h xs), occurrences-sort id xs)

  length-insert_sorted :
      (x : Uuid) (xs : List Uuid) → length (insert_sorted h x xs) ≡ suc (length xs)
  length-insert_sorted x [] = refl
  length-insert_sorted x (y ∷ ys) = ground (arith, length-insert_sorted x ys)

  length-sort : (xs : List Uuid) → length (sort h xs) ≡ length xs
  length-sort [] = refl
  length-sort (x ∷ xs) = ground (arith, length-insert_sorted x (sort h xs), length-sort xs)

-- Each id stands before the next.
abbrev pub in_order : Hashing → List Uuid → Bool
in_order h [] = true
in_order h (x ∷ []) = true
in_order h (x ∷ y ∷ ys) = h.before x y && in_order h (y ∷ ys)

-- A job of at least one and at most `size` ids in order, under the hash of these ids.
abbrev pub IsBatch : Hashing → ℕ → ClosureJob → Type 0
IsBatch h size job =
    (0 < length (ids_of_batch job))
    × (length (ids_of_batch job) ≤ size)
    × (in_order h (ids_of_batch job) ≡ true)
    × (job.id ≡ h.digest (ids_of_batch job))

module _ (h : Hashing) (total : (a b : Uuid) → (h.before a b || h.before b a) ≡ true) where
  insert_sorted-in_order :
      (x : Uuid) (xs : List Uuid) → in_order h xs ≡ true → in_order h (insert_sorted h x xs) ≡ true
  insert_sorted-in_order x [] o = refl
  insert_sorted-in_order x (y ∷ []) o = ground (arith, total x y)
  insert_sorted-in_order x (y ∷ z ∷ zs) o =
      ground (arith, o, total x y, total x z, insert_sorted-in_order x (z ∷ zs))

  sort-in_order : (xs : List Uuid) → in_order h (sort h xs) ≡ true
  sort-in_order [] = refl
  sort-in_order (x ∷ xs) = insert_sorted-in_order x (sort h xs) (sort-in_order xs)

-- The jobs as batches of at most `size` ids, no id lost and none added.
pub record Batched (h : Hashing) (size : ℕ) (jobs batches : List ClosureJob) : Type 0 where
  pub same_ids :
      (id : Uuid)
      → occurrences id (flat_map ids_of_batch batches) ≡ occurrences id (map job_id_of jobs)
  pub are_batches : All (IsBatch h size) batches

length-map : (xs : List ClosureJob) → length (map job_id_of xs) ≡ length xs
length-map [] = refl
length-map (x ∷ xs) = ground (arith, length-map xs)

occurrences-take-drop :
    (id n : ℕ) (xs : List ClosureJob)
    → occurrences id (map job_id_of (take n xs)) + occurrences id (map job_id_of (drop n xs))
      ≡ occurrences id (map job_id_of xs)
occurrences-take-drop id zero xs = omega arith
occurrences-take-drop id (suc n) [] = refl
occurrences-take-drop id (suc n) (x ∷ xs) = ground (arith, occurrences-take-drop id n xs)

length-take-pos :
    (n : ℕ) (x : ClosureJob) (xs : List ClosureJob) → 0 < n → 0 < length (take n (x ∷ xs))
length-take-pos zero x xs h = omega arith
length-take-pos (suc n) x xs h = omega arith

module _ (h : Hashing) (total : (a b : Uuid) → (h.before a b || h.before b a) ≡ true) (size : ℕ)
    (pos : 0 < size) (first : ClosureJob) where
  batch_job-IsBatch :
      (j : ClosureJob) (js : List ClosureJob)
      → IsBatch h size (batch_job h first (take size (j ∷ js)))
  unfolding batch_job hash_batch
  batch_job-IsBatch j js =
      let slice = take size (j ∷ js) in
      let same = length-sort h (map job_id_of slice) in
      (
        omega (arith, same, length-map slice, length-take-pos size j js pos),
        omega (arith, same, length-map slice, length-take-le size (j ∷ js)),
        sort-in_order h total (map job_id_of slice),
        refl,
      )

  ids-batch_job :
      (id : Uuid) (slice : List ClosureJob)
      → occurrences id (ids_of_batch (batch_job h first slice))
        ≡ occurrences id (map job_id_of slice)
  unfolding batch_job hash_batch
  ids-batch_job id slice = occurrences-sort h id (map job_id_of slice)

  batch_loop-Batched :
      (fuel : ℕ) (jobs : List ClosureJob)
      → length jobs < fuel
      → (batches : List ClosureJob) × (batch_loop h size first fuel jobs ≡ some batches)
        × Batched h size jobs batches
  unfolding batch_loop
  batch_loop-Batched zero jobs enough = absurd (omega arith)
  batch_loop-Batched (suc fuel) [] enough =
      ([], refl, record { same_ids = λ id. refl; are_batches = tt })
  batch_loop-Batched (suc fuel) (j ∷ js) enough =
      let slice = take size (j ∷ js) in
      let left = drop size (j ∷ js) in
      let (batches, run, rest) =
        batch_loop-Batched fuel left (omega (arith, length-drop size (j ∷ js))) in
      (
        batch_job h first slice ∷ batches,
        rw run refl,
        record {
          same_ids = λ id. omega (
            arith,
            occurrences-append id (ids_of_batch (batch_job h first slice))
                (flat_map ids_of_batch batches),
            ids-batch_job id slice,
            rest.same_ids id,
            occurrences-take-drop id size (j ∷ js),
          );
          are_batches = (batch_job-IsBatch j js, rest.are_batches);
        },
      )

batch_jobs-Batched :
    (h : Hashing) (total : (a b : Uuid) → (h.before a b || h.before b a) ≡ true) (size : ℕ)
    (jobs : List ClosureJob)
    → 0 < size
    → (batches : List ClosureJob) × (batch_jobs h (some size) jobs ≡ some batches)
      × Batched h size jobs batches
unfolding batch_jobs
batch_jobs-Batched h total size [] pos =
    ([], refl, record { same_ids = λ id. refl; are_batches = tt })
batch_jobs-Batched h total size (j ∷ js) pos =
    batch_loop-Batched h total size pos j (suc (length (j ∷ js))) (j ∷ js) (omega arith)

module _ (bull : Bull) (o : ExtendedJobOptions) (h : Hashing) (options : QueueOptions) where
  -- Let the comparison of ids be total. With batching enabled and a positive size, a push of two
  -- jobs or more ends, whatever the number of jobs, in one bulk call with batch jobs: each of them
  -- holds at least one id, at most `size` ids, has them in order and stands under their hash, and
  -- together they hold every id as often as the pushed jobs do.
  pub push_batches :
      (total : (a b : Uuid) → (h.before a b || h.before b a) ≡ true) (size : ℕ) (j k : ClosureJob)
      (jobs : List ClosureJob)
      → options.enabled_batch_jobs ≡ true
      → options.max_batch_size ≡ some size
      → 0 < size
      → (batches : List ClosureJob) × (push bull o h options (j ∷ k ∷ jobs)
          ≡ some (add_bulk bull o batches))
        × Batched h size (j ∷ k ∷ jobs) batches
  unfolding push
  push_batches total size j k jobs enabled sized pos =
      let (batches, run, all_good) = batch_jobs-Batched h total size (j ∷ k ∷ jobs) pos in
      (batches, rw (enabled, sized, run) refl, all_good)

-- At a size of 0 the loop over one job or more does not end, whatever the fuel.
pub batch_loop_without_progress :
    (h : Hashing) (first j : ClosureJob) (js : List ClosureJob) (fuel : ℕ)
    → batch_loop h 0 first fuel (j ∷ js) ≡ none
unfolding batch_loop
batch_loop_without_progress h first j js zero = refl
batch_loop_without_progress h first j js (suc fuel) =
    rw (batch_loop_without_progress h first j js fuel) refl
