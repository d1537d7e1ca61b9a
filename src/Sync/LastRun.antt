-- ===== src/Sync/LastRun.antt =====
-- The last run of a sync: `findOneSyncWithLastRerun` of src/sync/DAL/syncRepository.ts.
use mathlib.Core.Path.{subst}
use osm_sync_tracker.Prelude.{
  sym, Option-cases, first_by, first_by-filter-none, first_by-all, all-filter, any-of-filter,
  first_by_first, All, ◌≢◌, ◌≤◌, ◌⊎◌, ◌&&◌, true, false, none, some, List, [], ◌∷◌, ◌≡◌, refl, ◌∙◌,
  arith, filter, any, inl, inr,
}
use osm_sync_tracker.Sync.Latest.{first_by-filter-in}
use osm_sync_tracker.Sync.Numbers.{runs_after_irrefl, runs_after_asym, runs_after_cotrans}
use osm_sync_tracker.Tables.{same_sync, Uuid, Db, SyncRow}
use osm_sync_tracker.Sync.Repository.{
  runs_after, is_rerun_of, find_one_sync_with_last_rerun, find_one_sync,
}
use osm_sync_tracker.Sync.Rerun.{latest_run_id}

-- The last run of a sync: the sync itself if nothing reruns it, and otherwise a stored rerun of it
-- that no rerun of it has a higher number than.
abbrev pub IsLastRun : Uuid → Db → Uuid → Type 0
IsLastRun base db run =
    ((run ≡ base) × All (λ z. z.base_sync_id ≢ some base) db.syncs)
    ⊎ ((r : SyncRow) × (r.id ≡ run)
        × (any (same_sync r) db.syncs ≡ true)
        × (r.base_sync_id ≡ some base)
        × All (λ z. z.base_sync_id ≡ some base → z.run_number ≤ r.run_number) db.syncs)

module _ (base : Uuid) where
  no_reruns :
      (xs : List SyncRow)
      → any (is_rerun_of base) xs ≡ false
      → All (λ z. z.base_sync_id ≢ some base) xs
  no_reruns [] h = tt
  no_reruns (z ∷ xs) h = (λ k. ground (arith, h, k), no_reruns xs (ground (arith, h)))

  none_higher :
      (r : SyncRow) (xs : List SyncRow)
      → any (λ z. is_rerun_of base z && runs_after z r) xs ≡ false
      → All (λ z. z.base_sync_id ≡ some base → z.run_number ≤ r.run_number) xs
  none_higher r [] h = tt
  none_higher r (z ∷ xs) h = (λ k. ground (arith, h, k), none_higher r xs (ground (arith, h)))

  latest_none :
      (db : Db) (s : SyncRow)
      → find_one_sync base db ≡ some s
      → first_by runs_after (filter (is_rerun_of base) db.syncs) ≡ none
      → latest_run_id base db ≡ base
  unfolding find_one_sync_with_last_rerun
  latest_none db s found missing = ground (arith, found, missing)

  latest_some :
      (db : Db) (s r : SyncRow)
      → find_one_sync base db ≡ some s
      → first_by runs_after (filter (is_rerun_of base) db.syncs) ≡ some r
      → latest_run_id base db ≡ r.id
  unfolding find_one_sync_with_last_rerun
  latest_some db s r found last = ground (arith, found, last)

pub latest_run_id-IsLastRun :
    (base : Uuid) (db : Db) (s : SyncRow)
    → find_one_sync base db ≡ some s
    → IsLastRun base db (latest_run_id base db)
unfolding find_one_sync_with_last_rerun
latest_run_id-IsLastRun base db s found =
    let p = is_rerun_of base in
    elim (Option-cases (first_by runs_after (filter p db.syncs))) [
      | inl missing ↦
          subst (IsLastRun base db) (sym (latest_none base db s found missing)) (
            inl
              (refl, no_reruns base db.syncs (first_by-filter-none runs_after p db.syncs missing)))
      | inr (r, last) ↦ subst (IsLastRun base db) (sym (latest_some base db s r found last)) (
          inr (
            r,
            refl,
            first_by-filter-in runs_after p db.syncs r last,
            ground (
              arith,
              first_by-all runs_after p (filter p db.syncs) r last (all-filter p db.syncs),
            ),
            none_higher base r db.syncs (
                sym (any-of-filter p (λ z. runs_after z r) db.syncs)
                ∙ first_by_first runs_after runs_after_irrefl runs_after_asym runs_after_cotrans
                    (filter p db.syncs) r last),
          ))
    ]
