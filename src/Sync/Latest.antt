-- ===== src/Sync/Latest.antt =====
-- Which sync is the latest: `getLatestSync` of src/sync/DAL/syncRepository.ts.
use text.Mathlib.Text.{◌==◌ as str_eq}
use osm_sync_tracker.Common.Enums.{GeometryType, Status}
use osm_sync_tracker.Tables.{Metadata, Json, SyncRow, Db, same_sync}
use osm_sync_tracker.Prelude.{
  String, not, All, ◌<◌, ◌≤◌, ◌⊎◌, ℕ, ◌≡◌, Bool, true, List, false, ◌||◌, arith, Option-cases,
  first_by, Option, any, some, filter, none, inl, ◌&&◌, inr, ◌∷◌, Bool-cases, sym, ◌∙◌,
  first_by_first, first_by-all, all-filter, [], first_by-filter-none, any-of-filter, refl,
}
use osm_sync_tracker.Sync.Repository.{
  is_fix_diff, counts_as_latest, get_latest_sync, is_later, is_latest_candidate,
}

-- A property of the metadata that says the sync is a fix diff.
abbrev pub says_fix_diff : String × Json → Bool
says_fix_diff (k, Json.str v) = str_eq k "isFixDiff" && str_eq v "true"
says_fix_diff _ = false

-- No metadata says that the sync is a fix diff, or the sync has failed.
abbrev pub is_full_diff : Option Metadata → Status → Bool
is_full_diff none status = true
is_full_diff (some m) Status.failed = true
is_full_diff (some m) _ = not (any says_fix_diff m)

-- A candidate: a sync of the layer and the geometry type, that is no rerun and no fix diff.
pub record IsCandidate (layer_id : ℕ) (geometry_type : GeometryType) (s : SyncRow) : Type 0 where
  pub layer : s.layer_id ≡ layer_id
  pub geometry : s.geometry_type ≡ geometry_type
  pub is_no_rerun : s.run_number ≡ 0
  pub counts : is_full_diff s.metadata s.status ≡ true

-- The one sync is not later than the other: its dump is older, or as old and it has not started later.
abbrev pub IsNotLater : SyncRow → SyncRow → Type 0
IsNotLater z s =
    (z.dump_date < s.dump_date) ⊎ ((z.dump_date ≡ s.dump_date) × (z.start_date ≤ s.start_date))

-- What it is to be the latest of the candidates.
abbrev pub IsLatest : ℕ → GeometryType → Db → Option SyncRow → Type 0
IsLatest layer_id geometry_type db none = All (λ z. ¬ IsCandidate layer_id geometry_type z) db.syncs
IsLatest layer_id geometry_type db (some s) =
    IsCandidate layer_id geometry_type s
    × (any (same_sync s) db.syncs ≡ true)
    × All (λ z. IsCandidate layer_id geometry_type z → IsNotLater z s) db.syncs

is_later_irrefl : (a : SyncRow) → is_later a a ≡ false
is_later_irrefl a = ground arith

is_later_asym : (a b : SyncRow) → is_later a b ≡ true → is_later b a ≡ false
is_later_asym a b h = ground arith

is_later_cotrans : (a b c : SyncRow) → is_later a c ≡ true → (is_later a b || is_later b c) ≡ true
is_later_cotrans a b c h = ground arith

module _ (before : SyncRow → SyncRow → Bool) (p : SyncRow → Bool) where
  pub first_by-filter-in :
      (xs : List SyncRow) (s : SyncRow)
      → first_by before (filter p xs) ≡ some s
      → any (same_sync s) xs ≡ true
  first_by-filter-in [] s h = cc
  first_by-filter-in (x ∷ xs) s h = elim (Bool-cases (p x)) [
    | inl passes ↦ elim (Option-cases (first_by before (filter p xs))) [
      | inl missing ↦ ground (arith, passes, h, missing)
      | inr (z, found) ↦ ground (arith, passes, h, found, first_by-filter-in xs z found)
    ]
    | inr fails ↦ ground (arith, fails, h, first_by-filter-in xs s)
  ]

is_fix_diff-says : (m : Metadata) → is_fix_diff m ≡ any says_fix_diff m
is_fix_diff-says [] = refl
is_fix_diff-says ((k, Json.str v) ∷ m) = ground (arith, is_fix_diff-says m)
is_fix_diff-says ((k, Json.null) ∷ m) = ground (arith, is_fix_diff-says m)
is_fix_diff-says ((k, Json.bool b) ∷ m) = ground (arith, is_fix_diff-says m)
is_fix_diff-says ((k, Json.num n) ∷ m) = ground (arith, is_fix_diff-says m)
is_fix_diff-says ((k, Json.arr xs) ∷ m) = ground (arith, is_fix_diff-says m)
is_fix_diff-says ((k, Json.obj fs) ∷ m) = ground (arith, is_fix_diff-says m)

counts_as_latest-full :
    (s : SyncRow) (o : Option Metadata) (status : Status)
    → s.metadata ≡ o
    → s.status ≡ status
    → counts_as_latest s ≡ is_full_diff s.metadata s.status
counts_as_latest-full s none status h k = ground (arith, h)
counts_as_latest-full s (some m) Status.failed h k = ground (arith, h, k)
counts_as_latest-full s (some m) Status.in_progress h k = ground (arith, h, k, is_fix_diff-says m)
counts_as_latest-full s (some m) Status.completed h k = ground (arith, h, k, is_fix_diff-says m)

no_later_order : (z s : SyncRow) → is_later z s ≡ false → IsNotLater z s
no_later_order z s h = ground arith

module _ (layer_id : ℕ) (geometry_type : GeometryType) where
  IsCandidate-sound :
      (s : SyncRow)
      → is_latest_candidate layer_id geometry_type s ≡ true
      → IsCandidate layer_id geometry_type s
  IsCandidate-sound s h = record {
    layer = ground (arith, h);
    geometry = ground (arith, h);
    is_no_rerun = ground (arith, h);
    counts = ground (arith, h, counts_as_latest-full s s.metadata s.status refl refl);
  }

  IsCandidate-complete :
      (s : SyncRow)
      → IsCandidate layer_id geometry_type s
      → is_latest_candidate layer_id geometry_type s ≡ true
  IsCandidate-complete s c = ground (
    arith,
    c.layer,
    c.geometry,
    c.is_no_rerun,
    c.counts,
    counts_as_latest-full s s.metadata s.status refl refl,
  )

  none_later :
      (s : SyncRow) (xs : List SyncRow)
      → any (λ z. is_latest_candidate layer_id geometry_type z && is_later z s) xs ≡ false
      → All (λ z. IsCandidate layer_id geometry_type z → IsNotLater z s) xs
  none_later s [] h = tt
  none_later s (z ∷ xs) h = (
    λ c. no_later_order z s (ground (arith, h, IsCandidate-complete z c)),
    none_later s xs (ground (arith, h)),
  )

  none_candidates :
      (xs : List SyncRow)
      → any (is_latest_candidate layer_id geometry_type) xs ≡ false
      → All (λ z. ¬ IsCandidate layer_id geometry_type z) xs
  none_candidates [] h = tt
  none_candidates (z ∷ xs) h =
      (λ c. ground (arith, h, IsCandidate-complete z c), none_candidates xs (ground (arith, h)))

-- The latest sync of a layer and geometry type is a stored candidate that no candidate is later than,
-- by dump date and then by start date; it is missing only where there is no candidate. A candidate is
-- a sync of the layer and geometry type that is no rerun, and that is not a fix diff or has failed.
pub get_latest_sync_lem :
    (layer_id : ℕ) (geometry_type : GeometryType) (db : Db)
    → IsLatest layer_id geometry_type db (get_latest_sync layer_id geometry_type db)
unfolding get_latest_sync
get_latest_sync_lem layer_id geometry_type db =
    let p = is_latest_candidate layer_id geometry_type in
    elim (Option-cases (first_by is_later (filter p db.syncs))) [
      | inl missing ↦ rw missing (
          none_candidates layer_id geometry_type db.syncs
            (first_by-filter-none is_later p db.syncs missing))
      | inr (s, found) ↦ rw found (
        IsCandidate-sound layer_id geometry_type s
            (first_by-all is_later p (filter p db.syncs) s found (all-filter p db.syncs)),
        first_by-filter-in is_later p db.syncs s found,
        none_later layer_id geometry_type s db.syncs (
            sym (any-of-filter p (λ z. is_later z s) db.syncs)
            ∙ first_by_first is_later is_later_irrefl is_later_asym is_later_cotrans
                (filter p db.syncs) s found),
      )
    ]
