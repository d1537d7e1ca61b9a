-- ===== src/Sync/Numbers.antt =====
-- The run numbers of the reruns of a sync, as `rerunSyncIfNeeded` of
-- src/sync/models/syncManager.ts counts them.
use mathlib.Core.Path.{subst}
use osm_sync_tracker.Sync.Repository.{find_one_sync, last_rerun, is_rerun_of, runs_after}
use osm_sync_tracker.Prelude.{
  ◌≡◌, some, List, arith, any, false, ◌==◌, ◌∷◌, [], none, true, ℕ, Option-cases, ◌+◌, ◌&&◌,
  first_by, inl, inr, filter, first_by-filter-none, ◌||◌, leb, sym, refl, any-of-filter, ◌∙◌,
  first_by_first, ◌<◌, find_sound,
}
use osm_sync_tracker.Tables.{Db, SyncRow, Uuid}

pub runs_after_irrefl : (a : SyncRow) → runs_after a a ≡ false
runs_after_irrefl a = ground arith

pub runs_after_asym : (a b : SyncRow) → runs_after a b ≡ true → runs_after b a ≡ false
runs_after_asym a b h = ground arith

pub runs_after_cotrans :
    (a b c : SyncRow) → runs_after a c ≡ true → (runs_after a b || runs_after b c) ≡ true
runs_after_cotrans a b c h = ground arith

-- The number of the next run, given the last rerun.
abbrev pub next_number : List SyncRow → ℕ
next_number [] = 1
next_number (r ∷ rs) = r.run_number + 1

pub next_number-pos : (rs : List SyncRow) → 0 < next_number rs
next_number-pos [] = omega arith
next_number-pos (r ∷ rs) = omega arith

module _ (sync_id : Uuid) where
  pub found_id :
      (db : Db) (base : SyncRow)
      → find_one_sync sync_id db ≡ some base
      → (base.id == sync_id) ≡ true
  unfolding find_one_sync
  found_id db base h = find_sound (λ s. s.id == sync_id) db.syncs base h

  module _ (n : ℕ) where
    none_reaches :
        (xs : List SyncRow)
        → any (is_rerun_of sync_id) xs ≡ false
        → any (λ z. is_rerun_of sync_id z && leb n z.run_number) xs ≡ false
    none_reaches [] h = refl
    none_reaches (x ∷ xs) h = ground (arith, none_reaches xs)

  none_above :
      (r : SyncRow) (xs : List SyncRow)
      → any (λ z. is_rerun_of sync_id z && runs_after z r) xs ≡ false
      → any (λ z. is_rerun_of sync_id z && leb (r.run_number + 1) z.run_number) xs ≡ false
  none_above r [] h = refl
  none_above r (x ∷ xs) h = ground (arith, none_above r xs)

  module _ (db : Db) where
    pub none_last :
        first_by runs_after (filter (is_rerun_of sync_id) db.syncs) ≡ none
        → last_rerun sync_id db ≡ []
    none_last h = rw (h, last_rerun) refl

    pub some_last :
        (r : SyncRow)
        → first_by runs_after (filter (is_rerun_of sync_id) db.syncs) ≡ some r
        → last_rerun sync_id db ≡ r ∷ []
    some_last r h = rw (h, last_rerun) refl

  pub next_number-highest :
      (db : Db)
      → any
          (λ z. is_rerun_of sync_id z && leb (next_number (last_rerun sync_id db)) z.run_number)
          db.syncs
        ≡ false
  next_number-highest db =
      let p = is_rerun_of sync_id in
      elim (Option-cases (first_by runs_after (filter p db.syncs))) [
        | inl missing ↦
            subst (λ rs. any (λ z. p z && leb (next_number rs) z.run_number) db.syncs ≡ false)
              (sym (none_last db missing))
              (none_reaches 1 db.syncs (first_by-filter-none runs_after p db.syncs missing))
        | inr (r, found) ↦
            subst (λ rs. any (λ z. p z && leb (next_number rs) z.run_number) db.syncs ≡ false)
              (sym (some_last db r found))
              (none_above r db.syncs (
                sym (any-of-filter p (λ z. runs_after z r) db.syncs)
                ∙ first_by_first runs_after runs_after_irrefl runs_after_asym runs_after_cotrans
                    (filter p db.syncs) r found))
      ]
