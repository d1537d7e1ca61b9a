-- ===== src/Tests/Instances.antt =====
-- A transaction manager, a lodash and a queue that keep what the parameters of the model promise.
use osm_sync_tracker.Common.Errors.{Error, SqlState}
use osm_sync_tracker.Prelude.{
  filter, arith, List, Bool, leb, ℕ, ◌≡◌, ◌*◌, not, ◌∷◌, contains, ◌++◌, false, ◌+◌, [], ◌==◌,
  length, Bool-cases, map, drop, refl, inl, ap, inr, none, true, ◌∙◌, some,
}
use osm_sync_tracker.Tables.{Db}
use osm_sync_tracker.Queue.Types.{JobQueueProvider, ClosureJob}
use osm_sync_tracker.Common.Action.{Action, ok, err}
use osm_sync_tracker.Common.Db.{Transactor, IsolationLevel}
use osm_sync_tracker.Common.Lodash.{Lodash, filter_from}
use osm_sync_tracker.Common.Utils.{Hashing}
use osm_sync_tracker.Queue.Bull.{Bull, BulkJob}

-- A transaction that is alone: what fails is rolled back.
abbrev run_alone : {A : Type 0} → IsolationLevel → Action Db A → Action Db A
run_alone level m db = elim (m db).0 [ ok a ↦ (ok a, (m db).1) | err e ↦ (err e, db) ]

module _ {A : Type 0} (level : IsolationLevel) (m : Action Db A) (db : Db) where
  pub run_alone-commits :
      (a : A) (db' : Db) → run_alone level m db ≡ (ok a, db') → m db ≡ (ok a, db')
  run_alone-commits a db' h = ground (arith, h)

  pub run_alone-rolls_back : (e : Error) (db' : Db) → run_alone level m db ≡ (err e, db') → db' ≡ db
  run_alone-rolls_back e db' h = ground (arith, h)

  pub run_alone-rethrows :
      (e : Error) (db' : Db) → m db ≡ (err e, db') → run_alone level m db ≡ (err e, db)
  run_alone-rethrows e db' h = ground (arith, h)

abbrev pub alone : Transactor
alone = record {
  run = λ level m. run_alone level m;
  keeps_own = λ db. false;
  commits = λ level m db a db' h. run_alone-commits level m db a db' h;
  rolls_back = λ level m db e db' h. run_alone-rolls_back level m db e db' h;
  rethrows = λ level m db e db' h. run_alone-rethrows level m db e db' h;
}

-- A transaction that always fails at its end, and whose repository's own calls stay.
abbrev run_lost : {A : Type 0} → IsolationLevel → Action Db A → Action Db A
run_lost level m db = elim (m db).0 [
  | ok a ↦ (err (Error.query_failed (some SqlState.serialization_failure)), db)
  | err e ↦ (err e, db)
]

module _ {A : Type 0} (level : IsolationLevel) (m : Action Db A) (db : Db) where
  pub run_lost-commits : (a : A) (db' : Db) → run_lost level m db ≡ (ok a, db') → m db ≡ (ok a, db')
  run_lost-commits a db' h = ground (arith, h)

  pub run_lost-rolls_back : (e : Error) (db' : Db) → run_lost level m db ≡ (err e, db') → db' ≡ db
  run_lost-rolls_back e db' h = ground (arith, h)

  pub run_lost-rethrows :
      (e : Error) (db' : Db) → m db ≡ (err e, db') → run_lost level m db ≡ (err e, db)
  run_lost-rethrows e db' h = ground (arith, h)

abbrev pub lost : Transactor
lost = record {
  run = λ level m. run_lost level m;
  keeps_own = λ db. true;
  commits = λ level m db a db' h. run_lost-commits level m db a db' h;
  rolls_back = λ level m db e db' h. run_lost-rolls_back level m db e db' h;
  rethrows = λ level m db e db' h. run_lost-rethrows level m db e db' h;
}

module _ {A : Type 0} where
  filter_comm : (p q : A → Bool) (xs : List A) → filter p (filter q xs) ≡ filter q (filter p xs)
  filter_comm p q [] = refl
  filter_comm p q (x ∷ xs) = ground (arith, filter_comm p q xs)

  filter_same :
      (p q : A → Bool) (xs : List A) → ((x : A) → p x ≡ q x) → filter p (filter q xs) ≡ filter p xs
  filter_same p q [] h = refl
  filter_same p q (x ∷ xs) h = ground (arith, h x, filter_same p q xs h)

module _ {A : Type 0} (key : A → ℕ) where
  abbrev other_key : A → A → Bool
  other_key x y = not (key x == key y)

  abbrev uniq : List A → List A
  uniq [] = []
  uniq (x ∷ xs) = x ∷ filter (other_key x) (uniq xs)

  other_key-eq : (x z y : A) → other_key x z ≡ false → other_key x y ≡ other_key z y
  other_key-eq x z y h = ground arith

  pub uniq-filter :
      (x : A) (xs : List A) → filter (other_key x) (uniq xs) ≡ uniq (filter (other_key x) xs)
  uniq-filter x [] = refl
  uniq-filter x (z ∷ zs) = elim (Bool-cases (other_key x z)) [
    | inl other ↦ rw other (
        ap (◌∷◌ z) (
          filter_comm (other_key x) (other_key z) (uniq zs)
          ∙ ap (filter (other_key z)) (uniq-filter x zs)))
    | inr same ↦ rw same (
        filter_same (other_key x) (other_key z) (uniq zs) (λ y. other_key-eq x z y same)
        ∙ uniq-filter x zs)
  ]

abbrev pub lodash : Lodash
lodash = record {
  uniq_by = λ key xs. uniq key xs;
  difference = λ xs ys. filter (λ x. not (contains x ys)) xs;
  includes = λ xs x from. contains x (drop from xs);
  filter_indexed = λ p xs. filter_from (λ x i. p x i xs) 0 xs;
  uniq_by-nil = λ key. refl;
  uniq_by-cons = λ key x xs. ap (◌∷◌ x) (uniq-filter key x xs);
  difference_lem = λ xs ys. refl;
  includes_lem = λ xs x from. refl;
  filter_indexed_lem = λ p xs. refl;
}

-- The order of the numbers, and a hash by which lists of other lengths or sums differ.
abbrev sum : List ℕ → ℕ
sum [] = 0
sum (x ∷ xs) = x + sum xs

abbrev pub hashing : Hashing
hashing = record { before = leb; digest = λ xs. 1000 * length xs + sum xs }

-- A queue that is the list of the jobs that were added to it.
abbrev pub list_queue : JobQueueProvider (List ClosureJob)
list_queue = record { push = λ jobs q. (ok tt, q ++ jobs) }

abbrev pub bull : Bull
bull = record {
  State = List ClosureJob;
  add = λ name job opts q. (ok tt, q ++ job ∷ []);
  add_bulk = λ jobs q. (ok tt, q ++ map (λ (j : BulkJob). j.payload) jobs);
  get_job = λ id q. (ok none, q);
  is_delayed = λ job q. (ok true, q);
  change_delay = λ job delay q. (ok tt, q);
  update_data = λ job payload q. (ok tt, q ++ payload ∷ []);
  move_to_delayed = λ job at q. (ok tt, q);
}
