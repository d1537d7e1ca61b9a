-- ===== src/Invariant/Reach.antt =====
-- The steps by which requests and jobs change the database, one after another, and the invariant over
-- them.
use osm_sync_tracker.Invariant.References.{IsReferring-facts}
use osm_sync_tracker.Tables.References.{IsReferring}
use osm_sync_tracker.Prelude.{◌≡◌, arith}
use osm_sync_tracker.Common.Db.{Transactor, IsolationLevel}
use osm_sync_tracker.Common.Lodash.{Lodash}
use osm_sync_tracker.Tables.{Date, Db}
use osm_sync_tracker.Sync.Repository.{attempt_sync_closure}
use osm_sync_tracker.File.Repository.{attempt_file_closure}
use osm_sync_tracker.Queue.Types.{ClosureJob, JobQueueProvider}
use osm_sync_tracker.Queue.Workers.{process_files_job, process_syncs_job}
use osm_sync_tracker.Http.Routes.{Request, serve}
use osm_sync_tracker.Sync.Manager.{get_syncs, get_latest_sync}
use osm_sync_tracker.Changeset.Manager.{get_changeset}
use osm_sync_tracker.Http.Syncs
use osm_sync_tracker.Http.Files
use osm_sync_tracker.Http.Entities
use osm_sync_tracker.Http.Changesets
use osm_sync_tracker.Invariant.Keeps.{Keeps}
use osm_sync_tracker.Invariant.Facts.{StatementsKeep}
use osm_sync_tracker.Invariant.Managers.{
  create_sync-keeps, update_sync-keeps, rerun_sync_if_needed-keeps, create_file-keeps,
  create_files-keeps, update_file-keeps, create_entity-keeps, create_entities-keeps,
  update_entity-keeps, update_entities-keeps, create_changeset-keeps, update_changeset-keeps,
  update_changeset_entities-keeps, transactionify-keeps,
}

module _ (t : Transactor) (l : Lodash) where
  -- The requests, and the jobs that close files and syncs. The queue that the files worker fills is
  -- any queue.
  pub data Step (db db' : Db) : Type 1 where
    request : (r : Request) → db' ≡ (serve t l r db).1 → Step db db'
    files_job :
        {Q : Type 0} (queue : JobQueueProvider Q) (q : Q) (level : IsolationLevel) (now : Date)
        (job : ClosureJob)
        → db' ≡ (process_files_job t level queue now job (record { db = db; queue = q })).1.db
        → Step db db'
    syncs_job :
        (level : IsolationLevel) (now : Date) (job : ClosureJob)
        → db' ≡ (process_syncs_job t level now job db).1
        → Step db db'

  pub data Reach (db : Db) : Db → Type 1 where
    here : Reach db db
    next : {d d' : Db} → Reach db d → Step d d' → Reach db d'

  module _ {I : Db → Type 0} (facts : StatementsKeep I) where
    files_job-keeps :
        {Q : Type 0} (queue : JobQueueProvider Q) (q : Q) (level : IsolationLevel) (now : Date)
        (job : ClosureJob) (db : Db)
        → I db
        → I (process_files_job t level queue now job (record { db = db; queue = q })).1.db
    unfolding process_files_job
    files_job-keeps queue q level now job db k = ground (
      arith,
      transactionify-keeps facts t level (attempt_file_closure now job.id)
          (facts.attempt_file_closure now job.id) db k,
    )

    syncs_job-keeps :
        (level : IsolationLevel) (now : Date) (job : ClosureJob)
        → Keeps I (process_syncs_job t level now job)
    unfolding process_syncs_job
    syncs_job-keeps level now job db k = ground (
      arith,
      transactionify-keeps facts t level (attempt_sync_closure now job.id)
          (facts.attempt_sync_closure now job.id) db k,
    )

    serve_keeps : (r : Request) (db : Db) → I db → I (serve t l r db).1
    unfolding serve Syncs.get_syncs Syncs.post_sync Syncs.get_latest_sync Syncs.patch_sync
        Syncs.rerun_sync Files.post_file Files.post_files Files.patch_file Entities.post_entity
        Entities.post_entities Entities.patch_entity Entities.patch_entities
        Changesets.post_changeset Changesets.get_changeset Changesets.patch_changeset
        Changesets.patch_changeset_entities get_syncs get_latest_sync get_changeset
    serve_keeps (Request.post_sync s) db k = ground (arith, create_sync-keeps facts s db k)
    serve_keeps (Request.patch_sync id u) db k = ground (arith, update_sync-keeps facts id u db k)
    serve_keeps (Request.rerun_sync now id r start b) db k =
        ground (arith, rerun_sync_if_needed-keeps facts t now id r start b db k)
    serve_keeps (Request.post_file id f) db k = ground (arith, create_file-keeps facts id f db k)
    serve_keeps (Request.post_files id fs) db k =
        ground (arith, create_files-keeps facts l id fs db k)
    serve_keeps (Request.patch_file id f u) db k =
        ground (arith, update_file-keeps facts id f u db k)
    serve_keeps (Request.post_entity id x) db k =
        ground (arith, create_entity-keeps facts id x db k)
    serve_keeps (Request.post_entities id xs) db k =
        ground (arith, create_entities-keeps facts l id xs db k)
    serve_keeps (Request.patch_entity id x u) db k =
        ground (arith, update_entity-keeps facts id x u db k)
    serve_keeps (Request.patch_entities us) db k =
        ground (arith, update_entities-keeps facts l us db k)
    serve_keeps (Request.post_changeset c) db k =
        ground (arith, create_changeset-keeps facts c db k)
    serve_keeps (Request.patch_changeset id u) db k =
        ground (arith, update_changeset-keeps facts id u db k)
    serve_keeps (Request.patch_changeset_entities id) db k =
        ground (arith, update_changeset_entities-keeps facts id db k)
    serve_keeps (Request.get_syncs f) db k = ground arith
    serve_keeps (Request.get_latest_sync n g) db k = ground arith
    serve_keeps (Request.get_changeset id) db k = ground arith

    Step_keeps : {db db' : Db} → Step db db' → I db → I db'
    Step_keeps {db} (request r e) k = rw e (serve_keeps r db k)
    Step_keeps {db} (files_job queue q level now job e) k =
        rw e (files_job-keeps queue q level now job db k)
    Step_keeps {db} (syncs_job level now job e) k = rw e (syncs_job-keeps level now job db k)

    Reach_keeps : {db db' : Db} → I db → Reach db db' → I db'
    Reach_keeps k here = k
    Reach_keeps k (next r s) = Step_keeps s (Reach_keeps k r)

  -- From a database in which every reference of a row names a row that is there, every sequence of
  -- requests and closure jobs leads to such a database, the deletions of a rerun included.
  pub Reach-IsReferring : {db db' : Db} → IsReferring db → Reach db db' → IsReferring db'
  Reach-IsReferring = Reach_keeps IsReferring-facts
