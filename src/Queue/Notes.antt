-- ===== src/Queue/Notes.antt =====
-- The calls of bullmq that write, noted.
use osm_sync_tracker.Prelude.{ℕ, List, [], ◌∷◌, ◌++◌}
use osm_sync_tracker.Queue.Types.{ClosureJob}
use osm_sync_tracker.Queue.Bull.{Bull}

-- A call that writes a job.
pub data WriteCall : Type 0 where
  added updated : ClosureJob → WriteCall
  moved : ℕ → WriteCall

-- The queue with its writes noted, whether they succeed or not.
abbrev pub noted : Bull → Bull
noted b = record {
  State = b.State × List WriteCall;
  add = λ name job opts (s, calls).
      let (r, s') = b.add name job opts s in (r, (s', calls ++ added job ∷ []));
  add_bulk = λ jobs (s, calls). let (r, s') = b.add_bulk jobs s in (r, (s', calls));
  get_job = λ id (s, calls). let (r, s') = b.get_job id s in (r, (s', calls));
  is_delayed = λ job (s, calls). let (r, s') = b.is_delayed job s in (r, (s', calls));
  change_delay =
      λ job delay (s, calls). let (r, s') = b.change_delay job delay s in (r, (s', calls));
  update_data = λ job payload (s, calls).
      let (r, s') = b.update_data job payload s in (r, (s', calls ++ updated payload ∷ []));
  move_to_delayed = λ job at (s, calls).
      let (r, s') = b.move_to_delayed job at s in (r, (s', calls ++ moved at ∷ []));
}
