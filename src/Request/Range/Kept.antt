-- ===== src/Request/Range/Kept.antt =====
-- What a new range leaves of the frames of a job.
use drqueue.Prelude.{ℕ, suc, ◌<◌, ◌≡◌, true, false, some, update}
use drqueue.Frame.{FrameInfo, job_frame_info_init}
use drqueue.Job.{Job}
use drqueue.Job.Numbering.{job_nframes, job_frame_number_to_index}
use drqueue.Shm.{FrameTable, discard, attach_frame_shared_memory}
use drqueue.Database.{Database, semaphore_lock, job_index_correct_master}
use drqueue.Request.Range.{NewRange, with_range, new_cells, range_updated}

-- The system has a segment for the frames of the new range, and the job has its old table, in a segment of its own.
pub record CanMove (wdb : Database) (ijob id : ℕ) (ofi : FrameTable) (new : Job) : Type 0 where
  pub correct : job_index_correct_master wdb ijob ≡ true
  pub frames : 0 < job_nframes new
  pub available : wdb.shm.full ≡ false
  pub attachable : wdb.shm.no_attach wdb.shm.next_id ≡ false
  pub mine : (wdb.job ijob).fishmid ≡ some id
  pub given : id < wdb.shm.next_id
  pub attached : attach_frame_shared_memory wdb.shm (some id) ≡ some ofi

-- The table that the job has after the call.
abbrev moved_table : Job → Job → FrameTable → FrameTable
moved_table old new ofi = record {
  size = job_nframes new;
  cell = new_cells old new ofi (record { size = job_nframes new; cell = λ _. job_frame_info_init });
}

abbrev fresh_table : Job → FrameTable
unfolding job_frame_info_init
fresh_table new = record { size = job_nframes new; cell = λ _. job_frame_info_init }

range_after : Database → ℕ → ℕ → NewRange → FrameTable → Database
unfolding range_updated
range_after wdb ijob id range ofi =
    let new = with_range (wdb.job ijob) range in
    let given : Database = record (semaphore_lock wdb) {
      shm = record wdb.shm {
        frame_seg = update wdb.shm.frame_seg wdb.shm.next_id (some (fresh_table new));
        next_id = suc wdb.shm.next_id;
      };
    } in
    let updated = range_updated given ijob new ofi (fresh_table new) wdb.shm.next_id in
    record updated {
      shm = record updated.shm { frame_seg = discard updated.shm.frame_seg (some id) };
    }

abbrev pub info_of : Job → FrameTable → ℕ → FrameInfo
info_of job fi n = fi.cell (job_frame_number_to_index job n)
