-- ===== src/Database/Update/Keeps.antt =====
-- What `job_update_info` (libdrqueue/job.c) leaves as it was.
use drqueue.Prelude.{ℕ, ◌<◌, ◌≡◌, ap, ◌∙◌, true, false, some, has_flag, arith}
use drqueue.Job.{jf_jobdelete}
use drqueue.Job.Numbering.{HasRange, job_nframes}
use drqueue.Shm.{FrameTable, attach_frame_shared_memory}
use drqueue.Database.{Database, semaphore_lock, semaphore_release, job_index_correct_master}
use drqueue.Database.Frames.{frame_running}
use drqueue.Database.Update.{Totals, no_totals, set_counters, update_job, job_update_info}
use drqueue.Database.Update.Counters.{
  none-Tallied, update_loop-Tallied, set_status_keeps, set_counters_sets, update_job_lem,
  update_copy_lem, correct_released,
}

update_job_keeps :
    (wdb : Database) (ijob : ℕ) (t : Totals)
    → job_index_correct_master wdb ijob ≡ true
    → has_flag (wdb.job ijob).flags jf_jobdelete ≡ false
    → ((update_job wdb ijob t).shm ≡ wdb.shm)
      × (((update_job wdb ijob t).job ijob).fishmid ≡ (wdb.job ijob).fishmid)
update_job_keeps wdb ijob t correct keep =
    let (id, n, flags, left, running, failed, done) = set_counters_sets wdb.now t (wdb.job ijob) in
    let (same, status, est, e) =
      set_status_keeps (semaphore_lock wdb) ijob (set_counters wdb.now t (wdb.job ijob))
        (ap (λ f. has_flag f jf_jobdelete) flags ∙ keep) in
    rw (update_job_lem wdb ijob t correct) (same, ap (λ j. j.fishmid) e ∙ id)

-- The frames of a job whose frames all pass the check.
pub update_info_keeps :
    (wdb : Database) (ijob : ℕ) (fi : FrameTable)
    → job_index_correct_master wdb ijob ≡ true
    → HasRange (wdb.job ijob)
    → job_nframes (wdb.job ijob) < 65_536
    → has_flag (wdb.job ijob).flags jf_jobdelete ≡ false
    → attach_frame_shared_memory wdb.shm (wdb.job ijob).fishmid ≡ some fi
    → ((i : ℕ) → i < job_nframes (wdb.job ijob) → frame_running wdb ijob (fi.cell i) ≡ true)
    → let after = job_update_info wdb ijob in
      (after.shm ≡ wdb.shm) × ((after.job ijob).fishmid ≡ (wdb.job ijob).fishmid)
unfolding job_update_info
update_info_keeps wdb ijob fi correct h few keep attached running =
    let (t, e, c) =
      update_loop-Tallied wdb ijob fi correct h few running (job_nframes (wdb.job ijob)) 0 no_totals
        (omega arith) (none-Tallied fi) in
    rw
      (
        job_update_info,
        update_copy_lem wdb ijob fi correct h attached,
        ap (λ r. r.1) e,
        ap (λ r. r.0) e,
      )
      (update_job_keeps (semaphore_release wdb) ijob t (correct_released wdb ijob ∙ correct) keep)
