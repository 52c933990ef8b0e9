-- ===== src/Database/Update/Status.antt =====
-- The state that `job_update_info` (libdrqueue/job.c) gives a job.
use drqueue.Prelude.{
  ℕ, ◌<◌, ◌≡◌, ◌||◌, ◌&&◌, ◌⊎◌, ◌↔◌, true, false, ltb, ◌==◌, if◌then◌else◌, has_flag, arith, ◌∙◌,
}
use drqueue.Job.{
  Job, jobstatus_waiting, jobstatus_active, jobstatus_stopped, jobstatus_finished, jf_jobdelete,
}
use drqueue.Database.{Database, semaphore_lock, job_index_correct_master}
use drqueue.Database.Update.{Totals, set_counters, finish_job, set_status, update_job}

-- The state by the old one and the new counters.
unfoldable next_status : ℕ → ℕ → ℕ → ℕ
next_status status nprocs fleft =
    if status == jobstatus_waiting || status == jobstatus_active
    then (if ltb 0 nprocs
        then jobstatus_active
        else if fleft == 0
        then jobstatus_finished
        else jobstatus_waiting)
    else if status == jobstatus_finished && ltb 0 fleft
    then jobstatus_waiting
    else status

set_counters_keeps :
    (now : ℕ) (t : Totals) (job : Job)
    → let after = set_counters now t job in
      (after.status ≡ job.status)
      × (after.flags ≡ job.flags)
      × (after.nprocs ≡ t.nprocs)
      × (after.fleft ≡ t.fleft)
unfolding set_counters
set_counters_keeps now t job = ground arith

set_status_lem :
    (wdb : Database) (ijob : ℕ) (job : Job)
    → has_flag job.flags jf_jobdelete ≡ false
    → ((set_status wdb ijob job).job ijob).status ≡ next_status job.status job.nprocs job.fleft
unfolding set_status finish_job next_status
set_status_lem wdb ijob job keep = ground arith

update_job_status :
    (wdb : Database) (ijob : ℕ) (t : Totals)
    → job_index_correct_master wdb ijob ≡ true
    → has_flag (wdb.job ijob).flags jf_jobdelete ≡ false
    → ((update_job wdb ijob t).job ijob).status ≡ next_status (wdb.job ijob).status t.nprocs t.fleft
unfolding update_job job_index_correct_master
update_job_status wdb ijob t correct keep =
    let (status, flags, nprocs, fleft) = set_counters_keeps wdb.now t (wdb.job ijob) in
    let settled =
      set_status_lem (semaphore_lock wdb) ijob (set_counters wdb.now t (wdb.job ijob))
        (rw flags keep) in
    rw correct (settled ∙ ground arith)

-- The state that an update gives a job which is not deleted at its end. The job is active exactly when
-- it was waiting or active and some frame is being rendered; it is finished exactly when no frame
-- waits and it was finished, or it was waiting or active and none is being rendered; and it is stopped
-- exactly when it was.
pub update_job-Settled :
    (wdb : Database) (ijob : ℕ) (t : Totals)
    → job_index_correct_master wdb ijob ≡ true
    → has_flag (wdb.job ijob).flags jf_jobdelete ≡ false
    → let before = (wdb.job ijob).status in
      let after = ((update_job wdb ijob t).job ijob).status in
      ((after ≡ jobstatus_active)
        ↔ (((before ≡ jobstatus_waiting) ⊎ (before ≡ jobstatus_active)) × (0 < t.nprocs)))
      × ((after ≡ jobstatus_finished) ↔ (
          (t.fleft ≡ 0)
          × ((before ≡ jobstatus_finished)
              ⊎ (((before ≡ jobstatus_waiting) ⊎ (before ≡ jobstatus_active)) × (t.nprocs ≡ 0)))))
      × ((after ≡ jobstatus_stopped) ↔ (before ≡ jobstatus_stopped))
unfolding next_status
update_job-Settled wdb ijob t correct keep =
    let e = update_job_status wdb ijob t correct keep in
    rw e (ground arith, ground arith, ground arith)
