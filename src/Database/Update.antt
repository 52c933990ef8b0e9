-- ===== src/Database/Update.antt =====
-- `job_update_info` (libdrqueue/job.c), which the master's consistency checks call for every job: it
-- counts the frames in each state in a copy of the table, checks each frame on the way, and sets the
-- counters, the times and the state of the job. Between the three parts that hold the lock no other
-- process runs here.
pub mod Counters
pub mod Keeps
pub mod Status
use drqueue.Prelude.{
  ℕ, zero, suc, ◌+◌, ◌-◌, ◌*◌, ◌/◌, Bool, true, false, not, ◌&&◌, ◌||◌, Option, none, some, ◌∷◌,
  ◌==◌, ltb, if◌then◌else◌, has_flag, u16, u32, u64,
}
use drqueue.Frame.{FrameInfo, fs_waiting, fs_assigned, fs_error, fs_finished, job_frame_info_init}
use drqueue.Job.{
  Job, is_set, jobstatus_waiting, jobstatus_active, jobstatus_stopped, jobstatus_finished,
  jf_mailnotify, jf_jobdelete,
}
use drqueue.Job.Numbering.{job_nframes}
use drqueue.Shm.{FrameTable, attach_frame_shared_memory}
use drqueue.Database.{
  Database, semaphore_lock, semaphore_release, put_job, job_index_correct_master,
}
use drqueue.Database.Registry.{job_delete}
use drqueue.Database.Frames.{job_check_frame_status}

-- The local counters. `frame_time` is the sum of the frames' times.
pub record Totals : Type 0 where
  pub nprocs : ℕ  -- uint16_t
  pub fleft : ℕ  -- uint32_t
  pub fdone : ℕ  -- uint32_t
  pub ffailed : ℕ  -- uint32_t
  pub frame_time : ℕ  -- uint64_t

abbrev pub no_totals : Totals
no_totals = record { nprocs = 0; fleft = 0; fdone = 0; ffailed = 0; frame_time = 0 }

-- The `switch` on the state of a frame. The times are uint32_t, and so is their difference.
unfoldable pub add_frame : FrameInfo → Totals → Totals
add_frame f t =
    if f.status == fs_assigned
    then record t { nprocs = u16 (t.nprocs + 1) }
    else if f.status == fs_waiting
    then record t { fleft = u32 (t.fleft + 1) }
    else if f.status == fs_finished
    then record t {
      fdone = u32 (t.fdone + 1);
      frame_time = u64 (t.frame_time + u32 (f.end_time + 4_294_967_296 - f.start_time));
    }
    else if f.status == fs_error
    then record t { ffailed = u32 (t.ffailed + 1) }
    else t

-- The copy of the table, where the call goes on; a job without frames has none to copy.
unfoldable pub update_copy : Database → ℕ → Option FrameTable
unfolding job_frame_info_init
update_copy wdb ijob =
    if not (job_index_correct_master wdb ijob)
    then none
    else if is_set (job_nframes (wdb.job ijob))
    then attach_frame_shared_memory wdb.shm (wdb.job ijob).fishmid
    else some (record { size = 0; cell = λ _. job_frame_info_init })

-- `k` rounds of the loop from frame `i` on; a check that fails ends the call.
unfoldable pub update_loop : ℕ → ℕ → Database → ℕ → FrameTable → Totals → Database × Option Totals
unfolding add_frame
update_loop zero i wdb ijob fi t = (wdb, some t)
update_loop (suc k) i wdb ijob fi t =
    let (wdb', good) = job_check_frame_status wdb ijob i fi in
    elim good [
      | true ↦ update_loop k (i + 1) wdb' ijob fi (add_frame (fi.cell i) t)
      | false ↦ (wdb', none)
    ]

-- The mean time of a finished frame.
abbrev pub mean_time : Totals → ℕ
mean_time t = if is_set t.fdone then t.frame_time / t.fdone else t.frame_time

-- The counters and the estimate.
unfoldable pub set_counters : ℕ → Totals → Job → Job
set_counters now t job =
    let counted = record job {
      nprocs = t.nprocs;
      fleft = t.fleft;
      fdone = t.fdone;
      ffailed = t.ffailed;
      avg_frame_time = if is_set t.fdone then u32 (mean_time t) else job.avg_frame_time;
    } in
    if is_set t.nprocs && (not (t.fdone == job.old_fdone) || not (t.nprocs == job.old_nprocs))
    then record counted {
      est_finish_time = u32 (now + u64 (mean_time t * u32 (t.fleft + t.nprocs)) / t.nprocs);
      old_fdone = t.fdone;
      old_nprocs = t.nprocs;
    }
    else counted

-- The job is finished: the mail, and the deletion, if it asks for them.
unfoldable pub finish_job : Database → ℕ → Job → Database
finish_job wdb ijob job =
    let finished = record job { status = jobstatus_finished; est_finish_time = u32 wdb.now } in
    let mailed =
      if has_flag job.flags jf_mailnotify
      then record wdb { mails = job.name ∷ wdb.mails }
      else wdb in
    if has_flag job.flags jf_jobdelete
    then (let (shm, deleted) = job_delete wdb.user wdb.shm finished in
        put_job (record mailed { shm = shm }) ijob deleted)
    else put_job mailed ijob finished

-- The `switch` on the state of the job, whose counters are set.
unfoldable pub set_status : Database → ℕ → Job → Database
unfolding finish_job
set_status wdb ijob job =
    if job.status == jobstatus_waiting || job.status == jobstatus_active
    then (if ltb 0 job.nprocs
        then put_job wdb ijob (record job { status = jobstatus_active })
        else if job.fleft == 0
        then finish_job wdb ijob job
        else put_job wdb ijob (record job { status = jobstatus_waiting }))
    else if job.status == jobstatus_finished && ltb 0 job.fleft
    then put_job wdb ijob (record job { status = jobstatus_waiting })
    else put_job wdb ijob job

-- The last part that holds the lock.
unfoldable pub update_job : Database → ℕ → Totals → Database
unfolding set_counters set_status
update_job wdb ijob t =
    let locked = semaphore_lock wdb in
    if not (job_index_correct_master locked ijob)
    then semaphore_release locked
    else semaphore_release (set_status locked ijob (set_counters wdb.now t (wdb.job ijob)))

unfoldable pub job_update_info : Database → ℕ → Database
unfolding update_copy update_loop update_job
job_update_info wdb ijob = elim (update_copy (semaphore_lock wdb) ijob) [
  | none ↦ semaphore_release wdb
  | some fi ↦
      let (wdb', totals) =
        update_loop (job_nframes (wdb.job ijob)) 0 (semaphore_release wdb) ijob fi no_totals in
      elim totals [ none ↦ wdb' | some t ↦ update_job wdb' ijob t ]
]
