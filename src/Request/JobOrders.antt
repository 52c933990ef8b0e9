-- ===== src/Request/JobOrders.antt =====
-- The handlers by which a client orders something for a whole job (libdrqueue/request.c): stop, continue,
-- stop at once, run again, delete. The messages that kill tasks on the slaves are a result.
pub mod Rerun
use drqueue.Prelude.{
  ℕ, zero, suc, ◌+◌, Bool, true, false, not, Option, none, some, List, [], ◌∷◌, ◌==◌, if◌then◌else◌,
  update, leb,
}
use drqueue.Frame.{FrameInfo, fs_assigned}
use drqueue.Job.{Job, is_set, maxjobs}
use drqueue.Job.Numbering.{job_nframes}
use drqueue.Job.Status.{job_stop, job_continue}
use drqueue.Shm.{FrameTable, attach_frame_shared_memory, store_frames}
use drqueue.Database.{
  Database, semaphore_lock, semaphore_release, put_job, job_index_correct_master,
}
use drqueue.Database.Frames.{back_to_waiting}
use drqueue.Database.Registry.{job_delete}
use drqueue.Request.FrameOrders.{KillTask, task_of}

unfoldable pub handle_r_r_stopjob : Database → ℕ → Database
unfolding job_stop
handle_r_r_stopjob wdb ijob =
    if leb maxjobs ijob
    then wdb
    else if is_set (wdb.job ijob).used
    then semaphore_release (put_job (semaphore_lock wdb) ijob (job_stop (wdb.job ijob)))
    else semaphore_release (semaphore_lock wdb)

unfoldable pub handle_r_r_contjob : Database → ℕ → Database
unfolding job_continue
handle_r_r_contjob wdb ijob =
    if leb maxjobs ijob
    then wdb
    else if is_set (wdb.job ijob).used
    then semaphore_release (put_job (semaphore_lock wdb) ijob (job_continue (wdb.job ijob)))
    else semaphore_release (semaphore_lock wdb)

-- The loop that kills the task of every assigned frame: `k` rounds from frame `i` on.
unfoldable pub kill_assigned : ℕ → ℕ → Database → FrameTable → List KillTask
kill_assigned zero i wdb fi = []
kill_assigned (suc k) i wdb fi =
    let rest = kill_assigned k (i + 1) wdb fi in
    if (fi.cell i).status == fs_assigned then task_of wdb (fi.cell i) ∷ rest else rest

-- The record and the segments of a job are given back.
abbrev pub deleted : Database → ℕ → Database
deleted wdb ijob =
    let (shm, job) = job_delete wdb.user wdb.shm (wdb.job ijob) in
    put_job (record wdb { shm = shm }) ijob job

-- A wrong index leaves the semaphore locked, here and in the next two handlers.
unfoldable pub handle_r_r_hstopjob : Database → ℕ → Database × List KillTask
unfolding kill_assigned job_stop
handle_r_r_hstopjob wdb ijob =
    let locked = semaphore_lock wdb in
    let job = wdb.job ijob in
    if not (job_index_correct_master locked ijob)
    then (locked, [])
    else elim (attach_frame_shared_memory wdb.shm job.fishmid) [
      | none ↦ (semaphore_release (deleted locked ijob), [])
      | some fi ↦ (
        semaphore_release (put_job locked ijob (job_stop job)),
        kill_assigned (job_nframes job) 0 locked fi,
      )
    ]

-- The loop of the handler that runs a job again: the table that it leaves.
unfoldable pub rerun_frames : ℕ → ℕ → FrameTable → FrameTable
rerun_frames zero i fi = fi
rerun_frames (suc k) i fi =
    let f = fi.cell i in
    let f' = if f.status == fs_assigned then f else back_to_waiting f in
    rerun_frames k (i + 1) (record fi { cell = update fi.cell i f' })

unfoldable pub handle_r_r_rerunjob : Database → ℕ → Database × List KillTask
unfolding kill_assigned rerun_frames
handle_r_r_rerunjob wdb ijob =
    let locked = semaphore_lock wdb in
    let job = wdb.job ijob in
    if not (job_index_correct_master locked ijob)
    then (locked, [])
    else elim (attach_frame_shared_memory wdb.shm job.fishmid) [
      | none ↦ (semaphore_release (deleted locked ijob), [])
      | some fi ↦ (
        semaphore_release (record locked {
          shm = store_frames job.fishmid (rerun_frames (job_nframes job) 0 fi) wdb.shm;
        }),
        kill_assigned (job_nframes job) 0 locked fi,
      )
    ]

unfoldable pub handle_r_r_deletjob : Database → ℕ → Database × List KillTask
unfolding kill_assigned
handle_r_r_deletjob wdb ijob =
    let locked = semaphore_lock wdb in
    let job = wdb.job ijob in
    if not (job_index_correct_master locked ijob) then (locked, []) else (
      semaphore_release (deleted locked ijob),
      elim (attach_frame_shared_memory wdb.shm job.fishmid) [
        | none ↦ []
        | some fi ↦ kill_assigned (job_nframes job) 0 locked fi
      ],
    )
