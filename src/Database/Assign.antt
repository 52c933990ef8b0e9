-- ===== src/Database/Assign.antt =====
-- Handing out frames (libdrqueue/job.c, libdrqueue/computer.c): the master reserves the first waiting
-- frame of a job for a computer, and later records the task that renders it.
pub mod Reserve
pub mod Once
pub mod Keeps
pub mod Many
use drqueue.Prelude.{
  ℕ, ◌+◌, ◌-◌, Bool, not, ◌&&◌, ◌||◌, Option, none, some, leb, ◌==◌, if◌then◌else◌, take, update,
  find_first, has_flag, u16, u32, sub32, CString,
}
use drqueue.Frame.{FrameInfo, fs_waiting, fs_assigned, no_task}
use drqueue.Job.{
  Job, is_set, jobstatus_waiting, jobstatus_active, jobstatus_finished, jf_jobdepend, maxnamelen,
}
use drqueue.Job.Numbering.{job_nframes, job_frame_index_to_number, job_frame_number_correct}
use drqueue.Shm.{FrameTable, attach_frame_shared_memory, store_frames}
use drqueue.Task.{Task, maxtasks, maxcmdlen, taskstatus_loading}
use drqueue.Computer.{Computer, ComputerStatus}
use drqueue.Database.{
  Database, semaphore_lock, semaphore_release, put_job, put_computer, job_index_correct_master,
  computer_index_correct_master,
}
use drqueue.Database.Limits.{job_limits_passed}

-- The first waiting frame among the first `nframes`.
abbrev pub first_waiting : ℕ → FrameTable → Option ℕ
first_waiting nframes fi = find_first nframes (λ i. (fi.cell i).status == fs_waiting)

abbrev pub reserved : ℕ → FrameInfo → FrameInfo
reserved icomp f = record f { status = fs_assigned; icomp = icomp; itask = no_task }

-- The writes of the loop at its hit, to the frame and to the job.
abbrev pub marked : ℕ → ℕ → FrameTable → FrameTable
marked icomp i fi = record fi { cell = update fi.cell i (reserved icomp (fi.cell i)) }

abbrev pub one_more : Job → Job
one_more job = record job { nprocs = u16 (job.nprocs + 1); fleft = sub32 job.fleft 1 }

abbrev pub reserve : Database → ℕ → FrameTable → ℕ → ℕ → Database
reserve wdb ijob fi i icomp = record wdb {
  shm = store_frames (wdb.job ijob).fishmid (marked icomp i fi) wdb.shm;
  job = update wdb.job ijob (one_more (wdb.job ijob));
}

-- The index (uint32_t) -1 is `none`.
unfoldable pub job_first_frame_available : Database → ℕ → ℕ → Database × Option ℕ
job_first_frame_available wdb ijob icomp =
    let job = wdb.job ijob in
    let nframes = job_nframes job in
    if is_set nframes
    then elim (attach_frame_shared_memory wdb.shm job.fishmid) [
      | none ↦ (wdb, none)
      | some fi ↦ elim (first_waiting nframes fi) [
        | none ↦ (wdb, none)
        | some i ↦ (reserve wdb ijob fi i icomp, some i)
      ]
    ]
    else (wdb, none)

-- A job that waits or is active, and whose job to wait for, if it has one, is finished.
abbrev pub is_ready : Database → Job → Bool
is_ready wdb job =
    (job.status == jobstatus_waiting || job.status == jobstatus_active)
    && not (
        has_flag job.flags jf_jobdepend
        && not ((wdb.job job.dependid).status == jobstatus_finished))

-- The frame is the result where the C function returns 1.
unfoldable pub job_available : Database → ℕ → ℕ → Database × Option ℕ
job_available wdb ijob icomp =
    let wdb = semaphore_lock wdb in
    if not (job_index_correct_master wdb ijob)
    then (semaphore_release wdb, none)
    else if not (is_ready wdb (wdb.job ijob))
    then (semaphore_release wdb, none)
    else let (wdb', passed) = job_limits_passed wdb ijob icomp in
      if not passed
      then (semaphore_release wdb', none)
      else let (wdb'', iframe) = job_first_frame_available wdb' ijob icomp in
        (semaphore_release wdb'', iframe)

unfoldable pub job_first_frame_available_no_icomp : Database → ℕ → Option ℕ
job_first_frame_available_no_icomp wdb ijob =
    let job = wdb.job ijob in
    let nframes = job_nframes job in
    if is_set nframes
    then elim (attach_frame_shared_memory wdb.shm job.fishmid) [
      | none ↦ none
      | some fi ↦ first_waiting nframes fi
    ]
    else none

unfoldable pub job_available_no_icomp : Database → ℕ → Database × Option ℕ
job_available_no_icomp wdb ijob =
    let wdb = semaphore_lock wdb in
    if not (job_index_correct_master wdb ijob)
    then (semaphore_release wdb, none)
    else if not (is_ready wdb (wdb.job ijob))
    then (semaphore_release wdb, none)
    else (semaphore_release wdb, job_first_frame_available_no_icomp wdb ijob)

-- The frame as `job_update_assigned` leaves it.
abbrev pub task_recorded : ℕ → ℕ → ℕ → Job → FrameInfo → FrameInfo
task_recorded now icomp itask job f = record f {
  status = fs_assigned;
  icomp = icomp;
  itask = itask;
  start_time = u32 now;
  end_time = u32 (u32 now + job.avg_frame_time);
  exitcode = 0;
}

-- Called with the lock held.
unfoldable pub job_update_assigned : Database → ℕ → ℕ → ℕ → ℕ → Database
job_update_assigned wdb ijob iframe icomp itask =
    let job = wdb.job ijob in
    if not (job_index_correct_master wdb ijob)
    then wdb
    else if not (job_frame_number_correct job (job_frame_index_to_number job iframe))
    then wdb
    else elim (attach_frame_shared_memory wdb.shm job.fishmid) [
      | none ↦ wdb
      | some fi ↦
          let f = task_recorded wdb.now icomp itask job (fi.cell iframe) in
          let fi' = record fi { cell = update fi.cell iframe f } in
          let status = if is_set job.nprocs then jobstatus_active else job.status in
          record wdb {
            shm = store_frames job.fishmid fi' wdb.shm;
            job = update wdb.job ijob (record job { status = status });
          }
    ]

-- The task as `computer_update_assigned` leaves it.
abbrev pub task_assigned : Job → ℕ → ℕ → ℕ → ℕ → Task → Task
task_assigned job ijob iframe icomp itask task = record task {
  used = 1;
  status = taskstatus_loading;
  jobname = take (maxnamelen - 1) job.name;
  ijob = ijob;
  icomp = icomp;
  jobcmd = take (maxcmdlen - 1) job.cmd;
  owner = take (maxnamelen - 1) job.owner;
  frame = job_frame_index_to_number job iframe;
  frame_start = job.frame_start;
  frame_end = job.frame_end;
  frame_step = job.frame_step;
  block_size = job.block_size;
  frame_pad = job.frame_pad;
  pid = 0;
  exitstatus = 0;
  itask = itask;
}

-- Called with the lock held.
unfoldable pub computer_update_assigned : Database → ℕ → ℕ → ℕ → ℕ → Database
computer_update_assigned wdb ijob iframe icomp itask =
    let computer = wdb.computer icomp in
    let status = computer.status in
    if not (job_index_correct_master wdb ijob)
    then wdb
    else if not (computer_index_correct_master wdb icomp)
    then wdb
    else if leb maxtasks itask
    then wdb
    else let task = task_assigned (wdb.job ijob) ijob iframe icomp itask (status.task itask) in
      put_computer wdb icomp (record computer {
        status = record status {
          task = update status.task itask task;
          ntasks = u16 (status.ntasks + 1);
          nrunning = u16 (status.nrunning + 1);
        };
      })
