-- ===== src/Database/Frames.antt =====
-- The frames of a job against the tasks that render them (libdrqueue/job.c): putting a frame back to
-- waiting, and the check that a frame which the master has as assigned is being rendered.
use drqueue.Prelude.{
  ℕ, ◌+◌, Bool, true, false, not, ◌&&◌, ◌||◌, none, some, ◌==◌, if◌then◌else◌, update, str_eq, u16,
  sub16,
}
use drqueue.Frame.{FrameInfo, fs_waiting, fs_assigned, no_task}
use drqueue.Job.{Job, is_set}
use drqueue.Job.Numbering.{job_frame_index_to_number, job_frame_number_correct}
use drqueue.Shm.{FrameTable, attach_frame_shared_memory, store_frames}
use drqueue.Task.{Task, taskstatus_loading, taskstatus_running}
use drqueue.Database.{
  Database, semaphore_lock, semaphore_release, put_job, job_index_correct_master,
  computer_index_correct_master,
}

-- The three writes that put a frame back.
abbrev pub back_to_waiting : FrameInfo → FrameInfo
back_to_waiting f = record f {
  status = fs_waiting;
  start_time = 0;
  requeued = u16 (f.requeued + 1);
}

abbrev pub frame_back : ℕ → FrameTable → FrameTable
frame_back iframe fi = record fi { cell = update fi.cell iframe (back_to_waiting (fi.cell iframe)) }

-- The first two returns leave the semaphore locked.
unfoldable pub job_frame_waiting : Database → ℕ → ℕ → Database
job_frame_waiting wdb ijob iframe =
    let locked = semaphore_lock wdb in
    let job = wdb.job ijob in
    if not (job_index_correct_master locked ijob)
    then locked
    else if not (job_frame_number_correct job (job_frame_index_to_number job iframe))
    then locked
    else elim (attach_frame_shared_memory wdb.shm job.fishmid) [
      | none ↦ semaphore_release locked
      | some fi ↦
          let nprocs = if is_set job.nprocs then sub16 job.nprocs 1 else job.nprocs in
          semaphore_release (
            put_job
              (record locked { shm = store_frames job.fishmid (frame_back iframe fi) wdb.shm }) ijob
              (record job { nprocs = nprocs }))
    ]

-- Is the task the one that renders a frame of this job?
abbrev pub task_matches : Job → ℕ → Task → Bool
task_matches job ijob task =
    (task.status == taskstatus_running || task.status == taskstatus_loading)
    && task.ijob == ijob
    && str_eq task.jobname job.name

-- The variable `running`. The index of the computer is cut to uint16_t, the index of the task is not
-- checked, and the index of the job is known to be correct.
unfoldable pub frame_running : Database → ℕ → FrameInfo → Bool
frame_running wdb ijob f =
    let task = (wdb.computer (u16 f.icomp)).status.task f.itask in
    if not (f.status == fs_assigned)
    then true
    else if not (computer_index_correct_master wdb (u16 f.icomp))
    then false
    else if f.itask == no_task
    then true
    else if task.used == 0
    then false
    else task_matches (wdb.job ijob) ijob task

-- `fi` is the copy of the table that the caller made before.
unfoldable pub job_check_frame_status : Database → ℕ → ℕ → FrameTable → Database × Bool
unfolding frame_running
job_check_frame_status wdb ijob iframe fi =
    let locked = semaphore_lock wdb in
    let job = wdb.job ijob in
    if not (job_index_correct_master locked ijob)
    then (semaphore_release locked, false)
    else if not (job_frame_number_correct job (job_frame_index_to_number job iframe))
    then (semaphore_release locked, false)
    else if frame_running locked ijob (fi.cell iframe)
    then (semaphore_release locked, true)
    else elim (attach_frame_shared_memory wdb.shm job.fishmid) [
      | none ↦ (semaphore_release locked, false)
      | some fitmp ↦ (
        semaphore_release
            (record locked { shm = store_frames job.fishmid (frame_back iframe fitmp) wdb.shm }),
        true,
      )
    ]
