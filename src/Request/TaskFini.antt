-- ===== src/Request/TaskFini.antt =====
-- `handle_r_r_taskfini` (libdrqueue/request.c): a slave reports that a task has ended, and the frame
-- of the task becomes finished, failed, or waiting again.
pub mod Keeps
use drqueue.Prelude.{
  ℕ, ◌+◌, ◌-◌, ◌%◌, Bool, true, false, not, ◌&&◌, ◌||◌, Option, none, some, ltb, ◌==◌,
  if◌then◌else◌, update, has_flag, str_eq, u16, u32, sub16,
}
use drqueue.Frame.{FrameInfo, fs_waiting, fs_assigned, fs_error, fs_finished, ff_requeue}
use drqueue.Job.{Job, is_set}
use drqueue.Job.Numbering.{job_frame_number_correct, job_frame_number_to_index}
use drqueue.Shm.{FrameTable, attach_frame_shared_memory, store_frames}
use drqueue.Task.{Task}
use drqueue.Database.{
  Database, semaphore_lock, semaphore_release, put_job, job_index_correct_master,
}
use drqueue.Database.Registry.{job_delete}

abbrev pub max_requeues : ℕ
max_requeues = 3

-- DR_WIFEXITED, DR_WEXITSTATUS, DR_WIFSIGNALED and DR_WTERMSIG.
abbrev pub exited : ℕ → Bool
exited stat = has_flag stat 8

abbrev pub exit_status : ℕ → ℕ
exit_status stat = stat % 256

abbrev pub signaled : ℕ → Bool
signaled stat = has_flag stat 9

abbrev pub term_sig : ℕ → ℕ
term_sig stat = stat % 256

-- SIGTERM, SIGINT and SIGKILL: somebody killed the process.
abbrev pub is_kill : ℕ → Bool
is_kill sig = sig == 15 || sig == 2 || sig == 9

-- The counter of the job that is incremented.
pub data Tally : Type 0 where
  no_counter left done failed : Tally

-- What becomes of a frame.
abbrev pub requeue : FrameInfo → FrameInfo
requeue f = record f { status = fs_waiting; start_time = 0; requeued = u16 (f.requeued + 1) }

abbrev pub fail : ℕ → FrameInfo → FrameInfo
fail now f = record f { status = fs_error; end_time = u32 now }

unfoldable pub frame_exited : ℕ → ℕ → FrameInfo → FrameInfo × Tally
frame_exited now stat f =
    if has_flag f.flags ff_requeue && ltb f.requeued max_requeues
    then (requeue f, left)
    else (record f { status = fs_finished; exitcode = exit_status stat; end_time = u32 now }, done)

abbrev pub untimed : FrameInfo × Tally → FrameInfo × Tally
untimed (f, tally) = (record f { start_time = 0; end_time = 0 }, tally)

frame_killed : ℕ → ℕ → FrameInfo → FrameInfo × Tally
frame_killed now auto_requeue f = untimed (
    if f.status == fs_assigned
    then (if is_set auto_requeue && ltb f.requeued max_requeues
        then (requeue f, left)
        else (fail now f, failed))
    else (f, no_counter))

-- `stat` is the exit status of the task.
unfoldable pub frame_ended : ℕ → ℕ → ℕ → FrameInfo → FrameInfo × Tally
unfolding frame_exited frame_killed
frame_ended now auto_requeue stat f =
    if exited stat
    then frame_exited now stat f
    else if signaled stat
    then (if is_kill (term_sig stat) then frame_killed now auto_requeue f else (fail now f, failed))
    else if f.status == fs_assigned
    then (fail now f, failed)
    else (f, no_counter)

abbrev pub tally_job : Tally → Job → Job
tally_job no_counter job = job
tally_job left job = record job { fleft = u32 (job.fleft + 1) }
tally_job done job = record job { fdone = u32 (job.fdone + 1) }
tally_job failed job = record job { ffailed = u32 (job.ffailed + 1) }

abbrev pub one_less : Job → Job
one_less job = record job { nprocs = if is_set job.nprocs then sub16 job.nprocs 1 else job.nprocs }

-- With the frame memory attached: the job and the table after the report.
unfoldable pub task_ended : ℕ → Task → Job → FrameTable → Job × FrameTable
unfolding frame_ended
task_ended now task job fi =
    if job_frame_number_correct job task.frame
    then (let iframe = job_frame_number_to_index job task.frame in
        let (f, tally) = frame_ended now job.auto_requeue task.exitstatus (fi.cell iframe) in
        (tally_job tally (one_less job), record fi { cell = update fi.cell iframe f }))
    else (one_less job, fi)

-- From the lock on, with the task received.
unfoldable pub taskfini_locked : Database → Task → Database
unfolding task_ended
taskfini_locked wdb task =
    let job = wdb.job task.ijob in
    if not (job_index_correct_master wdb task.ijob)
    then semaphore_release wdb
    else if not (str_eq task.jobname job.name)
    then semaphore_release wdb
    else elim (attach_frame_shared_memory wdb.shm job.fishmid) [
      | none ↦
          let (shm, job') = job_delete wdb.user wdb.shm job in
          semaphore_release (put_job (record wdb { shm = shm }) task.ijob job')
      | some fi ↦
          let (job', fi') = task_ended wdb.now task job fi in
          semaphore_release
            (put_job (record wdb { shm = store_frames job.fishmid fi' wdb.shm }) task.ijob job')
    ]

-- `sent` is the success of the answer, which always is RERR_NOERROR, and `received` the task, if it
-- arrived. Whether the slave is registered makes no difference.
unfoldable pub handle_r_r_taskfini : Database → Bool → Option Task → Database
unfolding taskfini_locked
handle_r_r_taskfini wdb false received = wdb
handle_r_r_taskfini wdb true none = wdb
handle_r_r_taskfini wdb true (some task) = taskfini_locked (semaphore_lock wdb) task
