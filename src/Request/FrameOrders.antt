-- ===== src/Request/FrameOrders.antt =====
-- The handlers by which a client orders something for one frame of a job (libdrqueue/request.c). `frame` is
-- the number of the frame, if it arrived; the message that kills a task on a slave is a result.
pub mod Again
use drqueue.Prelude.{
  ℕ, ◌+◌, Bool, true, false, not, ◌||◌, Option, none, some, List, [], ◌∷◌, CString, ◌==◌,
  if◌then◌else◌, update, has_flag, u16, u32, sub32,
}
use drqueue.Frame.{FrameInfo, fs_waiting, fs_assigned, fs_error, fs_finished, ff_requeue}
use drqueue.Job.{Job}
use drqueue.Job.Numbering.{job_frame_number_correct, job_frame_number_to_index}
use drqueue.Shm.{FrameTable, attach_frame_shared_memory, store_frames}
use drqueue.Database.{
  Database, semaphore_lock, semaphore_release, put_job, job_index_correct_master,
}
use drqueue.Database.Frames.{back_to_waiting}
use drqueue.Database.Registry.{job_delete}

-- `request_slave_killtask`: the address of the slave and the index of the task.
pub record KillTask : Type 0 where
  pub address : CString
  pub itask : ℕ

-- What a handler does to the job and to the frame, and whether it kills the task.
pub record Order : Type 0 where
  pub job : Job
  pub fi : FrameInfo
  pub kill : Bool

-- The task that a frame says it is rendered by.
abbrev pub task_of : Database → FrameInfo → KillTask
task_of wdb f = record { address = (wdb.computer f.icomp).hwinfo.address; itask = f.itask }

-- With the frame memory attached: the order is carried out on one frame.
abbrev pub ordered : Database → ℕ → FrameTable → ℕ → Order → Database × List KillTask
ordered wdb ijob fi iframe order = (
  semaphore_release (
      put_job
        (record wdb {
          shm =
              store_frames (wdb.job ijob).fishmid
                (record fi { cell = update fi.cell iframe order.fi }) wdb.shm;
        })
        ijob order.job),
  if order.kill then task_of wdb (fi.cell iframe) ∷ [] else [],
)

-- With the lock held and the index and the number found correct. A job whose frame memory cannot be
-- attached is deleted.
unfoldable pub on_frame : Database → ℕ → ℕ → (Job → FrameInfo → Order) → Database × List KillTask
on_frame wdb ijob frame order =
    let job = wdb.job ijob in
    let iframe = job_frame_number_to_index job frame in
    elim (attach_frame_shared_memory wdb.shm job.fishmid) [
      | none ↦
          let (shm, deleted) = job_delete wdb.user wdb.shm job in
          (semaphore_release (put_job (record wdb { shm = shm }) ijob deleted), [])
      | some fi ↦ ordered wdb ijob fi iframe (order job (fi.cell iframe))
    ]

-- `flags |= FF_REQUEUE`.
abbrev pub set_requeue : ℕ → ℕ
set_requeue flags = if has_flag flags ff_requeue then flags else flags + 1

unfoldable pub waiting_order : Job → FrameInfo → Order
waiting_order job f =
    let f' =
      if f.status == fs_assigned
      then record f { flags = set_requeue f.flags }
      else if f.status == fs_error || f.status == fs_finished
      then back_to_waiting f
      else f in
    record { job = job; fi = f'; kill = false }

unfoldable pub handle_r_r_jobfwait : Database → ℕ → Option ℕ → Database × List KillTask
unfolding on_frame waiting_order
handle_r_r_jobfwait wdb ijob received = elim received [
  | none ↦ (wdb, [])
  | some frame ↦
      let locked = semaphore_lock wdb in
      if not (job_index_correct_master locked ijob)
      then (semaphore_release locked, [])
      else if not (job_frame_number_correct (wdb.job ijob) frame)
      then (semaphore_release locked, [])
      else on_frame locked ijob frame waiting_order
]

-- The other handlers return with the semaphore locked on a wrong index or number.
unfoldable pub order_locked :
    Database → ℕ → Option ℕ → (Job → FrameInfo → Order) → Database × List KillTask
unfolding on_frame
order_locked wdb ijob received order = elim received [
  | none ↦ (wdb, [])
  | some frame ↦
      let locked = semaphore_lock wdb in
      if not (job_index_correct_master locked ijob)
      then (locked, [])
      else if not (job_frame_number_correct (wdb.job ijob) frame)
      then (locked, [])
      else on_frame locked ijob frame order
]

unfoldable pub kill_order : Job → FrameInfo → Order
kill_order job f = record { job = job; fi = f; kill = f.status == fs_assigned }

unfoldable pub handle_r_r_jobfkill : Database → ℕ → Option ℕ → Database × List KillTask
unfolding order_locked kill_order
handle_r_r_jobfkill wdb ijob received = order_locked wdb ijob received kill_order

-- For a waiting frame fdone is incremented and decremented again.
unfoldable pub finish_order : ℕ → Job → FrameInfo → Order
finish_order now job f =
    let f' = record f { exitcode = 0; end_time = u32 now; status = fs_finished } in
    if f.status == fs_waiting
    then record {
      job = record job { fdone = sub32 (u32 (job.fdone + 1)) 1 };
      fi = f';
      kill = false;
    }
    else if f.status == fs_assigned
    then record {
      job = record job { fdone = u32 (job.fdone + 1); fleft = sub32 job.fleft 1 };
      fi = f';
      kill = false;
    }
    else record { job = job; fi = f; kill = false }

unfoldable pub handle_r_r_jobffini : Database → ℕ → Option ℕ → Database × List KillTask
unfolding order_locked finish_order
handle_r_r_jobffini wdb ijob received = order_locked wdb ijob received (finish_order wdb.now)

unfoldable pub reset_order : Job → FrameInfo → Order
reset_order job f = record { job = job; fi = record f { requeued = 0 }; kill = false }

unfoldable pub handle_r_r_jobfrstrqd : Database → ℕ → Option ℕ → Database × List KillTask
unfolding order_locked reset_order
handle_r_r_jobfrstrqd wdb ijob received = order_locked wdb ijob received reset_order

unfoldable pub kill_finish_order : Job → FrameInfo → Order
kill_finish_order job f =
    if f.status == fs_assigned
    then record { job = job; fi = record f { status = fs_finished }; kill = true }
    else record { job = job; fi = f; kill = false }

unfoldable pub handle_r_r_jobfkfin : Database → ℕ → Option ℕ → Database × List KillTask
unfolding order_locked kill_finish_order
handle_r_r_jobfkfin wdb ijob received = order_locked wdb ijob received kill_finish_order
