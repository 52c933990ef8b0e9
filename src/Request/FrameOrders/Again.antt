-- ===== src/Request/FrameOrders/Again.antt =====
-- What becomes of a frame that a client orders to wait again while it is being rendered.
use drqueue.Prelude.{ℕ, ◌+◌, ◌<◌, ◌≡◌, true, arith}
use drqueue.Frame.{FrameInfo, fs_waiting, fs_assigned}
use drqueue.Job.{Job}
use drqueue.Database.Assign.{reserved, task_recorded}
use drqueue.Request.TaskFini.{Tally, left, frame_ended, frame_exited, exited, max_requeues}
use drqueue.Request.FrameOrders.{waiting_order}

-- One rendering of a frame: it is reserved, the task is recorded, and the task ends with `stat`.
abbrev pub rendered : ℕ → ℕ → ℕ → Job → ℕ → FrameInfo → FrameInfo × Tally
rendered now icomp itask job stat f =
    frame_ended now job.auto_requeue stat (task_recorded now icomp itask job (reserved icomp f))

-- A frame that a client orders to wait again while it is being rendered, and whose task exits, is put
-- back to waiting; and it is put back once more when it has been rendered again, because the mark of
-- the order stays. This is so for a frame that was requeued at least twice less than MAX_REQUEUES times.
pub rendered_again :
    (now icomp itask stat : ℕ) (job : Job) (f : FrameInfo)
    → exited stat ≡ true
    → f.requeued + 1 < max_requeues
    → f.status ≡ fs_assigned
    → let (first, tally) = frame_ended now job.auto_requeue stat (waiting_order job f).fi in
      let (second, tally') = rendered now icomp itask job stat first in
      (first.status ≡ fs_waiting)
      × (tally ≡ left)
      × (second.status ≡ fs_waiting)
      × (second.requeued ≡ f.requeued + 2)
      × (tally' ≡ left)
unfolding frame_ended waiting_order frame_exited
rendered_again now icomp itask stat job f ended few busy =
    (ground arith, ground arith, ground arith, ground arith, ground arith)
