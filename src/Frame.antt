-- ===== src/Frame.antt =====
-- The frames of a job: `struct frame_info`, the frame states and flags of libdrqueue/job.h, and
-- the operations on one frame of libdrqueue/job.c.
use drqueue.Prelude.{ℕ, CString, codes, ◌==◌, if◌then◌else◌}

-- `status` is a uint8_t in the shared segment: any byte may stand there, not only the four states.
pub record FrameInfo : Type 0 where
  pub status : ℕ
  pub start_time : ℕ
  pub end_time : ℕ
  pub exitcode : ℕ
  pub icomp : ℕ
  pub itask : ℕ
  pub requeued : ℕ
  pub flags : ℕ

abbrev pub fs_waiting : ℕ
fs_waiting = 0

abbrev pub fs_assigned : ℕ
fs_assigned = 1

abbrev pub fs_error : ℕ
fs_error = 2

abbrev pub fs_finished : ℕ
fs_finished = 3

-- The bit number of FF_REQUEUE.
abbrev pub ff_requeue : ℕ
ff_requeue = 0

-- A frame without a task yet: `itask = (uint16_t) -1`.
abbrev pub no_task : ℕ
no_task = 65_535

-- `job_frame_info_init` writes every field.
unfoldable pub job_frame_info_init : FrameInfo
job_frame_info_init = record {
  status = fs_waiting;
  start_time = 0;
  end_time = 0;
  exitcode = 0;
  icomp = 0;
  itask = 0;
  requeued = 0;
  flags = 0;
}

unfoldable pub job_frame_status_string : ℕ → CString
job_frame_status_string status =
    if status == fs_waiting
    then codes "Waiting"
    else if status == fs_assigned
    then codes "Running"
    else if status == fs_error
    then codes "Error"
    else if status == fs_finished
    then codes "Finished"
    else codes "DEFAULT (ERROR)"
