-- ===== src/Task.antt =====
-- `struct task` and the operations on it (libdrqueue/task.h, libdrqueue/task.c).
use drqueue.Prelude.{
  ℕ, ◌+◌, Bool, true, false, not, Option, none, some, List, [], ◌∷◌, zero, suc, ◌-◌, CString, codes,
  take, ◌==◌, ltb, if◌then◌else◌, update, find_first, u32,
}
use drqueue.Job.{Job, is_set, maxnamelen}

pub record Task : Type 0 where
  pub used : ℕ  -- uint8_t
  pub jobname : CString
  pub ijob : ℕ  -- uint32_t
  pub icomp : ℕ  -- uint32_t
  pub itask : ℕ  -- uint16_t
  pub jobcmd : CString
  pub owner : CString
  pub frame : ℕ  -- uint32_t
  pub frame_start : ℕ  -- uint32_t
  pub frame_end : ℕ  -- uint32_t
  pub frame_pad : ℕ  -- uint8_t
  pub frame_step : ℕ  -- uint32_t
  pub block_size : ℕ  -- uint32_t
  pub pid : ℕ  -- int32_t, as its bits
  pub exitstatus : ℕ  -- int32_t, as its bits
  pub status : ℕ  -- uint8_t
  pub start_loading_time : ℕ  -- uint64_t

abbrev pub taskstatus_loading : ℕ
taskstatus_loading = 0

abbrev pub taskstatus_running : ℕ
taskstatus_running = 1

abbrev pub taskstatus_finished : ℕ
taskstatus_finished = 2

abbrev pub maxtasks : ℕ
maxtasks = 32

abbrev pub maxcmdlen : ℕ
maxcmdlen = 1024

unfoldable pub task_init : Task
task_init = record {
  used = 0;
  jobname = codes "EMPTY";
  ijob = 0;
  icomp = 0;
  itask = 0;
  jobcmd = codes "NONE";
  owner = codes "NOBODY";
  frame = 0;
  frame_start = 0;
  frame_end = 0;
  frame_pad = 4;
  frame_step = 0;
  block_size = 0;
  pid = 0;
  exitstatus = 0;
  status = 0;
  start_loading_time = 0;
}

-- The loop writes the cells below MAXTASKS.
unfoldable pub task_init_all : (ℕ → Task) → ℕ → Task
unfolding task_init
task_init_all task i = if ltb i maxtasks then task_init else task i

-- The first free record is taken; without one the result is (uint16_t) -1, here `none`.
unfoldable pub task_available : ℕ → (ℕ → Task) → (ℕ → Task) × Option ℕ
task_available now task = elim (find_first maxtasks (λ i. (task i).used == 0)) [
  | none ↦ (task, none)
  | some i ↦ (
    update task i (record (task i) {
      used = 1;
      itask = i;
      status = taskstatus_loading;
      start_loading_time = now;
    }),
    some i,
  )
]

unfoldable pub task_status_string : ℕ → CString
task_status_string status =
    if status == taskstatus_loading
    then codes "Loading"
    else if status == taskstatus_running
    then codes "Running"
    else if status == taskstatus_finished
    then codes "Finished"
    else codes "UNKNOWN"

-- A state that is none of the three is logged, and counts as running.
unfoldable pub task_is_running : Task → Bool
task_is_running task =
    if not (is_set task.used)
    then false
    else if task.status == taskstatus_finished
    then false
    else true

-- Of the fields; the copy of the owner is as long as a command may be, and runs past the record.
unfoldable pub task_set_to_job_frame : Job → ℕ → Task
unfolding task_init
task_set_to_job_frame job frame = record task_init {
  jobname = take (maxnamelen - 1) job.name;
  ijob = job.id;
  jobcmd = take (maxcmdlen - 1) job.cmd;
  owner = take (maxcmdlen - 1) job.owner;
  frame = frame;
  frame_start = job.frame_start;
  frame_end = job.frame_end;
  frame_step = job.frame_step;
  frame_pad = job.frame_pad;
  block_size = job.block_size;
}

-- The frames i, i + 1, ... below `block_end`, with the rounds left as fuel.
count_up : ℕ → ℕ → ℕ → List ℕ
count_up zero i block_end = []
count_up (suc k) i block_end =
    let rest = count_up k (i + 1) block_end in if ltb i block_end then i ∷ rest else []

-- The frames that `task_environment_set` lists in DRQUEUE_PADFRAMES. At most block_size rounds are
-- made, since block_end is at most frame + block_size.
unfoldable pub block_frames : Task → List ℕ
unfolding count_up
block_frames task =
    let past = u32 (task.frame + task.block_size) in
    let last = u32 (task.frame_end + 1) in
    let block_end = if ltb last past then last else past in
    task.frame ∷ count_up task.block_size (u32 (task.frame + 1)) block_end
