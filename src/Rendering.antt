-- ===== src/Rendering.antt =====
-- The life of the frames of one job in the master: what four kinds of calls do to the frames one after another
-- (libdrqueue/job.c and libdrqueue/request.c), against a board that only says where each frame is.
pub mod Board
pub mod Moves
pub mod Runs
use drqueue.Prelude.{ℕ, ◌<◌, ◌≡◌, Bool, true, false, Option, some, has_flag}
use drqueue.Frame.{FrameInfo, fs_assigned}
use drqueue.Job.{Job, jf_jobdelete}
use drqueue.Job.Numbering.{
  HasRange, job_nframes, job_frame_number_correct, job_frame_number_to_index,
}
use drqueue.Shm.{FrameTable, attach_frame_shared_memory}
use drqueue.Task.{Task}
use drqueue.Database.{Database, job_index_correct_master}
use drqueue.Database.Assign.{job_available, job_update_assigned}
use drqueue.Database.Frames.{frame_running}
use drqueue.Database.Update.{job_update_info}
use drqueue.Request.TaskFini.{handle_r_r_taskfini}

-- A frame of the job is being rendered, as the master has it.
pub record Renders (wdb : Database) (ijob i : ℕ) : Type 0 where
  pub table : FrameTable
  pub attached : attach_frame_shared_memory wdb.shm (wdb.job ijob).fishmid ≡ some table
  pub in_range : i < job_nframes (wdb.job ijob)
  pub busy : (table.cell i).status ≡ fs_assigned

-- A report that the slave sends once, of a task for a frame of the job.
pub record Reports (wdb : Database) (task : Task) : Type 0 where
  pub correct : job_index_correct_master wdb task.ijob ≡ true
  pub named : task.jobname ≡ (wdb.job task.ijob).name
  pub range : HasRange (wdb.job task.ijob)
  pub a_frame : job_frame_number_correct (wdb.job task.ijob) task.frame ≡ true
  pub renders : Renders wdb task.ijob (job_frame_number_to_index (wdb.job task.ijob) task.frame)

-- An update that finds every assigned frame being rendered, of a job that is not deleted at its end.
pub record Updates (wdb : Database) (ijob : ℕ) : Type 0 where
  pub correct : job_index_correct_master wdb ijob ≡ true
  pub range : HasRange (wdb.job ijob)
  pub keep : has_flag (wdb.job ijob).flags jf_jobdelete ≡ false
  pub few : job_nframes (wdb.job ijob) < 65_536
  pub table : FrameTable
  pub attached : attach_frame_shared_memory wdb.shm (wdb.job ijob).fishmid ≡ some table
  pub running :
      (i : ℕ) → i < job_nframes (wdb.job ijob) → frame_running wdb ijob (table.cell i) ≡ true

-- Four kinds of calls for the job, each with what it takes: a computer asks for a frame, the task of a
-- handed out frame is recorded, a slave reports the end of a task, and the master checks the job. The orders
-- of clients are not among them.
pub data Step (ijob : ℕ) : Database → Database → Type 0 where
  asked : (wdb : Database) (icomp : ℕ) → Step ijob wdb (job_available wdb ijob icomp).0
  recorded :
      (wdb : Database) (i icomp itask : ℕ)
      → Renders wdb ijob i
      → Step ijob wdb (job_update_assigned wdb ijob i icomp itask)
  reported :
      (wdb : Database) (task : Task)
      → task.ijob ≡ ijob
      → Reports wdb task
      → Step ijob wdb (handle_r_r_taskfini wdb true (some task))
  updated : (wdb : Database) → Updates wdb ijob → Step ijob wdb (job_update_info wdb ijob)

-- Any number of these calls.
pub data Run (ijob : ℕ) : Database → Database → Type 0 where
  none_yet : (wdb : Database) → Run ijob wdb wdb
  then_step :
      (wdb between after : Database)
      → Run ijob wdb between
      → Step ijob between after
      → Run ijob wdb after
