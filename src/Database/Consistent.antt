-- ===== src/Database/Consistent.antt =====
-- The invariant that ties a job's counters to its frame table: what the operations of
-- libdrqueue/job.c and libdrqueue/request.c keep between two updates of the job.
use drqueue.Prelude.{
  ℕ, ◌+◌, ◌<◌, ◌≡◌, ◌==◌, if◌then◌else◌, count_below, count_below_change, update, arith, some, none,
}
use drqueue.Frame.{FrameInfo, fs_waiting, fs_assigned, fs_error, fs_finished}
use drqueue.Job.{Job, ShmId}
use drqueue.Job.Numbering.{job_nframes}
use drqueue.Shm.{Shm, FrameTable, attach_frame_shared_memory, store_frames}

-- How many of the first `n` frames of a table are in a state.
abbrev pub frames_in : ℕ → ℕ → FrameTable → ℕ
frames_in status n fi = count_below n (λ i. (fi.cell i).status == status)

-- The counters of a job say how many frames of the table are in each state.
pub record Counts (job : Job) (fi : FrameTable) : Type 0 where
  pub left : job.fleft ≡ frames_in fs_waiting (job_nframes job) fi
  pub running : job.nprocs ≡ frames_in fs_assigned (job_nframes job) fi
  pub failed : job.ffailed ≡ frames_in fs_error (job_nframes job) fi
  pub done : job.fdone ≡ frames_in fs_finished (job_nframes job) fi

-- So they do for the table that the job has in the shared memory. The number of frames fits the
-- uint16_t that counts the running ones.
pub record Consistent (shm : Shm) (job : Job) : Type 0 where
  pub table : FrameTable
  pub attached : attach_frame_shared_memory shm job.fishmid ≡ some table
  pub few : job_nframes job < 65_536
  pub counts : Counts job table

-- One frame is written: the count of a state loses the old frame and gains the new one.
pub frames_in-update :
    (status n i : ℕ) (fi : FrameTable) (f : FrameInfo)
    → i < n
    → frames_in status n (record fi { cell = update fi.cell i f })
        + (if (fi.cell i).status == status then 1 else 0)
      ≡ frames_in status n fi + (if f.status == status then 1 else 0)
frames_in-update status n i fi f l = ground (
  arith,
  count_below_change n i (λ k. (update fi.cell i f k).status == status)
      (λ k. (fi.cell k).status == status) l (λ j ne. ground arith),
)

-- The table that a write leaves attached.
pub attached_after :
    (shm : Shm) (id : ShmId) (fi fi' : FrameTable)
    → attach_frame_shared_memory shm id ≡ some fi
    → attach_frame_shared_memory (store_frames id fi' shm) id ≡ some fi'
unfolding attach_frame_shared_memory
attached_after shm none fi fi' e = cc
attached_after shm (some id) fi fi' e = ground arith
