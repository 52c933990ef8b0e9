-- ===== src/Database/Registry/Lifecycle.antt =====
-- What registering and deleting promise.
use drqueue.Prelude.{
  ℕ, ◌<◌, ◌≡◌, refl, ◌⊎◌, Bool, true, false, some, CString, count_below, if◌then◌else◌, arith, zero,
  suc, ap, ◌∙◌, sym,
}
use drqueue.Frame.{fs_waiting, fs_assigned, fs_error, fs_finished, job_frame_info_init}
use drqueue.Job.{Job, job_init}
use drqueue.Job.Numbering.{job_nframes}
use drqueue.Shm.{Shm, FrameTable, attach_frame_shared_memory, get_frame_shared_memory, discard}
use drqueue.Database.{Database, job_index_correct_master}
use drqueue.Database.Consistent.{Consistent, frames_in}
use drqueue.Database.Registry.{all_waiting, job_init_registered, job_delete}

all_in : (n : ℕ) (p : ℕ → Bool) → ((j : ℕ) → j < n → p j ≡ true) → count_below n p ≡ n
unfolding count_below
all_in zero p h = refl
all_in (suc n) p h = ground (arith, all_in n p (λ j l. h j (omega arith)), h n (omega arith))

none_in : (n : ℕ) (p : ℕ → Bool) → ((j : ℕ) → j < n → p j ≡ false) → count_below n p ≡ 0
unfolding count_below
none_in zero p h = refl
none_in (suc n) p h = ground (arith, none_in n p (λ j l. h j (omega arith)), h n (omega arith))

-- Every frame of a fresh table waits.
frames_in-all_waiting :
    (n : ℕ) (fi : FrameTable)
    → (frames_in fs_waiting n (all_waiting n fi) ≡ n)
      × (frames_in fs_assigned n (all_waiting n fi) ≡ 0)
      × (frames_in fs_error n (all_waiting n fi) ≡ 0)
      × (frames_in fs_finished n (all_waiting n fi) ≡ 0)
unfolding job_frame_info_init
frames_in-all_waiting n fi = (
  all_in n _ (λ j l. ground arith),
  none_in n _ (λ j l. ground arith),
  none_in n _ (λ j l. ground arith),
  none_in n _ (λ j l. ground arith),
)

-- The table of a job that was just registered, where the system had memory for it.
fresh_table : Database → ℕ → FrameTable
fresh_table wdb n = all_waiting n (record { size = n; cell = λ _. job_frame_info_init })

fresh_counts :
    (wdb : Database) (n : ℕ)
    → (frames_in fs_waiting n (fresh_table wdb n) ≡ n)
      × (frames_in fs_assigned n (fresh_table wdb n) ≡ 0)
      × (frames_in fs_error n (fresh_table wdb n) ≡ 0)
      × (frames_in fs_finished n (fresh_table wdb n) ≡ 0)
unfolding fresh_table
fresh_counts wdb n = frames_in-all_waiting n (record { size = n; cell = λ _. job_frame_info_init })

registered_attached :
    (wdb : Database) (ijob : ℕ) (job : Job)
    → job_index_correct_master wdb ijob ≡ true
    → wdb.shm.full ≡ false
    → wdb.shm.no_attach wdb.shm.next_id ≡ false
    → 0 < job_nframes job
    → let after = job_init_registered wdb ijob job in
      attach_frame_shared_memory after.shm (after.job ijob).fishmid
      ≡ some (fresh_table wdb (job_nframes job))
unfolding job_init_registered job_index_correct_master get_frame_shared_memory
    attach_frame_shared_memory fresh_table job_nframes
registered_attached wdb ijob job correct room attachable some_frames = ground arith

registered_counters :
    (wdb : Database) (ijob : ℕ) (job : Job)
    → job_index_correct_master wdb ijob ≡ true
    → wdb.shm.full ≡ false
    → wdb.shm.no_attach wdb.shm.next_id ≡ false
    → 0 < job_nframes job
    → let new_job = (job_init_registered wdb ijob job).job ijob in
      (job_nframes new_job ≡ job_nframes job)
      × (new_job.fleft ≡ job_nframes job)
      × (new_job.nprocs ≡ 0)
      × (new_job.ffailed ≡ 0)
      × (new_job.fdone ≡ 0)
unfolding job_init_registered job_index_correct_master get_frame_shared_memory
    attach_frame_shared_memory job_nframes
registered_counters wdb ijob job correct room attachable some_frames = ground arith

-- A job that is registered at a correct index, with fewer than 65,536 frames but some, where the system has memory for them,
-- starts with all its frames waiting and with counters that say so.
pub registered-Consistent :
    (wdb : Database) (ijob : ℕ) (job : Job)
    → job_index_correct_master wdb ijob ≡ true
    → wdb.shm.full ≡ false
    → wdb.shm.no_attach wdb.shm.next_id ≡ false
    → 0 < job_nframes job
    → job_nframes job < 65_536
    → let after = job_init_registered wdb ijob job in
      Consistent after.shm (after.job ijob) × ((after.job ijob).fleft ≡ job_nframes job)
registered-Consistent wdb ijob job correct room attachable some_frames few =
    let (n, left, running, failed, done) =
      registered_counters wdb ijob job correct room attachable some_frames in
    let fi = fresh_table wdb (job_nframes job) in
    let (w, a, e, f) = fresh_counts wdb (job_nframes job) in
    let at_n = λ (status : ℕ). ap (λ m. frames_in status m fi) (sym n) in
    (
      record {
        table = fi;
        attached = registered_attached wdb ijob job correct room attachable some_frames;
        few = rw n few;
        counts = record {
          left = left ∙ sym w ∙ at_n fs_waiting;
          running = running ∙ sym a ∙ at_n fs_assigned;
          failed = failed ∙ sym e ∙ at_n fs_error;
          done = done ∙ sym f ∙ at_n fs_finished;
        };
      },
      left,
    )

-- Where the system has no memory for the frames, the record is that of a job not in use.
pub register_refused :
    (wdb : Database) (ijob : ℕ) (job : Job)
    → job_index_correct_master wdb ijob ≡ true
    → (wdb.shm.full ≡ true) ⊎ (wdb.shm.no_attach wdb.shm.next_id ≡ true)
    → 0 < job_nframes job
    → let after = job_init_registered wdb ijob job in
      (after.job ijob ≡ job_init wdb.user) × (after.locked ≡ false)
unfolding job_init_registered job_index_correct_master get_frame_shared_memory
    attach_frame_shared_memory job_nframes
register_refused wdb ijob job correct refused some_frames = ground arith

-- job_init_registered leaves the lock held exactly where job_index_correct_master refuses the
-- index, and free otherwise.
pub register_lock :
    (wdb : Database) (ijob : ℕ) (job : Job)
    → (job_init_registered wdb ijob job).locked
      ≡ (if job_index_correct_master wdb ijob then false else true)
unfolding job_init_registered job_index_correct_master
register_lock wdb ijob job = ground arith

-- Deleting a job takes its segments out of the shared memory and no other, and leaves the record of
-- a job not in use.
pub delete_frees :
    (user : CString) (shm : Shm) (job : Job)
    → job_delete user shm job ≡ (
      record shm {
        frame_seg = discard shm.frame_seg job.fishmid;
        host_seg = discard shm.host_seg job.bhshmid;
        env_seg = discard shm.env_seg job.envvars.evshmid;
      },
      job_init user,
    )
unfolding job_delete
delete_frees user shm job = ground arith
