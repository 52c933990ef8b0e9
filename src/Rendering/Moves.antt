-- ===== src/Rendering/Moves.antt =====
-- The four kinds of calls that Rendering has are moves on the board of the job.
use drqueue.Prelude.{
  ℕ, ◌≡◌, ◌⊎◌, refl, ap, ◌∙◌, inl, inr, some, update, update_self, Bool-cases, if◌then◌else◌,
}
use drqueue.Job.{Job, is_set, jobstatus_active}
use drqueue.Job.Numbering.{job_frame_number_correct, job_frame_index_to_number}
use drqueue.Shm.{FrameTable, attach_frame_shared_memory, store_frames}
use drqueue.Task.{Task}
use drqueue.Database.{Database, job_index_correct_master}
use drqueue.Database.Consistent.{attached_after}
use drqueue.Database.Assign.{job_update_assigned, task_recorded}

-- What the record of a task leaves: nothing changes, or the job's state and the one frame.
pub update_assigned_lem :
    (wdb : Database) (ijob i icomp itask : ℕ) (fi : FrameTable)
    → attach_frame_shared_memory wdb.shm (wdb.job ijob).fishmid ≡ some fi
    → let job = wdb.job ijob in
      let f = task_recorded wdb.now icomp itask job (fi.cell i) in
      let after = job_update_assigned wdb ijob i icomp itask in
      (after ≡ wdb)
      ⊎ ((status : ℕ) × (after ≡ record wdb {
        shm = store_frames job.fishmid (record fi { cell = update fi.cell i f }) wdb.shm;
        job = update wdb.job ijob (record job { status = status });
      }))
unfolding job_update_assigned job_index_correct_master
update_assigned_lem wdb ijob i icomp itask fi e =
    elim (Bool-cases (job_index_correct_master wdb ijob)) [
      | inr wrong ↦ inl (rw wrong refl)
      | inl correct ↦
          elim (Bool-cases (
            job_frame_number_correct (wdb.job ijob) (job_frame_index_to_number (wdb.job ijob) i))) [
              | inr wrong ↦ inl (rw (correct, wrong) refl)
              | inl right ↦ inr (
                if is_set (wdb.job ijob).nprocs then jobstatus_active else (wdb.job ijob).status,
                rw (correct, right, e) refl,
              )
            ]
    ]

-- The table of a job whose record and table are written.
pub stored :
    (wdb : Database) (ijob : ℕ) (fi fi' : FrameTable) (job' : Job)
    → attach_frame_shared_memory wdb.shm (wdb.job ijob).fishmid ≡ some fi
    → job'.fishmid ≡ (wdb.job ijob).fishmid
    → attach_frame_shared_memory
        (store_frames (wdb.job ijob).fishmid fi' wdb.shm)
        (update wdb.job ijob job' ijob).fishmid
      ≡ some fi'
stored wdb ijob fi fi' job' e id =
    ap
      (λ (j : Job).
        attach_frame_shared_memory (store_frames (wdb.job ijob).fishmid fi' wdb.shm) j.fishmid)
      (update_self wdb.job ijob job')
    ∙ ap (attach_frame_shared_memory (store_frames (wdb.job ijob).fishmid fi' wdb.shm)) id
    ∙ attached_after wdb.shm (wdb.job ijob).fishmid fi fi' e
