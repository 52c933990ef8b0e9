-- ===== src/Database/Update/Counters.antt =====
-- What the loop of `job_update_info` (libdrqueue/job.c) counts.
use drqueue.Prelude.{
  ℕ, zero, suc, ◌+◌, ◌≤◌, ◌<◌, ◌≡◌, refl, ap, subst, ◌∙◌, true, false, some, ◌==◌, has_flag,
  count_below, count_below-le, arith, not, Bool-cases, inl, inr, ◌||◌, ◌&&◌,
}
use drqueue.Frame.{fs_waiting, fs_assigned, fs_error, fs_finished}
use drqueue.Job.{Job, jf_jobdelete, is_set}
use drqueue.Job.Numbering.{
  HasRange, job_nframes, job_frame_index_to_number, job_frame_number_correct,
  index_to_number_correct, nframes-eq,
}
use drqueue.Shm.{FrameTable, attach_frame_shared_memory}
use drqueue.Database.{
  Database, semaphore_lock, semaphore_release, job_index_correct_master,
  computer_index_correct_master,
}
use drqueue.Database.Consistent.{Consistent, frames_in}
use drqueue.Database.Frames.{frame_running, job_check_frame_status}
use drqueue.Database.Update.{
  Totals, no_totals, add_frame, update_copy, update_loop, set_counters, finish_job, set_status,
  update_job,
}

-- The totals are the counts of the first `n` frames.
pub record Tallied (n : ℕ) (fi : FrameTable) (t : Totals) : Type 0 where
  pub left : t.fleft ≡ frames_in fs_waiting n fi
  pub running : t.nprocs ≡ frames_in fs_assigned n fi
  pub failed : t.ffailed ≡ frames_in fs_error n fi
  pub done : t.fdone ≡ frames_in fs_finished n fi

pub none-Tallied : (fi : FrameTable) → Tallied 0 fi no_totals
unfolding count_below
none-Tallied fi = record { left = refl; running = refl; failed = refl; done = refl }

bounded : (status n : ℕ) (fi : FrameTable) → frames_in status n fi ≤ n
bounded status n fi = count_below-le n (λ i. (fi.cell i).status == status)

pub add_frame-Tallied :
    (i : ℕ) (fi : FrameTable) (t : Totals)
    → i < 65_535
    → Tallied i fi t
    → Tallied (i + 1) fi (add_frame (fi.cell i) t)
unfolding add_frame count_below
add_frame-Tallied i fi t few c = record {
  left = ground (arith, c.left, bounded fs_waiting i fi);
  running = ground (arith, c.running, bounded fs_assigned i fi);
  failed = ground (arith, c.failed, bounded fs_error i fi);
  done = ground (arith, c.done, bounded fs_finished i fi);
}

-- A frame that is being rendered, or is not assigned, passes the check, which changes nothing.
check_running :
    (wdb : Database) (ijob i : ℕ) (fi : FrameTable)
    → job_index_correct_master wdb ijob ≡ true
    → job_frame_number_correct (wdb.job ijob) (job_frame_index_to_number (wdb.job ijob) i) ≡ true
    → frame_running wdb ijob (fi.cell i) ≡ true
    → job_check_frame_status wdb ijob i fi ≡ (semaphore_release wdb, true)
unfolding job_check_frame_status job_index_correct_master frame_running
    computer_index_correct_master
check_running wdb ijob i fi correct number runs = rw (correct, number, runs) refl

loop_step :
    (k i : ℕ) (wdb : Database) (ijob : ℕ) (fi : FrameTable) (t : Totals)
    → job_check_frame_status wdb ijob i fi ≡ (wdb, true)
    → update_loop (suc k) i wdb ijob fi t
      ≡ update_loop k (i + 1) wdb ijob fi (add_frame (fi.cell i) t)
unfolding update_loop
loop_step k i wdb ijob fi t e =
    rw (update_loop, e)
      (ap (λ w. update_loop k (i + 1) w ijob fi (add_frame (fi.cell i) t)) (ap (λ r. r.0) e))

module _ (wdb : Database) (ijob : ℕ) (fi : FrameTable)
    (correct : job_index_correct_master wdb ijob ≡ true) (h : HasRange (wdb.job ijob))
    (few : job_nframes (wdb.job ijob) < 65_536)
    (running : (i : ℕ)
      → i < job_nframes (wdb.job ijob)
      → frame_running wdb ijob (fi.cell i) ≡ true) where
  pub update_loop-Tallied :
      (k i : ℕ) (t : Totals)
      → i + k ≤ job_nframes (wdb.job ijob)
      → Tallied i fi t
      → (t' : Totals) × (update_loop k i (semaphore_release wdb) ijob fi t
          ≡ (semaphore_release wdb, some t'))
        × Tallied (i + k) fi t'
  unfolding update_loop job_index_correct_master frame_running computer_index_correct_master
  update_loop-Tallied zero i t l c = (t, refl, subst (λ n. Tallied n fi t) (omega arith) c)
  update_loop-Tallied (suc k) i t l c =
      let good =
        check_running (semaphore_release wdb) ijob i fi correct
          (index_to_number_correct (wdb.job ijob) h i (omega arith)) (running i (omega arith)) in
      let (t', e, c') =
        update_loop-Tallied k (i + 1) (add_frame (fi.cell i) t) (omega arith)
          (add_frame-Tallied i fi t (omega (arith, few)) c) in
      (
        t',
        loop_step k i (semaphore_release wdb) ijob fi t good ∙ e,
        subst (λ n. Tallied n fi t') (omega arith) c',
      )

-- What the last part leaves of the job, when the end of the job does not delete it: all but its
-- state and its estimate.
pub set_status_keeps :
    (wdb : Database) (ijob : ℕ) (job : Job)
    → has_flag job.flags jf_jobdelete ≡ false
    → ((set_status wdb ijob job).shm ≡ wdb.shm)
      × (status : ℕ) × (est : ℕ) × ((set_status wdb ijob job).job ijob
          ≡ record job { status = status; est_finish_time = est })
unfolding set_status finish_job
set_status_keeps wdb ijob job keep = (
  ground arith,
  ((set_status wdb ijob job).job ijob).status,
  ((set_status wdb ijob job).job ijob).est_finish_time,
  ground arith,
)

pub set_counters_sets :
    (now : ℕ) (t : Totals) (job : Job)
    → let after = set_counters now t job in
      (after.fishmid ≡ job.fishmid)
      × (job_nframes after ≡ job_nframes job)
      × (after.flags ≡ job.flags)
      × (after.fleft ≡ t.fleft)
      × (after.nprocs ≡ t.nprocs)
      × (after.ffailed ≡ t.ffailed)
      × (after.fdone ≡ t.fdone)
unfolding set_counters job_nframes
set_counters_sets now t job =
    elim (Bool-cases
      (is_set t.nprocs && (not (t.fdone == job.old_fdone) || not (t.nprocs == job.old_nprocs)))) [
        | inl moved ↦ rw moved (refl, refl, refl, refl, refl, refl, refl)
        | inr still ↦ rw still (refl, refl, refl, refl, refl, refl, refl)
      ]

pub update_job_lem :
    (wdb : Database) (ijob : ℕ) (t : Totals)
    → job_index_correct_master wdb ijob ≡ true
    → update_job wdb ijob t
      ≡ semaphore_release
          (set_status (semaphore_lock wdb) ijob (set_counters wdb.now t (wdb.job ijob)))
unfolding update_job job_index_correct_master
update_job_lem wdb ijob t correct = rw correct refl

pub update_copy_lem :
    (wdb : Database) (ijob : ℕ) (fi : FrameTable)
    → job_index_correct_master wdb ijob ≡ true
    → HasRange (wdb.job ijob)
    → attach_frame_shared_memory wdb.shm (wdb.job ijob).fishmid ≡ some fi
    → update_copy (semaphore_lock wdb) ijob ≡ some fi
unfolding update_copy job_index_correct_master
update_copy_lem wdb ijob fi correct h attached =
    let frames : is_set (job_nframes (wdb.job ijob)) ≡ true =
      ground (arith, nframes-eq (wdb.job ijob) h) in
    rw (correct, frames) attached

pub correct_released :
    (wdb : Database) (ijob : ℕ)
    → job_index_correct_master (semaphore_release wdb) ijob ≡ job_index_correct_master wdb ijob
unfolding job_index_correct_master
correct_released wdb ijob = refl
