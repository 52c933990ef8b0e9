-- ===== src/Request/AvailJob/Back.antt =====
-- What is left of a reserved frame when the exchange with the slave fails: `job_frame_waiting` after
-- `job_available`.
use drqueue.Prelude.{
  ℕ, ◌+◌, ◌<◌, ◌≡◌, refl, ap, ◌∙◌, true, false, some, if◌then◌else◌, update_self, arith, sub16,
  sub32, u16,
}
use drqueue.Frame.{fs_waiting}
use drqueue.Job.{Job, is_set}
use drqueue.Job.Numbering.{
  HasRange, job_nframes, job_frame_index_to_number, job_frame_number_correct,
  index_to_number_correct,
}
use drqueue.Shm.{FrameTable, attach_frame_shared_memory, store_frames}
use drqueue.Database.{Database, semaphore_release, put_job, job_index_correct_master}
use drqueue.Database.Consistent.{attached_after}
use drqueue.Database.Frames.{back_to_waiting, frame_back, job_frame_waiting}
use drqueue.Database.Assign.{marked, one_more, job_available}
use drqueue.Database.Assign.Once.{Handed-table, job_available-Handed}

abbrev one_process_less : Job → Job
one_process_less job = record job {
  nprocs = if is_set job.nprocs then sub16 job.nprocs 1 else job.nprocs;
}

same_processes :
    (n : ℕ) → n < 65_535 → (if is_set (u16 (n + 1)) then sub16 (u16 (n + 1)) 1 else u16 (n + 1)) ≡ n
same_processes n l = ground arith

one_less_again :
    (job : Job)
    → job.nprocs < 65_535
    → one_process_less (one_more job) ≡ record job { fleft = sub32 job.fleft 1 }
one_less_again job few =
    ap (λ n. record job { nprocs = n; fleft = sub32 job.fleft 1 }) (same_processes job.nprocs few)

-- Putting a frame of the range back, on a job in use.
frame_waiting_lem :
    (wdb : Database) (ijob i : ℕ) (fi : FrameTable)
    → job_index_correct_master wdb ijob ≡ true
    → job_frame_number_correct (wdb.job ijob) (job_frame_index_to_number (wdb.job ijob) i) ≡ true
    → attach_frame_shared_memory wdb.shm (wdb.job ijob).fishmid ≡ some fi
    → job_frame_waiting wdb ijob i
      ≡ semaphore_release (
          put_job
            (record wdb { shm = store_frames (wdb.job ijob).fishmid (frame_back i fi) wdb.shm })
            ijob
            (one_process_less (wdb.job ijob)))
unfolding job_frame_waiting job_index_correct_master
frame_waiting_lem wdb ijob i fi correct number attached = rw (correct, number, attached) refl

correct_numbers :
    (job : Job) (i : ℕ)
    → HasRange job
    → i < job_nframes job
    → job_frame_number_correct (one_more job) (job_frame_index_to_number (one_more job) i) ≡ true
unfolding job_frame_number_correct job_frame_index_to_number
correct_numbers job i h l = index_to_number_correct job h i l

still_in_use :
    (wdb after : Database) (ijob : ℕ)
    → (after.job ijob).used ≡ (wdb.job ijob).used
    → job_index_correct_master wdb ijob ≡ true
    → job_index_correct_master after ijob ≡ true
unfolding job_index_correct_master
still_in_use wdb after ijob same correct = ground arith

-- A frame that was handed out and put back waits again, the number of
-- processes is what it was and the lock is free; but the number of frames left stays one too low.
pub frame_put_back :
    (wdb : Database) (ijob icomp i : ℕ)
    → job_index_correct_master wdb ijob ≡ true
    → HasRange (wdb.job ijob)
    → (wdb.job ijob).nprocs < 65_535
    → (job_available wdb ijob icomp).1 ≡ some i
    → let after = job_frame_waiting (job_available wdb ijob icomp).0 ijob i in
      (after.job ijob ≡ record (wdb.job ijob) { fleft = sub32 (wdb.job ijob).fleft 1 })
      × (after.locked ≡ false)
      × (fi : FrameTable) × (attach_frame_shared_memory after.shm (after.job ijob).fishmid
          ≡ some fi)
      × ((fi.cell i).status ≡ fs_waiting)
frame_put_back wdb ijob icomp i correct h few e =
    let w = (job_available wdb ijob icomp).0 in
    let job = wdb.job ijob in
    let d = job_available-Handed wdb ijob icomp i e in
    let same : w.job ijob ≡ one_more job =
      ap (λ j. j ijob) d.jobs ∙ update_self wdb.job ijob (one_more job) in
    let attached = Handed-table wdb w ijob icomp i d in
    let back =
      frame_waiting_lem w ijob i (marked icomp i d.fi)
        (still_in_use wdb w ijob (ap (λ j. j.used) same) correct)
        (rw same (correct_numbers job i h d.in_range)) attached in
    let here = update_self w.job ijob (one_process_less (w.job ijob)) in
    rw back (
      here ∙ ap one_process_less same ∙ one_less_again job few,
      refl,
      frame_back i (marked icomp i d.fi),
      ap
            (λ j.
              attach_frame_shared_memory
                (store_frames (w.job ijob).fishmid (frame_back i (marked icomp i d.fi)) w.shm)
                j.fishmid)
            here
          ∙ attached_after w.shm (w.job ijob).fishmid (marked icomp i d.fi)
              (frame_back i (marked icomp i d.fi)) attached,
      ap (λ f. f.status)
          (update_self (marked icomp i d.fi).cell i
            (back_to_waiting ((marked icomp i d.fi).cell i))),
    )
