-- ===== src/Database/Assign/Keeps.antt =====
-- Handing out a frame keeps the job's counters in step with its frame table.
use drqueue.Prelude.{
  ℕ, ◌+◌, ◌≤◌, ◌<◌, ◌≡◌, refl, sym, ap, subst, subst₂, ◌∙◌, inl, inr, false, none, ◌==◌,
  if◌then◌else◌, count_below-le, update_self, arith, Bool-cases, Option-cases,
}
use drqueue.Frame.{fs_waiting, fs_assigned, fs_error, fs_finished}
use drqueue.Job.{Job}
use drqueue.Job.Numbering.{job_nframes}
use drqueue.Shm.{FrameTable}
use drqueue.Database.{Database, semaphore_lock, job_index_correct_master}
use drqueue.Database.Consistent.{Counts, Consistent, frames_in, frames_in-update}
use drqueue.Database.Limits.{job_limits_passed, limits_passed_keeps}
use drqueue.Database.Assign.{
  marked, one_more, reserved, is_ready, job_first_frame_available, job_available,
}
use drqueue.Database.Assign.Reserve.{first_frame_refused}
use drqueue.Database.Assign.Once.{Handed-table, job_available-Handed, nframes-one_more}

module _ (job : Job) (fi : FrameTable) (icomp i : ℕ) (few : job_nframes job < 65_536)
    (c : Counts job fi) (l : i < job_nframes job) (waits : (fi.cell i).status ≡ fs_waiting) where
  counted :
      (status : ℕ)
      → frames_in status (job_nframes (one_more job)) (marked icomp i fi)
          + (if fs_waiting == status then 1 else 0)
        ≡ frames_in status (job_nframes job) fi + (if fs_assigned == status then 1 else 0)
  counted status = ground (
    arith,
    frames_in-update status (job_nframes job) i fi (reserved icomp (fi.cell i)) l,
    nframes-one_more job,
  )

  in_words : frames_in fs_waiting (job_nframes job) fi ≤ job_nframes job
  in_words = count_below-le (job_nframes job) (λ k. (fi.cell k).status == fs_waiting)

  in_words' : frames_in fs_assigned (job_nframes job) (marked icomp i fi) ≤ job_nframes job
  in_words' =
      count_below-le (job_nframes job) (λ k. ((marked icomp i fi).cell k).status == fs_assigned)

  reserve-Counts : Counts (one_more job) (marked icomp i fi)
  reserve-Counts = record {
    left = ground (arith, counted fs_waiting, c.left, in_words);
    running = ground (arith, counted fs_assigned, c.running, in_words', nframes-one_more job);
    failed = ground (arith, counted fs_error, c.failed);
    done = ground (arith, counted fs_finished, c.done);
  }

-- A call that hands out no frame leaves the shared memory and the jobs as they were.
pub refused_keeps :
    (wdb : Database) (ijob icomp : ℕ)
    → (job_available wdb ijob icomp).1 ≡ none
    → ((job_available wdb ijob icomp).0.shm ≡ wdb.shm)
      × ((job_available wdb ijob icomp).0.job ≡ wdb.job)
unfolding job_available job_index_correct_master
refused_keeps wdb ijob icomp e = elim (Bool-cases (job_index_correct_master wdb ijob)) [
  | inr wrong ↦ rw wrong (refl, refl)
  | inl correct ↦ elim (Bool-cases (is_ready wdb (wdb.job ijob))) [
    | inr wrong ↦ rw (correct, wrong) (refl, refl)
    | inl ready ↦ elim (Bool-cases (job_limits_passed (semaphore_lock wdb) ijob icomp).1) [
      | inr refused ↦
          rw (correct, ready, refused) (limits_passed_keeps (semaphore_lock wdb) ijob icomp)
      | inl passed ↦
          let w = (job_limits_passed (semaphore_lock wdb) ijob icomp).0 in
          let first = job_first_frame_available w ijob icomp in
          let result : job_available wdb ijob icomp ≡ (record first.0 { locked = false }, first.1) =
            rw (correct, ready, passed) in
          let (ks, kj) = limits_passed_keeps (semaphore_lock wdb) ijob icomp in
          let same = first_frame_refused ijob icomp w (ap (λ r. r.1) (sym result) ∙ e) in
          (
            ap (λ r. r.0.shm) result ∙ ap (λ d. d.shm) same ∙ ks,
            ap (λ r. r.0.job) result ∙ ap (λ d. d.job) same ∙ kj,
          )
    ]
  ]
]

-- Asking a job for a frame keeps its counters in step with its frame table, whether a frame is handed
-- out or not.
pub job_available-Consistent :
    (wdb : Database) (ijob icomp : ℕ)
    → Consistent wdb.shm (wdb.job ijob)
    → let after = (job_available wdb ijob icomp).0 in Consistent after.shm (after.job ijob)
job_available-Consistent wdb ijob icomp c = elim (Option-cases (job_available wdb ijob icomp).1) [
  | inl e ↦
      let (ks, kj) = refused_keeps wdb ijob icomp e in
      subst₂ (λ s j. Consistent s (j ijob)) (sym ks) (sym kj) c
  | inr (i, e) ↦
      let h = job_available-Handed wdb ijob icomp i e in
      let same : h.fi ≡ c.table = ground (arith, h.attached, c.attached) in
      let counts =
        reserve-Counts (wdb.job ijob) h.fi icomp i c.few
          (subst (Counts (wdb.job ijob)) (sym same) c.counts) h.in_range h.waiting in
      let job_after : (job_available wdb ijob icomp).0.job ijob ≡ one_more (wdb.job ijob) =
        ap (λ j. j ijob) h.jobs ∙ update_self wdb.job ijob (one_more (wdb.job ijob)) in
      record {
        table = marked icomp i h.fi;
        attached = Handed-table wdb (job_available wdb ijob icomp).0 ijob icomp i h;
        few = rw (job_after, nframes-one_more (wdb.job ijob)) c.few;
        counts = subst (λ job. Counts job (marked icomp i h.fi)) (sym job_after) counts;
      }
]
