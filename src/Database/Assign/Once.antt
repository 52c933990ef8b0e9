-- ===== src/Database/Assign/Once.antt =====
-- What is known of a frame that was handed out, and that handing one out moves it from the waiting to
-- the assigned frames.
use drqueue.Prelude.{
  ℕ, ◌+◌, ◌<◌, ◌≡◌, refl, sym, ap, ap₂, ◌∙◌, inl, inr, false, none, some, ◌==◌, if◌then◌else◌,
  find_first-some, arith, Bool-cases, Option-cases, count_below, count_below_change, update,
  update_self,
}
use drqueue.Frame.{fs_waiting, fs_assigned}
use drqueue.Job.{Job}
use drqueue.Job.Numbering.{job_nframes}
use drqueue.Shm.{FrameTable, attach_frame_shared_memory, store_frames}
use drqueue.Database.{Database, semaphore_lock, job_index_correct_master}
use drqueue.Database.Consistent.{attached_after}
use drqueue.Database.Limits.{job_limits_passed, limits_passed_keeps}
use drqueue.Database.Assign.Reserve.{first_frame_none, first_frame_lem}
use drqueue.Database.Assign.{
  first_waiting, marked, one_more, reserve, is_ready, job_first_frame_available, job_available,
}

-- What is known of a frame that was handed out, and of the database after.
pub record Handed (wdb after : Database) (ijob icomp i : ℕ) : Type 0 where
  pub fi : FrameTable
  pub attached : attach_frame_shared_memory wdb.shm (wdb.job ijob).fishmid ≡ some fi
  pub in_range : i < job_nframes (wdb.job ijob)
  pub waiting : (fi.cell i).status ≡ fs_waiting
  pub shm : after.shm ≡ (reserve wdb ijob fi i icomp).shm
  pub jobs : after.job ≡ (reserve wdb ijob fi i icomp).job

first_frame-Handed :
    (wdb : Database) (ijob icomp i : ℕ)
    → (job_first_frame_available wdb ijob icomp).1 ≡ some i
    → Handed wdb (job_first_frame_available wdb ijob icomp).0 ijob icomp i
first_frame-Handed wdb ijob icomp i e =
    elim (Option-cases (attach_frame_shared_memory wdb.shm (wdb.job ijob).fishmid)) [
      | inl lost ↦ absurd (none_given (first_frame_none ijob icomp wdb lost))
      | inr (fi, e') ↦ elim (Option-cases (first_waiting (job_nframes (wdb.job ijob)) fi)) [
        | inl no_frame ↦ absurd (none_given (first_frame_lem ijob icomp wdb fi none e' no_frame))
        | inr (k, found) ↦
            let result = first_frame_lem ijob icomp wdb fi (some k) e' found in
            let same : k ≡ i = ground (arith, result) in
            let (below, hit) = find_first-some _ _ k found in
            record {
              fi = fi;
              attached = e';
              in_range = rw (← same) below;
              waiting = ground arith;
              shm = ground (arith, result);
              jobs = ground (arith, result);
            }
      ]
    ]
  where
    none_given : job_first_frame_available wdb ijob icomp ≡ (wdb, none) → ⊥
    none_given r = ground (arith, r)

-- The facts about the database after the limits are facts about the one before.
Handed-back :
    (wdb w after : Database) (ijob icomp i : ℕ)
    → w.shm ≡ wdb.shm
    → w.job ≡ wdb.job
    → Handed w after ijob icomp i
    → Handed wdb after ijob icomp i
Handed-back wdb w after ijob icomp i ks kj h = record {
  fi = h.fi;
  attached =
      ap₂ (λ s j. attach_frame_shared_memory s (j ijob).fishmid) (sym ks) (sym kj) ∙ h.attached;
  in_range = rw kj at h.in_range;
  waiting = h.waiting;
  shm = h.shm ∙ ap₂ (λ s j. store_frames (j ijob).fishmid (marked icomp i h.fi) s) ks kj;
  jobs = h.jobs ∙ ap (λ j. update j ijob (one_more (j ijob))) kj;
}

-- Whatever the limits of the job and the pools of the computer.
pub job_available-Handed :
    (wdb : Database) (ijob icomp i : ℕ)
    → (job_available wdb ijob icomp).1 ≡ some i
    → Handed wdb (job_available wdb ijob icomp).0 ijob icomp i
unfolding job_available job_index_correct_master
job_available-Handed wdb ijob icomp i e = elim (Bool-cases (job_index_correct_master wdb ijob)) [
  | inr wrong ↦ absurd (ground (arith, wrong))
  | inl correct ↦ elim (Bool-cases (is_ready wdb (wdb.job ijob))) [
    | inr wrong ↦ absurd (ground (arith, correct, wrong))
    | inl ready ↦ elim (Bool-cases (job_limits_passed (semaphore_lock wdb) ijob icomp).1) [
      | inr refused ↦ absurd (ground (arith, correct, ready, refused))
      | inl passed ↦
          let w = (job_limits_passed (semaphore_lock wdb) ijob icomp).0 in
          let first = job_first_frame_available w ijob icomp in
          let result : job_available wdb ijob icomp ≡ (record first.0 { locked = false }, first.1) =
            rw (correct, ready, passed) in
          let h = first_frame-Handed w ijob icomp i (ap (λ r. r.1) (sym result) ∙ e) in
          let (ks, kj) = limits_passed_keeps (semaphore_lock wdb) ijob icomp in
          let back = Handed-back wdb w first.0 ijob icomp i ks kj h in
          record {
            fi = back.fi;
            attached = back.attached;
            in_range = back.in_range;
            waiting = back.waiting;
            shm = ap (λ r. r.0.shm) result ∙ back.shm;
            jobs = ap (λ r. r.0.job) result ∙ back.jobs;
          }
    ]
  ]
]

-- The table that the job has after the reservation.
pub Handed-table :
    (wdb after : Database) (ijob icomp i : ℕ) (h : Handed wdb after ijob icomp i)
    → attach_frame_shared_memory after.shm (after.job ijob).fishmid ≡ some (marked icomp i h.fi)
Handed-table wdb after ijob icomp i h =
    ap₂ (λ s j. attach_frame_shared_memory s (j ijob).fishmid) h.shm h.jobs
    ∙ ap (λ (job : Job). attach_frame_shared_memory (reserve wdb ijob h.fi i icomp).shm job.fishmid)
        (update_self wdb.job ijob (one_more (wdb.job ijob)))
    ∙ attached_after wdb.shm (wdb.job ijob).fishmid h.fi (marked icomp i h.fi) h.attached

-- How many frames of the job are in a state, in its table as it stands in the shared memory.
abbrev pub job_frames_in : ℕ → Database → ℕ → ℕ
job_frames_in status wdb ijob = elim (attach_frame_shared_memory wdb.shm (wdb.job ijob).fishmid) [
  | none ↦ 0
  | some fi ↦ count_below (job_nframes (wdb.job ijob)) (λ i. (fi.cell i).status == status)
]

pub nframes-one_more : (job : Job) → job_nframes (one_more job) ≡ job_nframes job
unfolding job_nframes
nframes-one_more job = refl

job_frames_in_before :
    (status : ℕ) (wdb : Database) (ijob : ℕ) (fi : FrameTable)
    → attach_frame_shared_memory wdb.shm (wdb.job ijob).fishmid ≡ some fi
    → job_frames_in status wdb ijob
      ≡ count_below (job_nframes (wdb.job ijob)) (λ i. (fi.cell i).status == status)
job_frames_in_before status wdb ijob fi e = rw (e, job_frames_in)

job_frames_in_after :
    (status : ℕ) (wdb after : Database) (ijob icomp i : ℕ) (h : Handed wdb after ijob icomp i)
    → job_frames_in status after ijob
      ≡ count_below
          (job_nframes (wdb.job ijob))
          (λ k. ((marked icomp i h.fi).cell k).status == status)
job_frames_in_after status wdb after ijob icomp i h =
    job_frames_in_before status after ijob _ (Handed-table wdb after ijob icomp i h)
    ∙ ap (λ n. count_below n (λ k. ((marked icomp i h.fi).cell k).status == status))
        (ap (λ j. job_nframes (j ijob)) h.jobs
          ∙ ap job_nframes (update_self wdb.job ijob (one_more (wdb.job ijob)))
          ∙ nframes-one_more (wdb.job ijob))

-- A frame that is handed out leaves the waiting frames of its job and joins the assigned ones; the
-- frames in any other state stay as many as they were.
pub handed_out_counts :
    (wdb : Database) (ijob icomp i status : ℕ)
    → (job_available wdb ijob icomp).1 ≡ some i
    → let after = (job_available wdb ijob icomp).0 in
      job_frames_in status after ijob + (if status == fs_waiting then 1 else 0)
      ≡ job_frames_in status wdb ijob + (if status == fs_assigned then 1 else 0)
handed_out_counts wdb ijob icomp i status e =
    let h = job_available-Handed wdb ijob icomp i e in
    let change =
      count_below_change (job_nframes (wdb.job ijob)) i
        (λ k. ((marked icomp i h.fi).cell k).status == status) (λ k. (h.fi.cell k).status == status)
        h.in_range (λ j ne. ground arith) in
    ground (
      arith,
      change,
      h.waiting,
      job_frames_in_before status wdb ijob h.fi h.attached,
      job_frames_in_after status wdb _ ijob icomp i h,
    )
