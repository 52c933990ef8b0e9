-- ===== src/Database/Assign/Reserve.antt =====
-- What `job_available` promises: it hands out the first waiting frame of a job that may be worked on,
-- marks it, and otherwise changes nothing.
use drqueue.Prelude.{
  ℕ, ◌<◌, ◌≡◌, refl, ◌⊎◌, inl, inr, ◌≢◌, true, false, Option, none, some, List, CString,
  find_first-some, find_first_least, find_first-none, arith, Bool-cases, Option-cases, has_flag,
  update, u16, sub32, ◌+◌,
}
use drqueue.Frame.{fs_waiting, fs_assigned, no_task}
use drqueue.Job.{Job, jobstatus_waiting, jobstatus_active, jobstatus_finished, jf_jobdepend}
use drqueue.Job.Numbering.{job_nframes}
use drqueue.Shm.{FrameTable, attach_frame_shared_memory, store_frames}
use drqueue.Computer.Pools.Laws.{Holds}
use drqueue.Database.{Database, semaphore_lock, job_index_correct_master}
use drqueue.Database.Limits.{
  BlockedHosts, Passes, job_limits_passed, limits_passed_iff, limits_passed_unchanged,
}
use drqueue.Database.Assign.{
  first_waiting, reserve, is_ready, job_first_frame_available, job_available,
}

-- The job waits or is active, and if it waits for another job, that one is finished.
pub record MayRender (jobs : ℕ → Job) (job : Job) : Type 0 where
  pub pending : (job.status ≡ jobstatus_waiting) ⊎ (job.status ≡ jobstatus_active)
  pub awaited :
      has_flag job.flags jf_jobdepend ≡ true → (jobs job.dependid).status ≡ jobstatus_finished

ready_may : (wdb : Database) (job : Job) → is_ready wdb job ≡ true → MayRender wdb.job job
ready_may wdb job e = record { pending = ground (arith, e); awaited = λ d. ground (arith, e, d) }

may_ready : (wdb : Database) (job : Job) → MayRender wdb.job job → is_ready wdb job ≡ true
may_ready wdb job m = elim (Bool-cases (has_flag job.flags jf_jobdepend)) [
  | inl depends ↦ ground (arith, m.pending, depends, m.awaited depends)
  | inr alone ↦ ground (arith, m.pending, alone)
]

-- The database once the frame `i` is handed out: the frame is assigned to the computer, with no task yet; the
-- job counts one process more (uint16_t) and one frame less that is left (uint32_t).
abbrev pub handed_out : Database → ℕ → FrameTable → ℕ → ℕ → Database
handed_out wdb ijob fi i icomp =
    let job = wdb.job ijob in
    let f = record (fi.cell i) { status = fs_assigned; icomp = icomp; itask = no_task } in
    record wdb {
      shm = store_frames job.fishmid (record fi { cell = update fi.cell i f }) wdb.shm;
      job =
          update wdb.job ijob
            (record job { nprocs = u16 (job.nprocs + 1); fleft = sub32 job.fleft 1 });
    }

-- The frame `i` of the job may be handed out to the computer: the job is in use and ready, the
-- computer passes its limits, and `i` is the first waiting frame of its table `fi`.
pub record Assignable (wdb : Database) (ijob icomp : ℕ) (blocked pools : List CString)
    (fi : FrameTable) (i : ℕ) : Type 0 where
  pub correct : job_index_correct_master wdb ijob ≡ true
  pub ready : MayRender wdb.job (wdb.job ijob)
  pub passes : Passes (wdb.job ijob) ijob (wdb.computer icomp) blocked pools
  pub attached : attach_frame_shared_memory wdb.shm (wdb.job ijob).fishmid ≡ some fi
  pub in_range : i < job_nframes (wdb.job ijob)
  pub waiting : (fi.cell i).status ≡ fs_waiting
  pub first : (j : ℕ) → j < i → (fi.cell j).status ≢ fs_waiting

pub first_frame_none :
    (ijob icomp : ℕ) (w : Database)
    → attach_frame_shared_memory w.shm (w.job ijob).fishmid ≡ none
    → job_first_frame_available w ijob icomp ≡ (w, none)
unfolding job_first_frame_available
first_frame_none ijob icomp w e = ground (arith, e)

pub first_frame_lem :
    (ijob icomp : ℕ) (w : Database) (fi : FrameTable) (o : Option ℕ)
    → attach_frame_shared_memory w.shm (w.job ijob).fishmid ≡ some fi
    → first_waiting (job_nframes (w.job ijob)) fi ≡ o
    → job_first_frame_available w ijob icomp
      ≡ elim o [ none ↦ (w, none) | some i ↦ (reserve w ijob fi i icomp, some i) ]
unfolding job_first_frame_available
first_frame_lem ijob icomp w fi none e f = ground (arith, e, f)
first_frame_lem ijob icomp w fi (some i) e f = ground (arith, e, f, find_first-some _ _ i f)

pub first_frame_refused :
    (ijob icomp : ℕ) (w : Database)
    → (job_first_frame_available w ijob icomp).1 ≡ none
    → (job_first_frame_available w ijob icomp).0 ≡ w
unfolding job_first_frame_available
first_frame_refused ijob icomp w e = ground arith

module _ (wdb : Database) (ijob icomp : ℕ) (blocked pools : List CString)
    (hosts : BlockedHosts wdb.shm (wdb.job ijob) blocked)
    (members : Holds wdb.shm (wdb.computer icomp).limits pools) where
  locked_unchanged : (job_limits_passed (semaphore_lock wdb) ijob icomp).0 ≡ semaphore_lock wdb
  locked_unchanged =
      limits_passed_unchanged (semaphore_lock wdb) ijob icomp blocked pools hosts members

  -- What is left of the call once the limits have passed.
  passed_then :
      (job_limits_passed (semaphore_lock wdb) ijob icomp).1 ≡ true
      → job_limits_passed (semaphore_lock wdb) ijob icomp ≡ (semaphore_lock wdb, true)
  passed_then e = λ i. (locked_unchanged i, e i)

  refused_then :
      (job_limits_passed (semaphore_lock wdb) ijob icomp).1 ≡ false
      → job_limits_passed (semaphore_lock wdb) ijob icomp ≡ (semaphore_lock wdb, false)
  refused_then e = λ i. (locked_unchanged i, e i)

  abbrev unchanged : Database × Option ℕ
  unchanged = (record wdb { locked = false }, none)

  -- The frame is handed out and marked, or none can be and nothing has changed.
  abbrev pub Outcome : Type 0
  Outcome =
      ((fi : FrameTable) × (i : ℕ) × Assignable wdb ijob icomp blocked pools fi i
        × (job_available wdb ijob icomp
            ≡ (record (handed_out wdb ijob fi i icomp) { locked = false }, some i)))
      ⊎ ((job_available wdb ijob icomp ≡ unchanged)
          × ((fi : FrameTable) (i : ℕ) → ¬ Assignable wdb ijob icomp blocked pools fi i))

  -- A table in which no frame of the range waits.
  none_waits :
      (fi : FrameTable)
      → attach_frame_shared_memory wdb.shm (wdb.job ijob).fishmid ≡ some fi
      → first_waiting (job_nframes (wdb.job ijob)) fi ≡ none
      → (fi' : FrameTable) (i : ℕ) → ¬ Assignable wdb ijob icomp blocked pools fi' i
  none_waits fi e no_frame fi' i a =
      let same : fi ≡ fi' = ground (arith, e, a.attached) in
      let not_waiting = find_first-none _ _ i no_frame a.in_range in
      let still : (fi.cell i).status ≡ fs_waiting = rw same a.waiting in
      ground (arith, not_waiting, still)

  reserve_first :
      job_index_correct_master wdb ijob ≡ true
      → is_ready wdb (wdb.job ijob) ≡ true
      → (job_limits_passed (semaphore_lock wdb) ijob icomp).1 ≡ true
      → (o : Option FrameTable) → attach_frame_shared_memory wdb.shm (wdb.job ijob).fishmid ≡ o
      → Outcome
  unfolding job_available job_index_correct_master
  reserve_first correct ready passed none e = inr (
    rw (correct, ready, passed_then passed, first_frame_none ijob icomp (semaphore_lock wdb) e),
    λ fi i a. ground (arith, e, a.attached),
  )
  reserve_first correct ready passed (some fi) e =
      elim (Option-cases (first_waiting (job_nframes (wdb.job ijob)) fi)) [
        | inl no_frame ↦ inr (
          rw (
            correct,
            ready,
            passed_then passed,
            first_frame_lem ijob icomp (semaphore_lock wdb) fi none e no_frame,
          ),
          none_waits fi e no_frame,
        )
        | inr (i, found) ↦
            let (below, hit) = find_first-some _ _ i found in
            inl (
              fi,
              i,
              record {
                correct = correct;
                ready = ready_may wdb (wdb.job ijob) ready;
                passes =
                    (limits_passed_iff (semaphore_lock wdb) ijob icomp blocked pools hosts
                        members).0
                      passed;
                attached = e;
                in_range = below;
                waiting = ground arith;
                first = λ j l. ground (arith, find_first_least _ _ i j found l);
              },
              rw (
                correct,
                ready,
                passed_then passed,
                first_frame_lem ijob icomp (semaphore_lock wdb) fi (some i) e found,
              ),
            )
      ]

  -- Where the job's blocked hosts and the computer's pools are these lists, and can be attached, one of two
  -- things happens. Some frame may be handed out: the job is in use, waits or is active, any job that it waits for
  -- is finished, the computer passes its limits, and a frame of its table waits. Then the first
  -- waiting one is handed out: it is assigned to the computer with no task, the job counts one process
  -- more and one frame less, and nothing else changes but that the lock is free. Or none may: then nothing is
  -- handed out, and nothing changes but that the lock is free.
  pub job_available_outcome : Outcome
  unfolding job_available job_index_correct_master
  job_available_outcome = elim (Bool-cases (job_index_correct_master wdb ijob)) [
    | inr wrong ↦ inr (rw wrong, λ fi i a. ground (arith, wrong, a.correct))
    | inl correct ↦ elim (Bool-cases (is_ready wdb (wdb.job ijob))) [
      | inr wrong ↦ inr (
        rw (correct, wrong),
        λ fi i a. ground (arith, wrong, may_ready wdb (wdb.job ijob) a.ready),
      )
      | inl ready ↦ elim (Bool-cases (job_limits_passed (semaphore_lock wdb) ijob icomp).1) [
        | inr refused ↦ inr (
          rw (correct, ready, refused_then refused),
          λ fi i a. ground (
            arith,
            refused,
            (limits_passed_iff (semaphore_lock wdb) ijob icomp blocked pools hosts members).1
                a.passes,
          ),
        )
        | inl passed ↦ reserve_first correct ready passed _ refl
      ]
    ]
  ]
