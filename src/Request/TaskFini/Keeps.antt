-- ===== src/Request/TaskFini/Keeps.antt =====
-- What a report of a task's end does to the frames and the counters of the job.
use drqueue.Prelude.{
  ℕ, ◌+◌, ◌≤◌, ◌<◌, ◌≡◌, refl, sym, ap, subst, ◌∙◌, true, false, some, ◌==◌, if◌then◌else◌,
  count_below-le, update, update_self, str_eq_iff, arith, List, [], ◌∷◌, ◌⊎◌, inl, inr,
}
use drqueue.Frame.{FrameInfo, fs_waiting, fs_assigned, fs_error, fs_finished}
use drqueue.Job.{Job}
use drqueue.Job.Numbering.{
  job_nframes, job_frame_number_correct, job_frame_number_to_index, HasRange,
  number_to_index-lt-nframes,
}
use drqueue.Shm.{FrameTable, attach_frame_shared_memory, store_frames}
use drqueue.Task.{Task}
use drqueue.Database.Assign.{reserved}
use drqueue.Database.{Database, job_index_correct_master}
use drqueue.Database.Consistent.{Counts, Consistent, frames_in, frames_in-update, attached_after}
use drqueue.Request.TaskFini.{
  max_requeues, Tally, no_counter, left, done, failed, frame_ended, tally_job, one_less, task_ended,
  handle_r_r_taskfini,
}

-- The counter that is incremented is that of the state the frame ends in.
abbrev pub Matches : FrameInfo → Tally → Type 0
Matches f no_counter = ⊥
Matches f left = f.status ≡ fs_waiting
Matches f done = f.status ≡ fs_finished
Matches f failed = f.status ≡ fs_error

-- A frame that was being rendered when its task ended waits again, is finished, or has failed, and
-- the counter of that state is the one that moves.
pub frame_ended-Matches :
    (now auto_requeue stat : ℕ) (f : FrameInfo)
    → f.status ≡ fs_assigned
    → let (f', tally) = frame_ended now auto_requeue stat f in Matches f' tally
unfolding frame_ended
frame_ended-Matches now auto_requeue stat f h = ground arith

-- How a report ends for the frame that was assigned: it waits again, having been requeued once more and
-- fewer than MAX_REQUEUES times before, or it does not wait and its count stays.
pub ended_count :
    (now auto_requeue stat : ℕ) (f : FrameInfo)
    → f.status ≡ fs_assigned
    → let f' = (frame_ended now auto_requeue stat f).0 in
      ((f'.status ≡ fs_waiting) × (f'.requeued ≡ f.requeued + 1) × (f.requeued < max_requeues))
      ⊎ ((f'.status == fs_waiting) ≡ false) × (f'.requeued ≡ f.requeued)
unfolding frame_ended
ended_count now auto_requeue stat f h = ground (arith, h)

-- How often a frame comes back to the waiting ones, when it is handed out and its task ends over and over:
-- by the computer that it is handed out to, the time of the report, and the exit status.
unfoldable pub times_requeued : ℕ → List (ℕ × ℕ × ℕ) → FrameInfo → ℕ
unfolding frame_ended
times_requeued auto_requeue [] f = 0
times_requeued auto_requeue ((icomp, now, stat) ∷ rounds) f =
    let f' = (frame_ended now auto_requeue stat (reserved icomp f)).0 in
    (if f'.status == fs_waiting then 1 else 0) + times_requeued auto_requeue rounds f'

-- A frame comes back to the waiting ones at most MAX_REQUEUES times, less those that it came back before,
-- however often it is handed out and its task ends, whatever the exit statuses.
pub requeues_bounded :
    (auto_requeue : ℕ) (rounds : List (ℕ × ℕ × ℕ)) (f : FrameInfo)
    → f.requeued ≤ max_requeues
    → times_requeued auto_requeue rounds f + f.requeued ≤ max_requeues
unfolding times_requeued
requeues_bounded auto_requeue [] f l = omega (arith, l)
requeues_bounded auto_requeue ((icomp, now, stat) ∷ rounds) f l =
    let f' = (frame_ended now auto_requeue stat (reserved icomp f)).0 in
    elim (ended_count now auto_requeue stat (reserved icomp f) refl) [
      | inl (waits, more, fewer) ↦ ground (
        arith,
        waits,
        more,
        fewer,
        requeues_bounded auto_requeue rounds f' (omega (arith, more, fewer)),
      )
      | inr (stays, same) ↦
          ground
            (arith, stays, same, requeues_bounded auto_requeue rounds f' (omega (arith, same, l)))
    ]

pub nframes-tally :
    (tally : Tally) (job : Job) → job_nframes (tally_job tally (one_less job)) ≡ job_nframes job
unfolding job_nframes
nframes-tally no_counter job = refl
nframes-tally left job = refl
nframes-tally done job = refl
nframes-tally failed job = refl

pub fishmid-tally :
    (tally : Tally) (job : Job) → (tally_job tally (one_less job)).fishmid ≡ job.fishmid
fishmid-tally no_counter job = refl
fishmid-tally left job = refl
fishmid-tally done job = refl
fishmid-tally failed job = refl

module _ (job : Job) (fi : FrameTable) (i : ℕ) (few : job_nframes job < 65_536) (c : Counts job fi)
    (l : i < job_nframes job) (busy : (fi.cell i).status ≡ fs_assigned) where
  bound : (status : ℕ) → frames_in status (job_nframes job) fi ≤ job_nframes job
  bound status = count_below-le (job_nframes job) (λ k. (fi.cell k).status == status)

  counted :
      (tally : Tally) (f : FrameInfo) (status : ℕ)
      → frames_in status
            (job_nframes (tally_job tally (one_less job)))
            (record fi { cell = update fi.cell i f })
          + (if fs_assigned == status then 1 else 0)
        ≡ frames_in status (job_nframes job) fi + (if f.status == status then 1 else 0)
  counted tally f status =
      ground (arith, frames_in-update status (job_nframes job) i fi f l, nframes-tally tally job)

  -- The counters go on saying what the table holds.
  pub moved-Counts :
      (tally : Tally) (f : FrameInfo)
      → Matches f tally
      → Counts (tally_job tally (one_less job)) (record fi { cell = update fi.cell i f })
  moved-Counts no_counter f m = absurd m
  moved-Counts left f m = record {
    left = ground (arith, counted left f fs_waiting, c.left, bound fs_waiting);
    running = ground (arith, counted left f fs_assigned, c.running, bound fs_assigned);
    failed = ground (arith, counted left f fs_error, c.failed);
    done = ground (arith, counted left f fs_finished, c.done);
  }
  moved-Counts done f m = record {
    left = ground (arith, counted done f fs_waiting, c.left);
    running = ground (arith, counted done f fs_assigned, c.running, bound fs_assigned);
    failed = ground (arith, counted done f fs_error, c.failed);
    done = ground (arith, counted done f fs_finished, c.done, bound fs_finished);
  }
  moved-Counts failed f m = record {
    left = ground (arith, counted failed f fs_waiting, c.left);
    running = ground (arith, counted failed f fs_assigned, c.running, bound fs_assigned);
    failed = ground (arith, counted failed f fs_error, c.failed, bound fs_error);
    done = ground (arith, counted failed f fs_finished, c.done);
  }

-- With a table attached: a report of a frame that is being rendered keeps the counters right.
pub task_ended-Counts :
    (now : ℕ) (task : Task) (job : Job) (fi : FrameTable)
    → HasRange job
    → job_nframes job < 65_536
    → Counts job fi
    → job_frame_number_correct job task.frame ≡ true
    → (fi.cell (job_frame_number_to_index job task.frame)).status ≡ fs_assigned
    → let (job', fi') = task_ended now task job fi in
      Counts job' fi' × (job_nframes job' ≡ job_nframes job) × (job'.fishmid ≡ job.fishmid)
unfolding task_ended
task_ended-Counts now task job fi range few c correct busy =
    let i = job_frame_number_to_index job task.frame in
    let e = frame_ended now job.auto_requeue task.exitstatus (fi.cell i) in
    let m = frame_ended-Matches now job.auto_requeue task.exitstatus (fi.cell i) busy in
    let l = number_to_index-lt-nframes job range task.frame correct in
    rw correct
      (moved-Counts job fi i few c l busy e.1 e.0 m, nframes-tally e.1 job, fishmid-tally e.1 job)

-- The whole call, where the job is there under its name and its frame memory can be attached.
pub taskfini_lem :
    (wdb : Database) (task : Task) (fi : FrameTable)
    → job_index_correct_master wdb task.ijob ≡ true
    → task.jobname ≡ (wdb.job task.ijob).name
    → attach_frame_shared_memory wdb.shm (wdb.job task.ijob).fishmid ≡ some fi
    → let job = wdb.job task.ijob in
      let (job', fi') = task_ended wdb.now task job fi in
      handle_r_r_taskfini wdb true (some task) ≡ record wdb {
        shm = store_frames job.fishmid fi' wdb.shm;
        job = update wdb.job task.ijob job';
        locked = false;
      }
unfolding handle_r_r_taskfini job_index_correct_master
taskfini_lem wdb task fi correct named e =
    let same = (str_eq_iff task.jobname (wdb.job task.ijob).name).1 named in rw (correct, same, e)

-- A slave's report of a task that renders a frame of the job under its name, while the master has
-- that frame as assigned, keeps the counters of the job in step with its frame table; and the lock is
-- free afterwards.
pub taskfini-Consistent :
    (wdb : Database) (task : Task)
    → job_index_correct_master wdb task.ijob ≡ true
    → task.jobname ≡ (wdb.job task.ijob).name
    → HasRange (wdb.job task.ijob)
    → (c : Consistent wdb.shm (wdb.job task.ijob))
    → job_frame_number_correct (wdb.job task.ijob) task.frame ≡ true
    → (c.table.cell (job_frame_number_to_index (wdb.job task.ijob) task.frame)).status ≡ fs_assigned
    → let after = handle_r_r_taskfini wdb true (some task) in
      Consistent after.shm (after.job task.ijob) × (after.locked ≡ false)
taskfini-Consistent wdb task correct named range c in_range busy =
    let job = wdb.job task.ijob in
    let (job', fi') = task_ended wdb.now task job c.table in
    let (counts, n, id) =
      task_ended-Counts wdb.now task job c.table range c.few c.counts in_range busy in
    let kept : Consistent (store_frames job.fishmid fi' wdb.shm) job' = record {
      table = fi';
      attached =
          ap (attach_frame_shared_memory (store_frames job.fishmid fi' wdb.shm)) id
          ∙ attached_after wdb.shm job.fishmid c.table fi' c.attached;
      few = rw n c.few;
      counts = counts;
    } in
    rw (taskfini_lem wdb task c.table correct named c.attached) (
      subst (Consistent (store_frames job.fishmid fi' wdb.shm))
          (sym (update_self wdb.job task.ijob job')) kept,
      refl,
    )
