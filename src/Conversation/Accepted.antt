-- ===== src/Conversation/Accepted.antt =====
-- What the master has in its table of a job that a client submitted.
use drqueue.Prelude.{ℕ, ◌<◌, ◌≡◌, refl, sym, subst, ◌∙◌, some, List, [], ◌∷◌, arith, true, false}
use drqueue.Prelude.Bytes.{Host}
use drqueue.Communications.Memory.{bytes32}
use drqueue.Job.{jobstatus_waiting, Job, EnvVar, EnvVars}
use drqueue.Job.Numbering.{job_nframes}
use drqueue.Shm.{Shm, get_frame_shared_memory, attach_frame_shared_memory}
use drqueue.Database.{Database, job_index_correct_master}
use drqueue.Database.Lookup.{FirstMatch, IsFree, job_index_free, job_index_free-FirstMatch}
use drqueue.Job.{maxjobs}
use drqueue.Database.Registry.{job_init_registered}
use drqueue.Database.Registry.Lifecycle.{register_lock}
use drqueue.EnvVars.{Handle}
use drqueue.EnvVars.Laws.{Holds}
use drqueue.EnvVars.Bindings.{Ready}
use drqueue.Communications.Jobs.{detached}
use drqueue.Communications.JobTrip.{arrived_job}
use drqueue.Conversation.Submission.{job_reserved}

-- What the client asked for, but for the job to wait for.
pub record SameOrder (job job' : Job) : Type 0 where
  pub name : job'.name ≡ job.name
  pub cmd : job'.cmd ≡ job.cmd
  pub owner : job'.owner ≡ job.owner
  pub priority : job'.priority ≡ job.priority
  pub frame_start : job'.frame_start ≡ job.frame_start
  pub frame_end : job'.frame_end ≡ job.frame_end
  pub frame_step : job'.frame_step ≡ job.frame_step
  pub block_size : job'.block_size ≡ job.block_size
  pub flags : job'.flags ≡ job.flags
  pub limits : job'.limits ≡ job.limits
  pub koj : job'.koj ≡ job.koj
  pub koji : job'.koji ≡ job.koji
  pub email : job'.email ≡ job.email
  pub auto_requeue : job'.auto_requeue ≡ job.auto_requeue
  pub frame_pad : job'.frame_pad ≡ job.frame_pad

-- A job in its place of the table that waits, with no frame rendered, failed or being rendered.
pub record Unstarted (index : ℕ) (job : Job) : Type 0 where
  pub used : job.used ≡ 1
  pub id : job.id ≡ index
  pub status : job.status ≡ jobstatus_waiting
  pub nprocs : job.nprocs ≡ 0
  pub fdone : job.fdone ≡ 0
  pub ffailed : job.ffailed ≡ 0

pub registered_order :
    (wdb : Database) (index : ℕ) (s r : Host) (job : Job) (envvars : EnvVars)
    → job_index_correct_master wdb index ≡ true
    → Ready wdb.shm
    → 0 < job_nframes job
    → let after = job_init_registered wdb index (arrived_job s r job envvars) in
      SameOrder job (after.job index)
      × Unstarted index (after.job index)
      × ((after.job index).dependid ≡ bytes32 r (bytes32 s job.dependid))
      × ((after.job index).envvars ≡ envvars)
unfolding job_init_registered job_index_correct_master get_frame_shared_memory
    attach_frame_shared_memory job_nframes
registered_order wdb index s r job envvars correct ready some_frames =
    let room = ready.available in
    let attachable = ready.attachable wdb.shm.next_id in
    (
      record {
        name = ground arith;
        cmd = ground arith;
        owner = ground arith;
        priority = ground arith;
        frame_start = ground arith;
        frame_end = ground arith;
        frame_step = ground arith;
        block_size = ground arith;
        flags = ground arith;
        limits = ground arith;
        koj = ground arith;
        koji = ground arith;
        email = ground arith;
        auto_requeue = ground arith;
        frame_pad = ground arith;
      },
      record {
        used = ground arith;
        id = ground arith;
        status = ground arith;
        nprocs = ground arith;
        fdone = ground arith;
        ffailed = ground arith;
      },
      ground arith,
      ground arith,
    )

registered_kept :
    (wdb : Database) (index : ℕ) (job : Job) (id : ℕ)
    → id < wdb.shm.next_id
    → let shm = (job_init_registered wdb index job).shm in
      (shm.env_seg id ≡ wdb.shm.env_seg id)
      × (id < shm.next_id)
      × (shm.no_attach id ≡ wdb.shm.no_attach id)
unfolding job_init_registered get_frame_shared_memory attach_frame_shared_memory
registered_kept wdb index job id given = ground arith

pub registered_env :
    (wdb : Database) (index : ℕ) (job : Job) (h : Handle) (vars : List EnvVar)
    → Holds wdb.shm h vars
    → Holds (job_init_registered wdb index job).shm h vars
unfolding job_init_registered get_frame_shared_memory attach_frame_shared_memory
registered_env wdb index job h [] hold = hold
registered_env wdb index job h (v ∷ vs) (id, st) =
    let (seg, next, attachable) = registered_kept wdb index job id st.given in
    (
      id,
      record {
        shmid = st.shmid;
        contents = seg ∙ st.contents;
        attachable = attachable ∙ st.attachable;
        given = next;
        counted = st.counted;
        detached = st.detached;
      },
    )

pub nframes_arrive :
    (s r : Host) (job : Job) (envvars : EnvVars)
    → 0 < job_nframes job
    → job_nframes (arrived_job s r job envvars) ≡ job_nframes job
unfolding job_nframes
nframes_arrive s r job envvars some_frames = ground arith

pub free_correct :
    (wdb : Database) (index : ℕ)
    → job_index_free wdb ≡ some index
    → (shm : Shm)
    → job_index_correct_master (record (job_reserved wdb index) { shm = shm }) index ≡ true
unfolding job_index_correct_master
free_correct wdb index free shm =
    let (below, unused, least) =
      subst (FirstMatch (IsFree wdb) maxjobs) free (job_index_free-FirstMatch wdb) in
    ground (arith, below)

pub free_below :
    (wdb : Database) (index : ℕ) → job_index_free wdb ≡ some index → index < 4_294_967_296
free_below wdb index free =
    let (below, unused, least) =
      subst (FirstMatch (IsFree wdb) maxjobs) free (job_index_free-FirstMatch wdb) in
    omega (arith, below)

pub held_detached :
    (shm : Shm) (h : Handle) (vars : List EnvVar) (envvars : EnvVars)
    → Holds shm h vars
    → envvars ≡ h.envvars
    → Holds shm (detached envvars) vars
held_detached shm h [] envvars hold e =
    subst (λ v. Holds shm (detached v) []) (sym e) (hold.0, hold.1, refl)
held_detached shm h (v ∷ vs) envvars (id, st) e =
    subst (λ w. Holds shm (detached w) (v ∷ vs)) (sym e)
      (
        id,
        record {
          shmid = st.shmid;
          contents = st.contents;
          attachable = st.attachable;
          given = st.given;
          counted = st.counted;
          detached = refl;
        },
      )

pub lock_free :
    (wdb : Database) (index : ℕ) (job : Job)
    → job_index_correct_master wdb index ≡ true
    → (job_init_registered wdb index job).locked ≡ false
lock_free wdb index job correct = ground (arith, register_lock wdb index job, correct)
