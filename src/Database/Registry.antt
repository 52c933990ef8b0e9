-- ===== src/Database/Registry.antt =====
-- Registering a job in the master's table and deleting it (libdrqueue/job.c).
pub mod Lifecycle
use drqueue.Prelude.{
  ℕ, ◌+◌, ◌*◌, Bool, true, false, not, Option, none, some, CString, ltb, if◌then◌else◌, update, u16,
  u32,
}
use drqueue.Frame.{job_frame_info_init}
use drqueue.Job.{
  Job, EnvVars, ShmId, is_set, jobstatus_waiting, dfltavgftime, job_init,
  job_shared_frame_info_init, job_shared_blocked_hosts_init, envvars_init,
}
use drqueue.Job.Numbering.{job_nframes}
use drqueue.Shm.{
  Shm, FrameTable, get_frame_shared_memory, attach_frame_shared_memory, store_frames, discard,
  removable,
}
use drqueue.Database.{
  Database, semaphore_lock, semaphore_release, put_job, job_index_correct_master,
}

-- The loop that initialises the frames below `nframes`.
abbrev pub all_waiting : ℕ → FrameTable → FrameTable
all_waiting nframes fi = record fi {
  cell = λ i. if ltb i nframes then job_frame_info_init else fi.cell i;
}

-- The counters and times of a job that starts with `nframes` frames, and with this frame memory.
registered : Database → ℕ → Job → ShmId → Job
registered wdb nframes job fishmid = record job {
  fishmid = fishmid;
  fleft = nframes;
  fdone = 0;
  ffailed = 0;
  nprocs = 0;
  submit_time = u32 wdb.now;
  avg_frame_time = dfltavgftime;
  est_finish_time = u32 (wdb.now + dfltavgftime * nframes);
}

-- The part between the copy of the job and the end; `job` is the copy.
register_copied : Database → ℕ → Job → Database
unfolding registered
register_copied wdb ijob job =
    let nframes = job_nframes job in
    if not (is_set nframes)
    then put_job wdb ijob (registered wdb nframes job job.fishmid)
    else let (shm, fishmid) = get_frame_shared_memory nframes wdb.shm in
      elim (attach_frame_shared_memory shm fishmid) [
        | none ↦ put_job (record wdb { shm = shm }) ijob (job_init wdb.user)
        | some fi ↦
            put_job (record wdb { shm = store_frames fishmid (all_waiting nframes fi) shm }) ijob
              (registered wdb nframes job fishmid)
      ]

-- The return on a wrong index leaves the semaphore locked.
unfoldable pub job_init_registered : Database → ℕ → Job → Database
unfolding register_copied
job_init_registered wdb ijob job =
    let locked = semaphore_lock wdb in
    if not (job_index_correct_master locked ijob)
    then locked
    else semaphore_release (
        register_copied locked ijob
          (record job { used = 1; id = ijob; status = jobstatus_waiting }))

unfoldable pub job_frame_info_free : Shm → Job → Shm × Job × Bool
unfolding job_shared_frame_info_init
job_frame_info_free shm job = elim job.fishmid [
  | none ↦ (shm, job_shared_frame_info_init job, true)
  | some id ↦ (
    record shm { frame_seg = discard shm.frame_seg (some id) },
    job_shared_frame_info_init job,
    removable shm.frame_seg (some id),
  )
]

unfoldable pub job_block_host_free : Shm → Job → Shm × Job × Bool
unfolding job_shared_blocked_hosts_init
job_block_host_free shm job = elim job.bhshmid [
  | none ↦ (shm, job_shared_blocked_hosts_init job, true)
  | some id ↦ (
    record shm { host_seg = discard shm.host_seg (some id) },
    job_shared_blocked_hosts_init job,
    removable shm.host_seg (some id),
  )
]

unfoldable pub envvars_free : Shm → EnvVars → Shm × EnvVars × Bool
unfolding envvars_init
envvars_free shm envvars = elim envvars.evshmid [
  | none ↦ (shm, envvars_init, true)
  | some id ↦ (
    record shm { env_seg = discard shm.env_seg (some id) },
    envvars_init,
    removable shm.env_seg (some id),
  )
]

-- The results of the parts are not looked at.
unfoldable pub job_delete : CString → Shm → Job → Shm × Job
unfolding job_frame_info_free job_block_host_free envvars_free
job_delete user shm job =
    let (shm1, job1, _) = job_frame_info_free shm job in
    let (shm2, job2, _) = job_block_host_free shm1 job1 in
    let (shm3, _, _) = envvars_free shm2 job2.envvars in (shm3, job_init user)
