-- ===== src/Job.antt =====
-- `struct job` and the records inside it (libdrqueue/job.h, libdrqueue/envvars.h), its constants,
-- and the operations that touch one job record only (libdrqueue/job.c).
pub mod Numbering
pub mod Status
pub mod Network
pub mod Priority
use drqueue.Prelude.{ℕ, ◌-◌, ltb, Bool, Option, none, some, [], CString, codes, take}

-- A shared memory id is an int64_t in which -1, here `none`, means that there is none.
abbrev pub ShmId : Type 0
ShmId = Option ℕ

pub record JobLimits : Type 0 where
  pub nmaxcpus : ℕ  -- uint16_t
  pub nmaxcpuscomputer : ℕ  -- uint16_t
  pub os_flags : ℕ  -- uint16_t
  pub memory : ℕ  -- uint32_t
  pub pool : CString

pub record EnvVars : Type 0 where
  pub nvariables : ℕ  -- uint16_t
  pub evshmid : ShmId
  pub evsemid : ShmId

-- `struct envvar`.
pub record EnvVar : Type 0 where
  pub name : CString
  pub value : CString

-- Of `union koj_info` the two words of its turtle member, the only ones that are numbers.
pub record KojInfo : Type 0 where
  pub resx : ℕ  -- uint32_t
  pub resy : ℕ  -- uint32_t

-- The pointers `frame_info.ptr` and `blocked_host.ptr` hold an address only between an attach and
-- the detach of the same call, and are no fields here.
pub record Job : Type 0 where
  pub used : ℕ  -- uint8_t
  pub id : ℕ  -- uint32_t
  pub nprocs : ℕ  -- uint16_t
  pub status : ℕ  -- uint16_t
  pub priority : ℕ  -- uint32_t
  pub name : CString
  pub cmd : CString
  pub owner : CString
  pub email : CString
  pub auto_requeue : ℕ  -- uint8_t
  pub koj : ℕ  -- uint16_t
  pub koji : KojInfo
  pub frame_start : ℕ  -- uint32_t
  pub frame_end : ℕ  -- uint32_t
  pub frame_pad : ℕ  -- uint8_t
  pub frame_step : ℕ  -- uint32_t
  pub fleft : ℕ  -- uint32_t
  pub fdone : ℕ  -- uint32_t
  pub ffailed : ℕ  -- uint32_t
  pub old_fdone : ℕ  -- uint32_t
  pub old_nprocs : ℕ  -- uint16_t
  pub block_size : ℕ  -- uint32_t
  pub submit_time : ℕ  -- uint32_t
  pub avg_frame_time : ℕ  -- uint32_t
  pub est_finish_time : ℕ  -- uint32_t
  pub fishmid : ShmId
  pub bhshmid : ShmId
  pub nblocked : ℕ  -- uint16_t
  pub flags : ℕ  -- uint32_t
  pub dependid : ℕ  -- uint32_t
  pub limits : JobLimits
  pub envvars : EnvVars

abbrev pub jobstatus_waiting : ℕ
jobstatus_waiting = 0

abbrev pub jobstatus_active : ℕ
jobstatus_active = 1

abbrev pub jobstatus_stopped : ℕ
jobstatus_stopped = 2

abbrev pub jobstatus_finished : ℕ
jobstatus_finished = 3

-- The bit numbers of the job flags and of the operating system flags.
abbrev pub jf_mailnotify : ℕ
jf_mailnotify = 0

abbrev pub jf_jobdepend : ℕ
jf_jobdepend = 2

abbrev pub jf_jobdelete : ℕ
jf_jobdelete = 3

abbrev pub osf_irix : ℕ
osf_irix = 0

abbrev pub osf_linux : ℕ
osf_linux = 1

abbrev pub osf_osx : ℕ
osf_osx = 2

abbrev pub osf_freebsd : ℕ
osf_freebsd = 3

abbrev pub osf_cygwin : ℕ
osf_cygwin = 4

-- libdrqueue/constants.h
abbrev pub maxjobs : ℕ
maxjobs = 100

abbrev pub maxnamelen : ℕ
maxnamelen = 128

abbrev pub dfltavgftime : ℕ
dfltavgftime = 120

abbrev pub default_pool : CString
default_pool = codes "Default"

-- A field read as a condition.
abbrev pub is_set : ℕ → Bool
is_set n = ltb 0 n

-- `snprintf (dst, MAXNAMELEN, "%s", src)`.
abbrev pub print_name : CString → CString
print_name src = take (maxnamelen - 1) src

unfoldable pub envvars_init : EnvVars
envvars_init = record { nvariables = 0; evshmid = none; evsemid = none }

unfoldable pub job_shared_frame_info_init : Job → Job
job_shared_frame_info_init job = record job { fishmid = none }

unfoldable pub job_shared_blocked_hosts_init : Job → Job
job_shared_blocked_hosts_init job = record job { bhshmid = none; nblocked = 0 }

unfoldable pub job_limits_init : JobLimits
job_limits_init = record {
  nmaxcpus = 65_535;
  nmaxcpuscomputer = 65_535;
  os_flags = 65_535;
  memory = 0;
  pool = print_name default_pool;
}

-- `memset (job, 0, sizeof (struct job))`. A zeroed id names segment 0.
unfoldable pub job_zeroed : Job
job_zeroed = record {
  used = 0;
  id = 0;
  nprocs = 0;
  status = 0;
  priority = 0;
  name = [];
  cmd = [];
  owner = [];
  email = [];
  auto_requeue = 0;
  koj = 0;
  koji = record { resx = 0; resy = 0 };
  frame_start = 0;
  frame_end = 0;
  frame_pad = 0;
  frame_step = 0;
  fleft = 0;
  fdone = 0;
  ffailed = 0;
  old_fdone = 0;
  old_nprocs = 0;
  block_size = 0;
  submit_time = 0;
  avg_frame_time = 0;
  est_finish_time = 0;
  fishmid = some 0;
  bhshmid = some 0;
  nblocked = 0;
  flags = 0;
  dependid = 0;
  limits = record { nmaxcpus = 0; nmaxcpuscomputer = 0; os_flags = 0; memory = 0; pool = [] };
  envvars = record { nvariables = 0; evshmid = some 0; evsemid = some 0 };
}

-- `user` is the value of USER in the environment of the process.
unfoldable pub job_init : CString → Job
unfolding job_zeroed job_shared_frame_info_init job_shared_blocked_hosts_init envvars_init
    job_limits_init
job_init user =
    let zeroed = job_shared_blocked_hosts_init (job_shared_frame_info_init job_zeroed) in
    record zeroed {
      used = 0;
      envvars = envvars_init;
      frame_start = 1;
      frame_end = 1;
      frame_pad = 4;
      frame_step = 1;
      block_size = 1;
      auto_requeue = 1;
      status = jobstatus_waiting;
      priority = 500;
      flags = 0;
      koj = 0;
      owner = print_name user;
      limits = job_limits_init;
    }

unfoldable pub job_fix_received_invalid : Job → Job
job_fix_received_invalid job = record job {
  envvars = record job.envvars { evshmid = none; nvariables = 0 };
  bhshmid = none;
  nblocked = 0;
  fishmid = none;
}

-- The copy that `job_copy` leaves in `dst`.
unfoldable pub job_copy : Job → Job
unfolding job_fix_received_invalid
job_copy src = job_fix_received_invalid src
