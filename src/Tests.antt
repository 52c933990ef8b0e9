-- ===== src/Tests.antt =====
-- Test data: one job with some of its frames done and one being rendered, and one computer.
mod Work
mod Parts
mod Lists
mod Search
mod Life
mod Vars
mod Wire
use drqueue.Prelude.{
  ℕ, true, false, not, Option, none, some, List, [], ◌∷◌, CString, codes, ◌==◌, if◌then◌else◌, ltb,
}
use drqueue.Frame.{FrameInfo, fs_waiting, fs_assigned, fs_finished}
use drqueue.Job.{Job, JobLimits, jobstatus_waiting, jobstatus_active, default_pool}
use drqueue.Job.Priority.{Tpol}
use drqueue.Shm.{Shm, FrameTable}
use drqueue.Task.{Task, taskstatus_running, taskstatus_finished}
use drqueue.Computer.{Computer, ComputerLimits, os_linux}
use drqueue.Database.{Database}

abbrev pub no_job : Job
no_job = record {
  used = 0;
  id = 0;
  nprocs = 0;
  status = jobstatus_waiting;
  priority = 500;
  name = [];
  cmd = [];
  owner = [];
  email = [];
  auto_requeue = 1;
  koj = 0;
  koji = record { resx = 0; resy = 0 };
  frame_start = 1;
  frame_end = 1;
  frame_pad = 4;
  frame_step = 1;
  fleft = 0;
  fdone = 0;
  ffailed = 0;
  old_fdone = 0;
  old_nprocs = 0;
  block_size = 1;
  submit_time = 0;
  avg_frame_time = 0;
  est_finish_time = 0;
  fishmid = none;
  bhshmid = none;
  nblocked = 0;
  flags = 0;
  dependid = 0;
  limits = record {
    nmaxcpus = 65_535;
    nmaxcpuscomputer = 65_535;
    os_flags = 65_535;
    memory = 0;
    pool = codes "Default";
  };
  envvars = record { nvariables = 0; evshmid = none; evsemid = none };
}

-- Ten frames: the first is done, the second is assigned, the others wait.
abbrev pub shot : Job
shot = record no_job {
  used = 1;
  id = 3;
  status = jobstatus_active;
  name = codes "shot";
  frame_start = 1;
  frame_end = 10;
  nprocs = 1;
  fleft = 8;
  fdone = 1;
  fishmid = some 5;
}

abbrev pub frame_in : ℕ → FrameInfo
frame_in status = record {
  status = status;
  start_time = 100;
  end_time = 0;
  exitcode = 0;
  icomp = 0;
  itask = 0;
  requeued = 0;
  flags = 0;
}

abbrev pub shot_frames : FrameTable
shot_frames = record {
  size = 10;
  cell = λ i. frame_in (if i == 0 then fs_finished else if i == 1 then fs_assigned else fs_waiting);
}

abbrev pub no_task_yet : Task
no_task_yet = record {
  used = 0;
  jobname = [];
  ijob = 0;
  icomp = 0;
  itask = 0;
  jobcmd = [];
  owner = [];
  frame = 0;
  frame_start = 0;
  frame_end = 0;
  frame_pad = 4;
  frame_step = 1;
  block_size = 1;
  pid = 0;
  exitstatus = 0;
  status = taskstatus_finished;
  start_loading_time = 0;
}

-- The second frame, number 2, on the computer.
abbrev pub shot_task : Task
shot_task = record no_task_yet {
  used = 1;
  jobname = codes "shot";
  ijob = 3;
  frame = 2;
  status = taskstatus_running;
  exitstatus = 256;
}

abbrev pub pool_names : List CString
pool_names = codes "Default" ∷ codes "fast" ∷ []

abbrev pub limits_of : ℕ → Option ℕ → ComputerLimits
limits_of npools poolshmid = record {
  enabled = 1;
  nmaxcpus = 4;
  maxfreeloadcpu = 60;
  autoenable = record { last = 0; h = 0; m = 0; flags = 0 };
  npools = npools;
  poolshmid = poolshmid;
  poolsemid = none;
  npoolsattached = 0;
  pool = none;
  local_pool = none;
}

abbrev pub render_box : Computer
render_box = record {
  hwinfo = record {
    name = codes "box";
    address = codes "10.0.0.2";
    id = 0;
    arch = 0;
    os = os_linux;
    proctype = 0;
    procspeed = 1000;
    ncpus = 4;
    speedindex = 1;
    memory = 512;
    nnbits = 64;
  };
  status = record {
    loadavg = λ _. 0;
    ntasks = 1;
    nrunning = 1;
    task = λ i. if i == 0 then shot_task else no_task_yet;
  };
  limits = limits_of 2 (some 2);
  lastconn = 0;
  used = 1;
  semid = none;
}

abbrev pub memory : Shm
memory = record {
  frame_seg = λ i. if i == 5 then some shot_frames else none;
  host_seg = λ i. if i == 3 then some (codes "slow" ∷ codes "old" ∷ []) else none;
  pool_seg =
      λ i. if i == 2 then some pool_names else if i == 1 then some (codes "Default" ∷ []) else none;
  env_seg = λ _. none;
  next_id = 7;
  full = false;
  no_attach = λ _. false;
}

abbrev pub farm : Database
farm = record {
  computer = λ i. record render_box { used = if i == 0 then 1 else 0 };
  job = λ i. if i == 3 then shot else no_job;
  lb = record {
    pol = λ i. record { index = i; pri = 500; submit_time = 0 };
    next_i = 0;
    last_priority = 0;
  };
  shm = memory;
  locked = false;
  now = 1000;
  user = codes "lea";
  mails = [];
}
