-- ===== src/Computer.antt =====
-- `struct computer` and the records inside it (libdrqueue/computer.h, computer_info.h,
-- computer_status.h), and the operations on one computer record (libdrqueue/computer.c,
-- computer_status.c). The build defines _NO_COMPUTER_SEMAPHORES and _NO_COMPUTER_POOL_SEMAPHORES, so
-- computer_lock, computer_pool_lock and their releases do nothing.
pub mod Available
pub mod Pools
pub mod Setup
use drqueue.Prelude.{
  ℕ, ◌+◌, ◌-◌, ◌*◌, ◌/◌, Bool, true, false, not, ◌&&◌, Option, none, some, List, CString, ltb, leb,
  ◌==◌, if◌then◌else◌, update, count_below, u16,
}
use drqueue.Job.{ShmId, is_set}
use drqueue.Task.{
  Task, task_init_all, task_is_running, maxtasks, taskstatus_running, taskstatus_finished,
}

pub record HwInfo : Type 0 where
  pub name : CString
  pub address : CString
  pub id : ℕ  -- uint32_t
  pub arch : ℕ  -- uint8_t
  pub os : ℕ  -- uint8_t
  pub proctype : ℕ  -- uint8_t
  pub procspeed : ℕ  -- uint32_t
  pub ncpus : ℕ  -- uint16_t
  pub speedindex : ℕ  -- uint32_t
  pub memory : ℕ  -- uint32_t
  pub nnbits : ℕ  -- uint8_t

-- The values of `t_os` that job limits ask for.
abbrev pub os_irix : ℕ
os_irix = 1

abbrev pub os_linux : ℕ
os_linux = 2

abbrev pub os_cygwin : ℕ
os_cygwin = 3

abbrev pub os_osx : ℕ
os_osx = 5

abbrev pub os_freebsd : ℕ
os_freebsd = 6

pub record ComputerStatus : Type 0 where
  pub loadavg : ℕ → ℕ  -- uint16_t, three cells
  pub ntasks : ℕ  -- uint16_t
  pub nrunning : ℕ  -- uint16_t
  pub task : ℕ → Task

pub record AutoEnable : Type 0 where
  pub last : ℕ  -- uint32_t
  pub h : ℕ  -- uint8_t
  pub m : ℕ  -- uint8_t
  pub flags : ℕ  -- uint8_t

-- `pool` is the segment whose address the pointer of that name holds, and `local_pool` the private
-- copy that the other pointer points to.
pub record ComputerLimits : Type 0 where
  pub enabled : ℕ  -- uint8_t
  pub nmaxcpus : ℕ  -- uint16_t
  pub maxfreeloadcpu : ℕ  -- uint16_t
  pub autoenable : AutoEnable
  pub npools : ℕ  -- uint16_t
  pub poolshmid : ShmId
  pub poolsemid : ShmId
  pub npoolsattached : ℕ  -- uint32_t
  pub pool : Option ℕ
  pub local_pool : Option (List CString)

pub record Computer : Type 0 where
  pub hwinfo : HwInfo
  pub status : ComputerStatus
  pub limits : ComputerLimits
  pub lastconn : ℕ  -- uint32_t
  pub used : ℕ  -- uint8_t
  pub semid : ShmId

abbrev pub maxcomputers : ℕ
maxcomputers = 100

abbrev pub maxloadavg : ℕ
maxloadavg = 160

unfoldable pub computer_status_init : ComputerStatus → ComputerStatus
unfolding task_init_all
computer_status_init cstatus = record cstatus {
  loadavg = update (update (update cstatus.loadavg 2 0) 1 0) 0 0;
  ntasks = 0;
  nrunning = 0;
  task = task_init_all cstatus.task;
}

unfoldable pub computer_ntasks : Computer → ℕ
computer_ntasks comp = u16 (count_below maxtasks (λ i. is_set (comp.status.task i).used))

unfoldable pub computer_nrunning : Computer → ℕ
computer_nrunning comp = u16 (count_below maxtasks (λ i. task_is_running (comp.status.task i)))

-- Does the task run the job?
abbrev pub runs_job : ℕ → Task → Bool
runs_job ijob task =
    is_set task.used && task.ijob == ijob && not (task.status == taskstatus_finished)

unfoldable pub computer_nrunning_job : Computer → ℕ → ℕ
computer_nrunning_job comp ijob =
    u16 (count_below maxtasks (λ c. runs_job ijob (comp.status.task c)))

unfoldable pub computer_limits_cleanup_received : ComputerLimits → ComputerLimits
computer_limits_cleanup_received cl = record cl {
  pool = none;
  local_pool = none;
  poolshmid = none;
  poolsemid = none;
  npoolsattached = 0;
}

unfoldable pub computer_limits_cleanup_to_send : ComputerLimits → ComputerLimits
unfolding computer_limits_cleanup_received
computer_limits_cleanup_to_send cl = computer_limits_cleanup_received cl

unfoldable pub computer_limits_cpu_init : Computer → Computer
computer_limits_cpu_init comp = record comp {
  limits = record comp.limits {
    nmaxcpus = comp.hwinfo.ncpus;
    maxfreeloadcpu = u16 (maxloadavg * comp.hwinfo.ncpus);
  };
}

-- `check_tasks`: `alive pid` says whether `kill (pid, 0)` finds the process.
record_dead : (ℕ → Bool) → Task → Task
record_dead alive task =
    if is_set task.used && task.status == taskstatus_running && not (alive task.pid)
    then record task { used = 0 }
    else task

unfoldable pub check_tasks : (ℕ → Bool) → ComputerStatus → ComputerStatus
unfolding record_dead
check_tasks alive cstatus =
    let after =
      λ (i : ℕ). if ltb i maxtasks then record_dead alive (cstatus.task i) else cstatus.task i in
    record cstatus {
      task = after;
      ntasks = u16 (count_below maxtasks (λ i. is_set (after i).used));
    }
