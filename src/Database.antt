-- ===== src/Database.antt =====
-- `struct database` (libdrqueue/database.h), the master's tables, with what else the operations on it
-- read or change: the shared memory, the lock, the clock, the environment, and the mails sent. The
-- two arrays are functions of the index, because the checks of libdrqueue/job.c and
-- libdrqueue/computer.c let the index of the cell after the last one pass: the cells from MAXJOBS and
-- MAXCOMPUTERS on stand for what the memory after the array holds.
pub mod Lookup
pub mod Consistent
pub mod Registry
pub mod Limits
pub mod Assign
pub mod Frames
pub mod Update
pub mod Hosts
use drqueue.Prelude.{ℕ, Bool, true, false, not, List, CString, ltb, if◌then◌else◌, update}
use drqueue.Job.{Job, is_set, maxjobs}
use drqueue.Job.Priority.{Tpol}
use drqueue.Shm.{Shm}
use drqueue.Computer.{Computer, maxcomputers}

pub record LoadBalancing : Type 0 where
  pub pol : ℕ → Tpol
  pub next_i : ℕ  -- uint32_t
  pub last_priority : ℕ  -- uint32_t

-- `locked` is the semaphore `semid`, `now` what `time` returns, `user` the variable USER, and `mails`
-- the names of the jobs whose end was mailed, newest first.
pub record Database : Type 0 where
  pub computer : ℕ → Computer
  pub job : ℕ → Job
  pub lb : LoadBalancing
  pub shm : Shm
  pub locked : Bool
  pub now : ℕ
  pub user : CString
  pub mails : List CString

-- The process that locks waits for the semaphore; a sequence of calls is modelled from the point at
-- which it has it.
abbrev pub semaphore_lock : Database → Database
semaphore_lock wdb = record wdb { locked = true }

abbrev pub semaphore_release : Database → Database
semaphore_release wdb = record wdb { locked = false }

abbrev pub put_job : Database → ℕ → Job → Database
put_job wdb ijob job = record wdb { job = update wdb.job ijob job }

abbrev pub put_computer : Database → ℕ → Computer → Database
put_computer wdb icomp computer = record wdb { computer = update wdb.computer icomp computer }

unfoldable pub job_index_correct_master : Database → ℕ → Bool
job_index_correct_master wdb ijob =
    if ltb maxjobs ijob then false else if not (is_set (wdb.job ijob).used) then false else true

unfoldable pub computer_index_correct_master : Database → ℕ → Bool
computer_index_correct_master wdb icomp =
    if ltb maxcomputers icomp
    then false
    else if not (is_set (wdb.computer icomp).used)
    then false
    else true
