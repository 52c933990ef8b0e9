-- ===== src/Computer/Available.antt =====
-- `computer_available` (libdrqueue/computer.c): may the computer take one more task?
use drqueue.Prelude.{
  ℕ, ◌-◌, ◌/◌, ◌<◌, ◌≡◌, ◌↔◌, Bool, true, false, not, ltb, ◌==◌, if◌then◌else◌, arith,
}
use drqueue.Job.{is_set}
use drqueue.Task.{maxtasks}
use drqueue.Computer.{Computer}

-- The minimum of the processors, the limit on them and the task records.
task_slots : Computer → ℕ
task_slots computer =
    let npt =
      if ltb computer.limits.nmaxcpus computer.hwinfo.ncpus
      then computer.limits.nmaxcpus
      else computer.hwinfo.ncpus in
    if ltb npt maxtasks then npt else maxtasks

-- The processors that the load says are taken by others. The `int` t is not left below 0, which is
-- where `-` on these numbers stops.
foreign_load : Computer → ℕ → ℕ
foreign_load computer npt =
    if is_set computer.limits.maxfreeloadcpu
    then computer.status.loadavg 0 / computer.limits.maxfreeloadcpu - computer.status.nrunning
    else npt

-- The answer, and whether the process group was sent SIGINT for a computer that runs more than
-- MAXTASKS tasks. The `int` npt may fall below 0, which counts as 0.
unfoldable pub computer_available : Computer → Bool × Bool
unfolding task_slots foreign_load
computer_available computer =
    if computer.used == 0
    then (false, false)
    else if not (is_set computer.limits.enabled)
    then (false, false)
    else let npt = task_slots computer in
      let npt' = npt - foreign_load computer npt - computer.status.nrunning in
      (is_set npt', ltb maxtasks computer.status.nrunning)

-- A computer is available exactly when it is registered and enabled, its load is measured at all,
-- and its running tasks, or the load in processors where that is more, leave free a processor, a
-- processor of the limit, and a task record.
pub computer_available_iff :
    (computer : Computer)
    → let nrunning = computer.status.nrunning in
      let load = computer.status.loadavg 0 / computer.limits.maxfreeloadcpu in
      ((computer_available computer).0 ≡ true) ↔ (
        (0 < computer.used)
        × (0 < computer.limits.enabled)
        × (0 < computer.limits.maxfreeloadcpu)
        × (nrunning < computer.hwinfo.ncpus)
        × (nrunning < computer.limits.nmaxcpus)
        × (nrunning < maxtasks)
        × (load < computer.hwinfo.ncpus)
        × (load < computer.limits.nmaxcpus)
        × (load < maxtasks))
unfolding computer_available
computer_available_iff computer = ground arith

-- A computer that is available is never one that made the master interrupt itself.
pub available_not_interrupted :
    (computer : Computer)
    → (computer_available computer).0 ≡ true
    → (computer_available computer).1 ≡ false
unfolding computer_available
available_not_interrupted computer h = ground arith
