-- ===== src/Request/SlaveExit.antt =====
-- A slave that quits (libdrqueue/request.c, `handle_r_r_slavexit`).
use drqueue.Prelude.{ℕ, ◌≡◌, ◌≢◌, Option, none, some, false, not, ◌==◌, ◌&&◌, if◌then◌else◌, arith}
use drqueue.Request.{Request}
use drqueue.Computer.Setup.{Env, computer_init, computer_free}
use drqueue.Database.{
  Database, semaphore_lock, semaphore_release, put_computer, computer_index_correct_master,
}

-- The index of the computer that asks as a uint32_t; -1 is that of none.
abbrev asker : Option ℕ → ℕ
asker none = 4_294_967_295
asker (some icomp) = icomp

abbrev slave_freed : Env → Database → ℕ → Database
unfolding computer_free
slave_freed env wdb icomp2 =
    let freed = computer_free env wdb.shm (wdb.computer icomp2) in
    put_computer (record wdb { shm = freed.0 }) icomp2 freed.1

-- The index in the request is trusted where the record there has the number of the asker.
unfoldable pub handle_r_r_slavexit : Env → Database → Option ℕ → Request → Database
unfolding computer_index_correct_master slave_freed
handle_r_r_slavexit env wdb icomp req =
    let locked = semaphore_lock wdb in
    if not (computer_index_correct_master locked req.«data»)
    then semaphore_release locked
    else if (locked.computer req.«data»).hwinfo.id == asker icomp
    then semaphore_release (slave_freed env locked req.«data»)
    else semaphore_release locked

-- After a slave quits, its record is not in use; with a wrong index, or an index of another computer, the record is
-- as it was. Other records are left as they were, and the lock is free in any case.
slavexit_lem :
    (env : Env) (wdb : Database) (icomp : Option ℕ) (req : Request)
    → let after = handle_r_r_slavexit env wdb icomp req in
      let mine =
        computer_index_correct_master wdb req.«data»
        && ((wdb.computer req.«data»).hwinfo.id == asker icomp) in
      ((after.computer req.«data»).used ≡ (if mine then 0 else (wdb.computer req.«data»).used))
      × ((i : ℕ) → i ≢ req.«data» → after.computer i ≡ wdb.computer i)
      × (after.locked ≡ false)
unfolding handle_r_r_slavexit computer_index_correct_master slave_freed computer_free computer_init
slavexit_lem env wdb icomp req = (ground arith, λ i other. ground (arith, other), ground arith)
