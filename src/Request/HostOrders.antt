-- ===== src/Request/HostOrders.antt =====
-- The handlers by which a client blocks a host on a job, by the index of a computer, or unblocks one
-- (libdrqueue/request.c). `received` is the number or the name of the second packet, if it arrives.
pub mod Alike
use drqueue.Prelude.{
  ℕ, zero, suc, ◌+◌, ◌-◌, ◌*◌, Bool, true, false, not, Option, none, some, List, [], ◌∷◌, ◌++◌,
  CString, leb, ltb, if◌then◌else◌, take, contains, u16, sub16,
}
use drqueue.Job.{Job, is_set, maxnamelen}
use drqueue.Shm.{
  Shm, store, discard, get_blocked_host_shared_memory, attach_blocked_host_shared_memory,
}
use drqueue.Database.{
  Database, semaphore_lock, semaphore_release, put_job, job_index_correct_master,
}
use drqueue.Database.Hosts.{job_block_host_remove_by_name}

-- From the allocation on; `obh` are the names so far, and the name of the computer is copied whole.
unfoldable pub host_blocked : Shm → Job → List CString → CString → Shm × Job
unfolding get_blocked_host_shared_memory attach_blocked_host_shared_memory
host_blocked shm job obh name =
    let (shm', nbhshmid) = get_blocked_host_shared_memory (job.nblocked + 1) shm in
    elim nbhshmid [
      | none ↦ (shm', job)
      | some id ↦ elim (attach_blocked_host_shared_memory shm' (some id)) [
        | none ↦ (shm', job)
        | some nbh ↦
            let left =
              if is_set job.nblocked then discard shm'.host_seg job.bhshmid else shm'.host_seg in
            (
              record shm' { host_seg = store left (some id) (obh ++ name ∷ []) },
              record job { bhshmid = some id; nblocked = u16 (job.nblocked + 1) },
            )
      ]
    ]

-- The part of the handler between the checks and the release of the lock.
unfoldable pub block_host : Shm → Job → CString → Shm × Job
unfolding host_blocked attach_blocked_host_shared_memory
block_host shm job name =
    if is_set job.nblocked
    then elim (attach_blocked_host_shared_memory shm job.bhshmid) [
      | none ↦ (shm, job)
      | some obh ↦
          let old = take job.nblocked obh in
          if contains old name then (shm, job) else host_blocked shm job old name
    ]
    else host_blocked shm job [] name

-- The index of the computer is not checked.
unfoldable pub handle_r_r_jobblkhost : Database → ℕ → Option ℕ → Database
unfolding block_host
handle_r_r_jobblkhost wdb ijob none = wdb
handle_r_r_jobblkhost wdb ijob (some ihost) =
    let locked = semaphore_lock wdb in
    if not (job_index_correct_master locked ijob)
    then semaphore_release locked
    else if not (is_set (wdb.computer ihost).used)
    then semaphore_release locked
    else let r = block_host wdb.shm (wdb.job ijob) (wdb.computer ihost).hwinfo.name in
      semaphore_release (put_job (record locked { shm = r.0 }) ijob r.1)

-- The loop that copies every host but the one at the index.
unfoldable pub hosts_without : ℕ → List CString → List CString
hosts_without ihost [] = []
hosts_without zero (n ∷ ns) = ns
hosts_without (suc ihost) (n ∷ ns) = n ∷ hosts_without ihost ns

-- The failures leave the semaphore locked, `none`. The number of hosts that the system is asked for is a
-- number of bytes, 128 for each host left.
unfoldable pub unblock_host : Shm → Job → ℕ → Shm × Option Job
unfolding get_blocked_host_shared_memory attach_blocked_host_shared_memory hosts_without
unblock_host shm job ihost = elim (attach_blocked_host_shared_memory shm job.bhshmid) [
  | none ↦ (shm, none)
  | some obh ↦
      if ltb 1 job.nblocked
      then (let (shm', nbhshmid) =
            get_blocked_host_shared_memory (maxnamelen * (job.nblocked - 1)) shm in
          elim nbhshmid [
            | none ↦ (shm', none)
            | some id ↦ elim (attach_blocked_host_shared_memory shm' (some id)) [
              | none ↦ (shm', none)
              | some nbh ↦
                  let kept = hosts_without ihost (take job.nblocked obh) in
                  (
                    record shm' {
                      host_seg = discard (store shm'.host_seg (some id) kept) job.bhshmid;
                    },
                    some (record job { bhshmid = some id; nblocked = sub16 job.nblocked 1 }),
                  )
            ]
          ])
      else (
        record shm { host_seg = discard shm.host_seg job.bhshmid },
        some (record job { bhshmid = none; nblocked = 0 }),
      )
]

unfoldable pub handle_r_r_jobdelblkhost : Database → ℕ → Option ℕ → Database
unfolding unblock_host
handle_r_r_jobdelblkhost wdb ijob received =
    if not (job_index_correct_master wdb ijob) then wdb else elim received [
      | none ↦ wdb
      | some ihost ↦
          let locked = semaphore_lock wdb in
          if leb (wdb.job ijob).nblocked ihost
          then semaphore_release locked
          else let r = unblock_host wdb.shm (wdb.job ijob) ihost in
            elim r.1 [
              | none ↦ record locked { shm = r.0 }
              | some job ↦ semaphore_release (put_job (record locked { shm = r.0 }) ijob job)
            ]
    ]

unfoldable pub handle_r_r_jobunblkhostname : Database → ℕ → Option CString → Database
unfolding job_block_host_remove_by_name
handle_r_r_jobunblkhostname wdb ijob none = wdb
handle_r_r_jobunblkhostname wdb ijob (some name) =
    let locked = semaphore_lock wdb in
    if not (job_index_correct_master locked ijob)
    then semaphore_release locked
    else let r = job_block_host_remove_by_name wdb.shm (wdb.job ijob) name in
      semaphore_release (put_job (record locked { shm = r.0 }) ijob r.1)
