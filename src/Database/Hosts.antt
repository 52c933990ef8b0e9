-- ===== src/Database/Hosts.antt =====
-- The list of hosts that a job is blocked on (the end of libdrqueue/job.c). The loop that leaves a
-- name out of a list is that of `computer_pool_remove`.
pub mod Laws
use drqueue.Prelude.{
  ℕ, ◌+◌, ◌-◌, ◌*◌, Bool, true, false, not, Option, none, some, List, [], ◌∷◌, ◌++◌, CString, ◌==◌,
  if◌then◌else◌, take, contains, u16, sub16,
}
use drqueue.Job.{Job, ShmId, is_set, maxnamelen}
use drqueue.Shm.{
  Shm, store, discard, removable, get_blocked_host_shared_memory, attach_blocked_host_shared_memory,
}
use drqueue.Computer.Pools.{pool_without}

-- From the allocation on; `old` are the names so far.
unfoldable pub host_append : Shm → Job → List CString → CString → Shm × Job × Bool
unfolding get_blocked_host_shared_memory attach_blocked_host_shared_memory
host_append shm job old name =
    let (shm', nbhshmid) = get_blocked_host_shared_memory (job.nblocked + 1) shm in
    elim nbhshmid [
      | none ↦ (shm', job, false)
      | some id ↦ elim (attach_blocked_host_shared_memory shm' (some id)) [
        | none ↦ (shm', job, false)
        | some nbh ↦
            let left =
              if is_set job.nblocked then discard shm'.host_seg job.bhshmid else shm'.host_seg in
            let single = take (maxnamelen - 1) name in
            (
              record shm' { host_seg = store left (some id) (old ++ single ∷ []) },
              record job { bhshmid = some id; nblocked = u16 (job.nblocked + 1) },
              true,
            )
      ]
    ]

unfoldable pub job_block_host_add_by_name : Shm → Job → CString → Shm × Job × Bool
unfolding host_append attach_blocked_host_shared_memory
job_block_host_add_by_name shm job name =
    if is_set job.nblocked
    then elim (attach_blocked_host_shared_memory shm job.bhshmid) [
      | none ↦ (shm, job, false)
      | some obh ↦
          let old = take job.nblocked obh in
          if contains old name then (shm, job, true) else host_append shm job old name
    ]
    else host_append shm job [] name

unfoldable pub job_block_host_exists_by_name : Shm → Job → CString → Bool
unfolding attach_blocked_host_shared_memory
job_block_host_exists_by_name shm job name =
    if not (is_set job.nblocked)
    then false
    else elim (attach_blocked_host_shared_memory shm job.bhshmid) [
      | none ↦ false
      | some obh ↦ contains (take job.nblocked obh) name
    ]

unfoldable pub job_block_host_shared_memory_remove : Shm → ShmId → Shm × Bool
job_block_host_shared_memory_remove shm shmid =
    (record shm { host_seg = discard shm.host_seg shmid }, removable shm.host_seg shmid)

-- From the allocation on. The number of hosts that `get_blocked_host_shared_memory` is asked for is
-- a number of bytes, 128 for each host left.
unfoldable host_shrink : Shm → Job → List CString → CString → Shm × Job × Bool
unfolding get_blocked_host_shared_memory attach_blocked_host_shared_memory
    job_block_host_shared_memory_remove pool_without
host_shrink shm job obh name =
    let (shm', nbhshmid) = get_blocked_host_shared_memory (maxnamelen * (job.nblocked - 1)) shm in
    elim nbhshmid [
      | none ↦ (shm', job, false)
      | some id ↦ elim (attach_blocked_host_shared_memory shm' (some id)) [
        | none ↦ ((job_block_host_shared_memory_remove shm' (some id)).0, job, false)
        | some nbh ↦
            let kept = pool_without name (take job.nblocked obh) in
            let written = record shm' { host_seg = store shm'.host_seg (some id) kept } in
            let freed = (job_block_host_shared_memory_remove written job.bhshmid).0 in
            let nblocked = sub16 job.nblocked 1 in
            if nblocked == 0
            then (
              (job_block_host_shared_memory_remove freed (some id)).0,
              record job { bhshmid = none; nblocked = nblocked },
              true,
            )
            else (freed, record job { bhshmid = some id; nblocked = nblocked }, true)
      ]
    ]

unfoldable pub job_block_host_remove_by_name : Shm → Job → CString → Shm × Job × Bool
unfolding host_shrink job_block_host_exists_by_name attach_blocked_host_shared_memory
job_block_host_remove_by_name shm job name =
    if not (job_block_host_exists_by_name shm job name)
    then (shm, job, true)
    else if is_set job.nblocked
    then elim (attach_blocked_host_shared_memory shm job.bhshmid) [
      | none ↦ (shm, job, false)
      | some obh ↦ host_shrink shm job obh name
    ]
    else (shm, job, true)
