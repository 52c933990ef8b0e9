-- ===== src/Request/HostOrders/Alike.antt =====
-- What blocking and unblocking a host by an index do, against what the operations by its name do.
use drqueue.Prelude.{
  ℕ, ◌≢◌, ◌∙◌, ap, true, false, some, ◌-◌, ◌<◌, ◌≡◌, refl, inl, inr, List, [], CString, take,
  take_all, length, contains, arith, Bool-cases, Option-cases,
}
use drqueue.Job.{Job, is_set, maxnamelen}
use drqueue.Shm.{Shm, attach_blocked_host_shared_memory, get_blocked_host_shared_memory}
use drqueue.Database.Hosts.{host_append, job_block_host_add_by_name}
use drqueue.Request.HostOrders.{host_blocked, block_host, handle_r_r_jobblkhost}
use drqueue.Database.{Database, job_index_correct_master}

appended_alike :
    (shm : Shm) (job : Job) (old : List CString) (name : CString)
    → length name < maxnamelen
    → host_blocked shm job old name ≡ (let r = host_append shm job old name in (r.0, r.1))
unfolding host_blocked host_append get_blocked_host_shared_memory attach_blocked_host_shared_memory
appended_alike shm job old name l =
    ground (arith, take_all (maxnamelen - 1) name (omega (arith, l)))

block_host_lem :
    (shm : Shm) (job : Job) (name : CString)
    → length name < maxnamelen
    → block_host shm job name ≡ (let r = job_block_host_add_by_name shm job name in (r.0, r.1))
unfolding block_host job_block_host_add_by_name
block_host_lem shm job name l = elim (Bool-cases (is_set job.nblocked)) [
  | inr no_hosts ↦ rw no_hosts (appended_alike shm job [] name l)
  | inl hosts ↦ elim (Option-cases (attach_blocked_host_shared_memory shm job.bhshmid)) [
    | inl lost ↦ rw (hosts, lost) refl
    | inr (obh, e) ↦ elim (Bool-cases (contains (take job.nblocked obh) name)) [
      | inl there ↦ rw (hosts, e, there) refl
      | inr absent ↦ rw (hosts, e, absent) (appended_alike shm job (take job.nblocked obh) name l)
    ]
  ]
]

-- A client blocks a computer that is in use, by its index, on a job that is in use; the name of the computer is shorter
-- than its field. The job and the shared memory are then those that blocking a host by name, with the name in the
-- record of that computer, gives; the other jobs are as they were, and the lock is free.
pub blocked_alike :
    (wdb : Database) (ijob ihost : ℕ)
    → job_index_correct_master wdb ijob ≡ true
    → 0 < (wdb.computer ihost).used
    → length (wdb.computer ihost).hwinfo.name < maxnamelen
    → let after = handle_r_r_jobblkhost wdb ijob (some ihost) in
      let (shm, job, _) =
        job_block_host_add_by_name wdb.shm (wdb.job ijob) (wdb.computer ihost).hwinfo.name in
      (after.shm ≡ shm)
      × (after.job ijob ≡ job)
      × ((j : ℕ) → j ≢ ijob → after.job j ≡ wdb.job j)
      × (after.locked ≡ false)
unfolding handle_r_r_jobblkhost job_index_correct_master
blocked_alike wdb ijob ihost correct used l =
    let name = (wdb.computer ihost).hwinfo.name in
    let alike = block_host_lem wdb.shm (wdb.job ijob) name l in
    (
      ground (arith, correct, used) ∙ ap (λ r. r.0) alike,
      ground (arith, correct, used) ∙ ap (λ r. r.1) alike,
      λ j other. ground (arith, correct, used, other),
      ground (arith, correct, used),
    )
