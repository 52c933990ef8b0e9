-- ===== src/Database/Hosts/Laws.antt =====
-- What blocking and unblocking a host do to the list of a job, and to the computers it may use.
use drqueue.Prelude.{
  ℕ, suc, ◌-◌, ◌≤◌, ◌<◌, ◌≡◌, refl, ◌⊎◌, true, false, some, List, [], ◌∷◌, ◌++◌, CString, arith,
  length, length-append, take_all, contains, ◌≢◌, ◌↔◌, update, update_self, subst, sym, ◌∙◌,
  Bool-cases, ap, inl, inr, str_eq_iff, str_eq_refl,
}
use drqueue.Job.{Job, maxnamelen}
use drqueue.Shm.{Shm, get_blocked_host_shared_memory, attach_blocked_host_shared_memory}
use drqueue.Computer.Pools.{pool_without}
use drqueue.Computer.Pools.Laws.{HasRoom, Distinct, length-pool_without, contains-pool_without}
use drqueue.Database.Limits.{BlockedHosts, job_limits_passed, host_refused}
use drqueue.Database.{Database, put_job}
use drqueue.Database.Hosts.{
  host_append, job_block_host_add_by_name, job_block_host_exists_by_name, host_shrink,
  job_block_host_remove_by_name, job_block_host_shared_memory_remove,
}

-- Asking for a host answers whether it is in the list.
host_exists_lem :
    (shm : Shm) (job : Job) (blocked : List CString) (name : CString)
    → BlockedHosts shm job blocked
    → job_block_host_exists_by_name shm job name ≡ contains blocked name
unfolding job_block_host_exists_by_name contains
host_exists_lem shm job [] name h = ground arith
host_exists_lem shm job (n ∷ ns) name (e, counted) =
    ground (arith, take_all job.nblocked (n ∷ ns) (omega arith))

-- Blocking a new host puts it at the end of the list of the job.
pub host_add-new :
    (shm : Shm) (job : Job) (blocked : List CString) (name : CString)
    → BlockedHosts shm job blocked
    → HasRoom shm
    → contains blocked name ≡ false
    → length blocked < 65_535
    → length name < maxnamelen
    → let (shm', job', done) = job_block_host_add_by_name shm job name in
      (done ≡ true) × BlockedHosts shm' job' (blocked ++ name ∷ [])
unfolding job_block_host_add_by_name host_append get_blocked_host_shared_memory
    attach_blocked_host_shared_memory
host_add-new shm job [] name h room fresh short fits =
    let kept = take_all (maxnamelen - 1) name (omega arith) in
    (
      ground (arith, room.available, room.attachable),
      (
        ground (arith, kept, room.available, room.attachable),
        ground (arith, room.available, room.attachable),
      ),
    )
host_add-new shm job (n ∷ ns) name (e, counted) room fresh short fits =
    let kept = take_all (maxnamelen - 1) name (omega arith) in
    let all = take_all job.nblocked (n ∷ ns) (omega arith) in
    let longer = length-append (n ∷ ns) (name ∷ []) in
    (
      ground (arith, all, room.available, room.attachable),
      (
        ground (arith, kept, all, room.available, room.attachable),
        ground (arith, all, longer, room.available, room.attachable),
      ),
    )

-- Blocking a host that is in the list, or any host when the system has no segment to give, leaves
-- the list as it was; it is reported as done in the first case only.
pub host_add_unchanged :
    (shm : Shm) (job : Job) (blocked : List CString) (name : CString)
    → BlockedHosts shm job blocked
    → (contains blocked name ≡ true) ⊎ (shm.full ≡ true)
    → job_block_host_add_by_name shm job name ≡ (shm, job, contains blocked name)
unfolding job_block_host_add_by_name host_append get_blocked_host_shared_memory contains
    attach_blocked_host_shared_memory
host_add_unchanged shm job [] name h why = ground arith
host_add_unchanged shm job (n ∷ ns) name (e, counted) why =
    ground (arith, take_all job.nblocked (n ∷ ns) (omega arith))

-- The only host of a list cannot be unblocked: the system is asked for a segment of size 0, and the
-- refusal ends the removal, with everything as it was.
pub host_remove_last :
    (shm : Shm) (job : Job) (name : CString)
    → BlockedHosts shm job (name ∷ [])
    → job_block_host_remove_by_name shm job name ≡ (shm, job, false)
unfolding job_block_host_remove_by_name host_shrink get_blocked_host_shared_memory
    attach_blocked_host_shared_memory contains
host_remove_last shm job name (e, counted) =
    ground (arith, host_exists_lem shm job (name ∷ []) name (e, counted), str_eq_refl name)

host_remove_kept :
    (shm : Shm) (job : Job) (n : CString) (ns kept : List CString) (name : CString)
    → pool_without name (n ∷ ns) ≡ kept
    → BlockedHosts shm job (n ∷ ns)
    → shm.full ≡ false
    → shm.no_attach shm.next_id ≡ false
    → job.bhshmid ≢ some shm.next_id
    → suc (length kept) ≡ length (n ∷ ns)
    → contains (n ∷ ns) name ≡ true
    → 2 ≤ length (n ∷ ns)
    → length (n ∷ ns) < 65_536
    → let (shm', job', done) = job_block_host_remove_by_name shm job name in
      (done ≡ true) × BlockedHosts shm' job' kept
unfolding job_block_host_remove_by_name host_shrink get_blocked_host_shared_memory
    attach_blocked_host_shared_memory job_block_host_shared_memory_remove
host_remove_kept shm job n ns [] name k (e, counted) room attachable old fewer there many short =
    absurd (omega arith)
host_remove_kept shm job n ns (k ∷ ks) name same (e, counted) room attachable old fewer there many
      short =
    let seen = host_exists_lem shm job (n ∷ ns) name (e, counted) in
    let all = take_all job.nblocked (n ∷ ns) (omega arith) in
    (ground (arith, seen, all), (ground (arith, seen, all, same), ground (arith, seen, all)))

-- Unblocking one of two or more hosts, none of which is listed twice, takes that name out and keeps
-- the others in order.
pub host_remove_lem :
    (shm : Shm) (job : Job) (blocked : List CString) (name : CString)
    → BlockedHosts shm job blocked
    → HasRoom shm
    → job.bhshmid ≢ some shm.next_id
    → Distinct blocked
    → contains blocked name ≡ true
    → 2 ≤ length blocked
    → length blocked < 65_536
    → let (shm', job', done) = job_block_host_remove_by_name shm job name in
      (done ≡ true) × BlockedHosts shm' job' (pool_without name blocked)
host_remove_lem shm job [] name h room old d there many short = absurd (omega arith)
host_remove_lem shm job (n ∷ ns) name h room old d there many short =
    host_remove_kept shm job n ns (pool_without name (n ∷ ns)) name refl h room.available
      room.attachable old (length-pool_without name (n ∷ ns) d there) there many short

-- A name is in a list with one name taken out exactly when it was there and is another one.
pub without_iff :
    (name q : CString) (names : List CString)
    → (contains (pool_without name names) q ≡ true) ↔ ((contains names q ≡ true) × (q ≢ name))
without_iff name q names = ground (arith, contains-pool_without name q names, str_eq_iff name q)

contains-append_last :
    (names : List CString) (name : CString) → contains (names ++ name ∷ []) name ≡ true
unfolding contains
contains-append_last [] name = ground (arith, str_eq_refl name)
contains-append_last (n ∷ ns) name = ground (arith, contains-append_last ns name)

-- A host that was added is in the list.
host_listed :
    (shm : Shm) (job : Job) (blocked : List CString) (name : CString)
    → BlockedHosts shm job blocked
    → HasRoom shm
    → length blocked < 65_535
    → length name < maxnamelen
    → let (shm', job', done) = job_block_host_add_by_name shm job name in
      (done ≡ true)
      × (blocked' : List CString) × BlockedHosts shm' job' blocked'
      × (contains blocked' name ≡ true)
host_listed shm job blocked name h room short fits = elim (Bool-cases (contains blocked name)) [
  | inl there ↦
      let same = host_add_unchanged shm job blocked name h (inl there) in
      (
        ap (λ r. r.2) same ∙ there,
        blocked,
        subst (λ r. BlockedHosts r.0 r.1 blocked) (sym same) h,
        there,
      )
  | inr fresh ↦
      let (done, h') = host_add-new shm job blocked name h room fresh short fits in
      (done, blocked ++ name ∷ [], h', contains-append_last blocked name)
]

-- Once a host is blocked on a job, no computer of that name passes the limits of the job.
pub blocked_refused :
    (wdb : Database) (ijob icomp : ℕ) (blocked : List CString)
    → BlockedHosts wdb.shm (wdb.job ijob) blocked
    → HasRoom wdb.shm
    → length blocked < 65_535
    → length (wdb.computer icomp).hwinfo.name < maxnamelen
    → let (shm', job', done) =
        job_block_host_add_by_name wdb.shm (wdb.job ijob) (wdb.computer icomp).hwinfo.name in
      (done ≡ true)
      × (job_limits_passed (put_job (record wdb { shm = shm' }) ijob job') ijob icomp).1 ≡ false
blocked_refused wdb ijob icomp blocked h room short fits =
    let name = (wdb.computer icomp).hwinfo.name in
    let after = job_block_host_add_by_name wdb.shm (wdb.job ijob) name in
    let (done, blocked', h', there) =
      host_listed wdb.shm (wdb.job ijob) blocked name h room short fits in
    let stored : BlockedHosts after.0 (update wdb.job ijob after.1 ijob) blocked' =
      subst (λ j. BlockedHosts after.0 j blocked') (sym (update_self wdb.job ijob after.1)) h' in
    (
      done,
      host_refused (put_job (record wdb { shm = after.0 }) ijob after.1) ijob icomp blocked' stored
          there,
    )
