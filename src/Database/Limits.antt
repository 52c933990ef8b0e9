-- ===== src/Database/Limits.antt =====
-- `job_limits_passed` (libdrqueue/job.c): may this computer work on this job? The question about the
-- pool attaches the computer's list, so the answer comes with a database.
use drqueue.Prelude.{
  ℕ, ◌≤◌, ◌<◌, ◌≡◌, refl, sym, ap, ◌∙◌, ◌↔◌, Bool, true, false, not, ◌&&◌, none, some, List, [],
  ◌∷◌, CString, ltb, leb, ◌==◌, if◌then◌else◌, take, take_all, length, contains, has_flag, arith,
  Bool-cases, inl, inr, update_same,
}
use drqueue.Job.{Job, is_set, osf_irix, osf_linux, osf_osx, osf_freebsd, osf_cygwin}
use drqueue.Shm.{Shm, attach_blocked_host_shared_memory}
use drqueue.Computer.{
  Computer, computer_nrunning_job, os_irix, os_linux, os_cygwin, os_osx, os_freebsd,
}
use drqueue.Computer.Pools.{computer_pool_exists}
use drqueue.Computer.Pools.Laws.{Holds, exists_lem}
use drqueue.Database.{Database, put_computer}

-- The tests of the operating system against the flags of the job.
unfoldable pub os_allowed : ℕ → ℕ → Bool
os_allowed os os_flags =
    if os == os_linux && not (has_flag os_flags osf_linux)
    then false
    else if os == os_irix && not (has_flag os_flags osf_irix)
    then false
    else if os == os_osx && not (has_flag os_flags osf_osx)
    then false
    else if os == os_freebsd && not (has_flag os_flags osf_freebsd)
    then false
    else if os == os_cygwin && not (has_flag os_flags osf_cygwin)
    then false
    else true

-- The blocked hosts: `none` where the list could not be attached.
unfoldable pub host_free : Shm → Job → CString → Bool
unfolding attach_blocked_host_shared_memory
host_free shm job name =
    if is_set job.nblocked
    then elim (attach_blocked_host_shared_memory shm job.bhshmid) [
      | none ↦ false
      | some bh ↦ not (contains (take job.nblocked bh) name)
    ]
    else true

-- The last test, of the pool; it writes the limits record of the computer back.
unfoldable pub pool_passed : Database → ℕ → CString → Database × Bool
pool_passed wdb icomp pool =
    let computer = wdb.computer icomp in
    let (limits, found) = computer_pool_exists wdb.shm computer.limits pool in
    (put_computer wdb icomp (record computer { limits = limits }), found)

-- The tests before it, in their order.
unfoldable pub limits_allow : Database → ℕ → ℕ → Bool
unfolding os_allowed host_free
limits_allow wdb ijob icomp =
    let job = wdb.job ijob in
    let computer = wdb.computer icomp in
    if leb job.limits.nmaxcpus job.nprocs
    then false
    else if leb job.limits.nmaxcpuscomputer (computer_nrunning_job computer ijob)
    then false
    else if not (os_allowed computer.hwinfo.os job.limits.os_flags)
    then false
    else if ltb computer.hwinfo.memory job.limits.memory
    then false
    else if not (host_free wdb.shm job computer.hwinfo.name)
    then false
    else true

unfoldable pub job_limits_passed : Database → ℕ → ℕ → Database × Bool
unfolding limits_allow pool_passed
job_limits_passed wdb ijob icomp =
    if limits_allow wdb ijob icomp
    then pool_passed wdb icomp (wdb.job ijob).limits.pool
    else (wdb, false)

-- Whatever the answer, the shared memory and the jobs stay as they were.
pub limits_passed_keeps :
    (wdb : Database) (ijob icomp : ℕ)
    → ((job_limits_passed wdb ijob icomp).0.shm ≡ wdb.shm)
      × ((job_limits_passed wdb ijob icomp).0.job ≡ wdb.job)
unfolding job_limits_passed
limits_passed_keeps wdb ijob icomp = elim (Bool-cases (limits_allow wdb ijob icomp)) [
  | inl allowed ↦ rw allowed (refl, refl)
  | inr refused ↦ rw refused (refl, refl)
]

-- The hosts that may not work on the job, as its record and the shared memory hold them.
abbrev pub BlockedHosts : Shm → Job → List CString → Type 0
BlockedHosts shm job [] = job.nblocked ≡ 0
BlockedHosts shm job (n ∷ ns) =
    (attach_blocked_host_shared_memory shm job.bhshmid ≡ some (n ∷ ns))
    × (job.nblocked ≡ length (n ∷ ns))

-- The systems that a job may ask for, with the bit of its flag.
pub data AsksFor : ℕ → ℕ → Type 0 where
  irix : {os bit : ℕ} → os ≡ os_irix → bit ≡ osf_irix → AsksFor os bit
  linux : {os bit : ℕ} → os ≡ os_linux → bit ≡ osf_linux → AsksFor os bit
  osx : {os bit : ℕ} → os ≡ os_osx → bit ≡ osf_osx → AsksFor os bit
  freebsd : {os bit : ℕ} → os ≡ os_freebsd → bit ≡ osf_freebsd → AsksFor os bit
  cygwin : {os bit : ℕ} → os ≡ os_cygwin → bit ≡ osf_cygwin → AsksFor os bit

os_allowed_sound :
    (os os_flags bit : ℕ)
    → os_allowed os os_flags ≡ true
    → AsksFor os bit
    → has_flag os_flags bit ≡ true
unfolding os_allowed
os_allowed_sound os os_flags bit h (irix e b) = ground arith
os_allowed_sound os os_flags bit h (linux e b) = ground arith
os_allowed_sound os os_flags bit h (osx e b) = ground arith
os_allowed_sound os os_flags bit h (freebsd e b) = ground arith
os_allowed_sound os os_flags bit h (cygwin e b) = ground arith

os_allowed_complete :
    (os os_flags : ℕ)
    → ((bit : ℕ) → AsksFor os bit → has_flag os_flags bit ≡ true)
    → os_allowed os os_flags ≡ true
unfolding os_allowed
os_allowed_complete os os_flags h = ground (
  arith,
  λ (e : os ≡ os_linux). h osf_linux (linux e refl),
  λ (e : os ≡ os_irix). h osf_irix (irix e refl),
  λ (e : os ≡ os_osx). h osf_osx (osx e refl),
  λ (e : os ≡ os_freebsd). h osf_freebsd (freebsd e refl),
  λ (e : os ≡ os_cygwin). h osf_cygwin (cygwin e refl),
)

host_free_lem :
    (shm : Shm) (job : Job) (name : CString) (blocked : List CString)
    → BlockedHosts shm job blocked
    → host_free shm job name ≡ not (contains blocked name)
unfolding host_free contains
host_free_lem shm job name [] h = ground arith
host_free_lem shm job name (n ∷ ns) (e, counted) =
    ground (arith, take_all job.nblocked (n ∷ ns) (omega arith))

-- A computer whose host is blocked does not pass.
pub host_refused :
    (wdb : Database) (ijob icomp : ℕ) (blocked : List CString)
    → BlockedHosts wdb.shm (wdb.job ijob) blocked
    → contains blocked (wdb.computer icomp).hwinfo.name ≡ true
    → (job_limits_passed wdb ijob icomp).1 ≡ false
unfolding job_limits_passed limits_allow
host_refused wdb ijob icomp blocked h there =
    ground (arith, host_free_lem wdb.shm (wdb.job ijob) (wdb.computer icomp).hwinfo.name blocked h)

-- What a job, at index `ijob`, asks of a computer whose pools these are.
pub record Passes (job : Job) (ijob : ℕ) (computer : Computer) (blocked pools : List CString)
    : Type 0 where
  pub procs_free : job.nprocs < job.limits.nmaxcpus
  pub computer_free : computer_nrunning_job computer ijob < job.limits.nmaxcpuscomputer
  pub os_flag : (bit : ℕ) → AsksFor computer.hwinfo.os bit → has_flag job.limits.os_flags bit ≡ true
  pub memory : job.limits.memory ≤ computer.hwinfo.memory
  pub not_blocked : contains blocked computer.hwinfo.name ≡ false
  pub in_pool : contains pools job.limits.pool ≡ true

true_of_not : (b : Bool) → not b ≡ false → b ≡ true
true_of_not b h = ground arith

false_of_not : (b : Bool) → not b ≡ true → b ≡ false
false_of_not b h = ground arith

below_of_leb : (a b : ℕ) → leb a b ≡ false → b < a
below_of_leb a b h = ground arith

at_most_of_ltb : (a b : ℕ) → ltb a b ≡ false → b ≤ a
at_most_of_ltb a b h = ground arith

-- A chain of refusals answers true exactly where none of them is met.
refusals_sound :
    (a b c d e : Bool)
    → (if a
        then false
        else if b
        then false
        else if c
        then false
        else if d
        then false
        else if e
        then false
        else true)
      ≡ true
    → (a ≡ false) × (b ≡ false) × (c ≡ false) × (d ≡ false) × (e ≡ false)
refusals_sound true b c d e h = cc
refusals_sound false true c d e h = cc
refusals_sound false false true d e h = cc
refusals_sound false false false true e h = cc
refusals_sound false false false false true h = cc
refusals_sound false false false false false h = (refl, refl, refl, refl, refl)

allowed_then :
    (allowed : Bool) (wdb : Database) (last : Database × Bool)
    → (if allowed then last else (wdb, false)).1 ≡ true
    → (allowed ≡ true) × (last.1 ≡ true)
allowed_then true wdb last h = (refl, h)
allowed_then false wdb last h = cc

module _ (wdb : Database) (ijob icomp : ℕ) (blocked pools : List CString)
    (hosts : BlockedHosts wdb.shm (wdb.job ijob) blocked)
    (members : Holds wdb.shm (wdb.computer icomp).limits pools) where
  free :
      host_free wdb.shm (wdb.job ijob) (wdb.computer icomp).hwinfo.name
      ≡ not (contains blocked (wdb.computer icomp).hwinfo.name)
  free = host_free_lem wdb.shm (wdb.job ijob) (wdb.computer icomp).hwinfo.name blocked hosts

  pool :
      computer_pool_exists wdb.shm (wdb.computer icomp).limits (wdb.job ijob).limits.pool
      ≡ ((wdb.computer icomp).limits, contains pools (wdb.job ijob).limits.pool)
  pool = exists_lem wdb.shm (wdb.computer icomp).limits pools (wdb.job ijob).limits.pool members

  passed_sound :
      (job_limits_passed wdb ijob icomp).1 ≡ true
      → Passes (wdb.job ijob) ijob (wdb.computer icomp) blocked pools
  unfolding job_limits_passed
  passed_sound h =
      let (allowed, last) = allowed_then _ _ _ h in
      let (procs, running, os, memory, host) = refusals_sound _ _ _ _ _ allowed in
      record {
        procs_free = below_of_leb _ _ procs;
        computer_free = below_of_leb _ _ running;
        os_flag = λ bit asks. os_allowed_sound _ _ bit (true_of_not _ os) asks;
        memory = at_most_of_ltb _ _ memory;
        not_blocked = false_of_not _ (sym free ∙ true_of_not _ host);
        in_pool = sym (ap (λ r. r.1) pool) ∙ last;
      }

  passed_complete :
      Passes (wdb.job ijob) ijob (wdb.computer icomp) blocked pools
      → (job_limits_passed wdb ijob icomp).1 ≡ true
  unfolding job_limits_passed
  passed_complete h = ground (arith, free, pool, os_allowed_complete _ _ h.os_flag)

  pub limits_passed_iff :
      ((job_limits_passed wdb ijob icomp).1 ≡ true)
      ↔ Passes (wdb.job ijob) ijob (wdb.computer icomp) blocked pools
  limits_passed_iff = (passed_sound, passed_complete)

  -- Asking changes nothing.
  pub limits_passed_unchanged : (job_limits_passed wdb ijob icomp).0 ≡ wdb
  unfolding job_limits_passed
  limits_passed_unchanged = elim (Bool-cases (limits_allow wdb ijob icomp)) [
    | inl allowed ↦ rw allowed (
        ap (λ r. put_computer wdb icomp (record (wdb.computer icomp) { limits = r.0 })) pool
        ∙ ap (λ f. record wdb { computer = f }) (update_same wdb.computer icomp))
    | inr refused ↦ rw refused
  ]
