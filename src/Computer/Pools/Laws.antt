-- ===== src/Computer/Pools/Laws.antt =====
-- What the operations on a computer's pools do to the list of names.
use drqueue.Prelude.{
  ℕ, suc, ◌≤◌, ◌<◌, ◌≡◌, refl, ◌⊎◌, true, false, none, some, List, [], ◌∷◌, ◌++◌, CString, arith,
  if◌then◌else◌, length, length-append, take_all, contains, str_eq, Bool-cases, ap, str_eq_iff, inl,
  inr,
}
use drqueue.Job.{maxnamelen}
use drqueue.Shm.{Shm, computer_pool_get_shared_memory}
use drqueue.Computer.{ComputerLimits}
use drqueue.Computer.Pools.{
  computer_pool_exists, computer_pool_add, computer_pool_remove, pool_without,
}

-- The names lie in segment `id`, which can be attached, and is not attached now.
pub record Stored (shm : Shm) (cl : ComputerLimits) (id : ℕ) (names : List CString) : Type 0 where
  pub shmid : cl.poolshmid ≡ some id
  pub contents : shm.pool_seg id ≡ some names
  pub attachable : shm.no_attach id ≡ false
  pub given : id < shm.next_id
  pub counted : cl.npools ≡ length names
  pub detached : cl.pool ≡ none

-- The limits record stands for this list of names.
abbrev pub Holds : Shm → ComputerLimits → List CString → Type 0
Holds shm cl [] = (cl.npools ≡ 0) × (cl.poolshmid ≡ none) × (cl.pool ≡ none)
Holds shm cl (n ∷ ns) = (id : ℕ) × Stored shm cl id (n ∷ ns)

-- Asking for a pool answers whether it is in the list, and leaves the record as it was.
pub exists_lem :
    (shm : Shm) (cl : ComputerLimits) (names : List CString) (poolname : CString)
    → Holds shm cl names
    → computer_pool_exists shm cl poolname ≡ (cl, contains names poolname)
unfolding computer_pool_exists contains
exists_lem shm cl [] poolname h = ground arith
exists_lem shm cl (n ∷ ns) poolname (id, h) =
    ground (arith, take_all cl.npools (n ∷ ns) (omega (arith, h.counted)))

-- The system has a segment to give, and lets the process attach it.
pub record HasRoom (shm : Shm) : Type 0 where
  pub available : shm.full ≡ false
  pub attachable : shm.no_attach shm.next_id ≡ false

-- Adding a new name puts it at the end of the list; the record then stands for the longer list.
pub add-new :
    (shm : Shm) (cl : ComputerLimits) (names : List CString) (poolname : CString)
    → Holds shm cl names
    → HasRoom shm
    → contains names poolname ≡ false
    → length names < 65_535
    → length poolname ≤ maxnamelen
    → let (shm', cl', done) = computer_pool_add shm cl poolname in
      (done ≡ true) × Holds shm' cl' (names ++ poolname ∷ [])
unfolding computer_pool_add computer_pool_get_shared_memory
add-new shm cl [] poolname h room fresh short fits =
    let seen = exists_lem shm cl [] poolname h in
    let kept = take_all maxnamelen poolname fits in
    (ground (arith, seen, kept), (shm.next_id, ground (arith, seen, kept)))
add-new shm cl (n ∷ ns) poolname (id, h) room fresh short fits =
    let seen = exists_lem shm cl (n ∷ ns) poolname (id, h) in
    let kept = take_all maxnamelen poolname fits in
    let all = take_all cl.npools (n ∷ ns) (omega (arith, h.counted)) in
    let longer = length-append (n ∷ ns) (poolname ∷ []) in
    (ground (arith, seen, kept, all), (shm.next_id, ground (arith, seen, kept, all, longer)))

-- Adding a name that is there, or a name when the system has no segment to give, leaves the list as
-- it was; it is reported as done in the first case only.
pub add_unchanged :
    (shm : Shm) (cl : ComputerLimits) (names : List CString) (poolname : CString)
    → Holds shm cl names
    → (contains names poolname ≡ true) ⊎ (shm.full ≡ true)
    → computer_pool_add shm cl poolname ≡ (shm, cl, contains names poolname)
unfolding computer_pool_add computer_pool_get_shared_memory
add_unchanged shm cl [] poolname h why = ground (arith, exists_lem shm cl [] poolname h)
add_unchanged shm cl (n ∷ ns) poolname (id, h) why = ground (
  arith,
  exists_lem shm cl (n ∷ ns) poolname (id, h),
  take_all cl.npools (n ∷ ns) (omega (arith, h.counted)),
)

-- The only pool of a list cannot be removed: the system is asked for a segment of size 0, and the
-- refusal ends the removal, with everything as it was.
pub remove_last :
    (shm : Shm) (cl : ComputerLimits) (n poolname : CString)
    → Holds shm cl (n ∷ [])
    → computer_pool_remove shm cl poolname ≡ (shm, cl, false)
unfolding computer_pool_remove computer_pool_get_shared_memory
remove_last shm cl n poolname (id, h) = ground (arith, exists_lem shm cl (n ∷ []) poolname (id, h))

-- No name stands twice in the list.
abbrev pub Distinct : List CString → Type 0
Distinct [] = Unit {0}
Distinct (n ∷ ns) = (contains ns n ≡ false) × Distinct ns

pool_without_absent :
    (poolname : CString) (names : List CString)
    → contains names poolname ≡ false
    → pool_without poolname names ≡ names
unfolding pool_without contains
pool_without_absent poolname [] a = refl
pool_without_absent poolname (n ∷ ns) a = ground (arith, pool_without_absent poolname ns)

pub length-pool_without :
    (poolname : CString) (names : List CString)
    → Distinct names
    → contains names poolname ≡ true
    → suc (length (pool_without poolname names)) ≡ length names
unfolding pool_without contains
length-pool_without poolname [] d c = ground arith
length-pool_without poolname (n ∷ ns) d c = elim (Bool-cases (str_eq n poolname)) [
  | inl same ↦
      let here = (str_eq_iff n poolname).0 same in
      ground (arith, pool_without_absent poolname ns, ap (contains ns) here)
  | inr other ↦ ground (arith, length-pool_without poolname ns d.1)
]

pub contains-pool_without :
    (poolname q : CString) (names : List CString)
    → contains (pool_without poolname names) q
      ≡ (if str_eq poolname q then false else contains names q)
unfolding pool_without contains
contains-pool_without poolname q [] = ground arith
contains-pool_without poolname q (n ∷ ns) = ground (
  arith,
  contains-pool_without poolname q ns,
  str_eq_iff n poolname,
  str_eq_iff n q,
  str_eq_iff poolname q,
)
