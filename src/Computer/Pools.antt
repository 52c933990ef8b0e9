-- ===== src/Computer/Pools.antt =====
-- The pools that a computer belongs to (libdrqueue/computer_pool.c): a list of names in a shared
-- segment that is replaced by a new one at each change. Each operation takes the shared memory and
-- the limits record, and gives both back with its result.
pub mod Laws
use drqueue.Prelude.{
  ℕ, ◌+◌, ◌-◌, Bool, true, false, not, ◌||◌, ◌&&◌, Option, none, some, List, [], ◌∷◌, ◌++◌, CString,
  ◌==◌, if◌then◌else◌, take, str_eq, contains, update, u16, sub16,
}
use drqueue.Job.{ShmId, is_set, maxnamelen}
use drqueue.Shm.{Shm, attach, store, discard, removable, computer_pool_get_shared_memory}
use drqueue.Computer.{ComputerLimits}

-- The semaphore of the list is not created in this build.
unfoldable pub computer_pool_init : ComputerLimits → ComputerLimits
computer_pool_init cl = record cl {
  pool = none;
  local_pool = none;
  poolshmid = none;
  poolsemid = none;
  npools = 0;
  npoolsattached = 0;
}

-- The names in the segment, or `none` for the pointer -1; a failure forgets the list.
unfoldable pub computer_pool_attach_shared_memory :
    Shm → ComputerLimits → ComputerLimits × Option (List CString)
unfolding computer_pool_init
computer_pool_attach_shared_memory shm cl = elim (attach shm shm.pool_seg cl.poolshmid) [
  | none ↦ (computer_pool_init cl, none)
  | some names ↦ (record cl { pool = cl.poolshmid }, some names)
]

-- With a list attached `shmdt` succeeds.
unfoldable pub computer_pool_detach_shared_memory : ComputerLimits → ComputerLimits × Bool
computer_pool_detach_shared_memory cl = elim cl.pool [
  | none ↦ (cl, false)
  | some id ↦ (record cl { pool = none }, true)
]

unfoldable pub computer_pool_free : Shm → ComputerLimits → Shm × ComputerLimits × Bool
unfolding computer_pool_init computer_pool_detach_shared_memory
computer_pool_free shm cl =
    let detached = (computer_pool_detach_shared_memory cl).0 in
    elim detached.poolshmid [
      | none ↦ (shm, computer_pool_init detached, true)
      | some id ↦ (
        record shm { pool_seg = discard shm.pool_seg (some id) },
        computer_pool_init detached,
        removable shm.pool_seg (some id),
      )
    ]

unfoldable pub computer_pool_exists : Shm → ComputerLimits → CString → ComputerLimits × Bool
unfolding computer_pool_attach_shared_memory computer_pool_detach_shared_memory
computer_pool_exists shm cl poolname = elim cl.poolshmid [
  | none ↦ (cl, false)
  | some id ↦
      if not (is_set cl.npools)
      then (cl, false)
      else let (attached, names) = computer_pool_attach_shared_memory shm cl in
        elim names [
          | none ↦ (attached, false)
          | some npool ↦ (
            (computer_pool_detach_shared_memory attached).0,
            contains (take cl.npools npool) poolname,
          )
        ]
]

-- The fields of the list alone.
unfoldable pub computer_pool_copy : ComputerLimits → ComputerLimits → ComputerLimits
computer_pool_copy cl_src cl_dst = record cl_dst {
  npoolsattached = cl_src.npoolsattached;
  poolshmid = cl_src.poolshmid;
  poolsemid = cl_src.poolsemid;
  local_pool = cl_src.local_pool;
  pool = cl_src.pool;
  npools = cl_src.npools;
}

-- The end of `computer_pool_add`: the new list `new_cl`, attached, takes the place of the old one.
pool_replace : Shm → ComputerLimits → ComputerLimits → List CString → Shm × ComputerLimits × Bool
unfolding computer_pool_copy computer_pool_detach_shared_memory computer_pool_free
pool_replace shm cl new_cl names =
    let written = record shm { pool_seg = store shm.pool_seg new_cl.poolshmid names } in
    let replaced = (computer_pool_detach_shared_memory (computer_pool_copy new_cl cl)).0 in
    ((computer_pool_free written cl).0, replaced, true)

-- From the allocation on; `opool` holds the names of the old list, if it was attached.
pool_append : Shm → ComputerLimits → Option (List CString) → CString → Shm × ComputerLimits × Bool
unfolding computer_pool_init computer_pool_attach_shared_memory computer_pool_detach_shared_memory
    computer_pool_free pool_replace
pool_append shm cl opool poolname =
    let new_cl = record (computer_pool_init cl) { npools = u16 (cl.npools + 1) } in
    let (shm', npoolshmid) = computer_pool_get_shared_memory (u16 (cl.npools + 1)) shm in
    elim npoolshmid [
      | none ↦ (shm', (computer_pool_detach_shared_memory cl).0, false)
      | some id ↦
          let (new_cl', npool) =
            computer_pool_attach_shared_memory shm' (record new_cl { poolshmid = some id }) in
          elim npool [
            | none ↦ (
              (computer_pool_free shm' new_cl').0,
              (computer_pool_detach_shared_memory cl).0,
              false,
            )
            | some fresh ↦
                let old : List CString = elim opool [
                  | none ↦ []
                  | some names ↦ take cl.npools names
                ] in
                pool_replace shm' cl new_cl' (old ++ take maxnamelen poolname ∷ [])
          ]
    ]

unfoldable pub computer_pool_add : Shm → ComputerLimits → CString → Shm × ComputerLimits × Bool
unfolding pool_append
computer_pool_add shm cl poolname =
    let (cl', exists) = computer_pool_exists shm cl poolname in
    if exists then (shm, cl', true) else elim cl'.poolshmid [
      | none ↦ pool_append shm cl' none poolname
      | some id ↦
          if not (is_set cl'.npools)
          then pool_append shm cl' none poolname
          else let (attached, opool) = computer_pool_attach_shared_memory shm cl' in
            elim opool [
              | none ↦ (shm, attached, false)
              | some names ↦ pool_append shm attached (some names) poolname
            ]
    ]

-- The loop that copies every name but `poolname`.
unfoldable pub pool_without : CString → List CString → List CString
pool_without poolname [] = []
pool_without poolname (n ∷ ns) =
    let rest = pool_without poolname ns in if str_eq n poolname then rest else n ∷ rest

-- From the allocation on; `names` are those of the old list, which is attached.
pool_shrink : Shm → ComputerLimits → List CString → CString → Shm × ComputerLimits × Bool
unfolding computer_pool_init computer_pool_attach_shared_memory computer_pool_detach_shared_memory
    computer_pool_free pool_without
pool_shrink shm cl names poolname =
    let new_cl = record (computer_pool_init cl) { npools = sub16 cl.npools 1 } in
    let (shm', npoolshmid) = computer_pool_get_shared_memory (sub16 cl.npools 1) shm in
    elim npoolshmid [
      | none ↦ (shm', (computer_pool_detach_shared_memory cl).0, false)
      | some id ↦
          let (new_cl', npool) =
            computer_pool_attach_shared_memory shm' (record new_cl { poolshmid = some id }) in
          elim npool [
            | none ↦ (
              (computer_pool_free shm' new_cl').0,
              (computer_pool_detach_shared_memory cl).0,
              false,
            )
            | some fresh ↦
                let kept = pool_without poolname (take cl.npools names) in
                let written = record shm' { pool_seg = store shm'.pool_seg (some id) kept } in
                let freed = computer_pool_free written (computer_pool_detach_shared_memory cl).0 in
                (
                  freed.0,
                  (computer_pool_detach_shared_memory (record freed.1 {
                    poolshmid = some id;
                    npools = new_cl'.npools;
                    pool = new_cl'.pool;
                  })).0,
                  true,
                )
          ]
    ]

unfoldable pub computer_pool_remove : Shm → ComputerLimits → CString → Shm × ComputerLimits × Bool
unfolding pool_shrink
computer_pool_remove shm cl poolname =
    let (cl', exists) = computer_pool_exists shm cl poolname in
    if not exists
    then (shm, cl', false)
    else if not (is_set cl'.npools)
    then (shm, cl', false)
    else let (attached, opool) = computer_pool_attach_shared_memory shm cl' in
      elim opool [
        | none ↦ (shm, attached, false)
        | some names ↦ pool_shrink shm attached names poolname
      ]
