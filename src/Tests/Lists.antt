-- ===== src/Tests/Lists.antt =====
-- The theorems on the lists of pools and of blocked hosts, at the test data.
use drqueue.Prelude.{◌≡◌, refl, true, false, some, List, [], ◌∷◌, CString, codes, arith}
use drqueue.Job.{Job}
use drqueue.Shm.{attach_blocked_host_shared_memory}
use drqueue.Computer.Pools.Laws.{Holds, HasRoom}
use drqueue.Database.{put_job}
use drqueue.Database.Limits.{BlockedHosts, job_limits_passed}
use drqueue.Database.Hosts.{job_block_host_add_by_name, job_block_host_remove_by_name}
use drqueue.Database.Hosts.Laws.{host_remove_last, blocked_refused}
use drqueue.Tests.{shot, limits_of, memory, farm}

one_pool : Holds memory (limits_of 1 (some 1)) (codes "Default" ∷ [])
one_pool = (
  1,
  record {
    shmid = refl;
    contents = refl;
    attachable = refl;
    given = omega arith;
    counted = refl;
    detached = refl;
  },
)

room : HasRoom memory
room = record { available = refl; attachable = refl }

abbrev blocked_shot : Job
blocked_shot = record shot { bhshmid = some 3; nblocked = 2 }

abbrev slow_and_old : List CString
slow_and_old = codes "slow" ∷ codes "old" ∷ []

hosts : BlockedHosts memory blocked_shot slow_and_old
unfolding attach_blocked_host_shared_memory
hosts = (refl, refl)

host_remove_last_example :
    let one_host = record memory { host_seg = λ _. some (codes "old" ∷ []) } in
    let job = record shot { bhshmid = some 3; nblocked = 1 } in
    job_block_host_remove_by_name one_host job (codes "old") ≡ (one_host, job, false)
unfolding attach_blocked_host_shared_memory
host_remove_last_example =
    host_remove_last (record memory { host_seg = λ _. some (codes "old" ∷ []) })
      (record shot { bhshmid = some 3; nblocked = 1 }) (codes "old") (refl, refl)

blocked_refused_example :
    let (shm', job', done) = job_block_host_add_by_name farm.shm (farm.job 3) (codes "box") in
    (done ≡ true)
    × ((job_limits_passed (put_job (record farm { shm = shm' }) 3 job') 3 0).1 ≡ false)
blocked_refused_example = blocked_refused farm 3 0 [] refl room (omega arith) (omega arith)
