-- ===== src/Tests/Search.antt =====
-- The theorems on the search for work and on the orders of clients, at the test data.
use drqueue.Prelude.{
  ℕ, ◌≡◌, refl, ◌⊎◌, true, false, none, some, List, [], CString, count_below, find_first, arith,
  str_eq, contains, sub32,
}
use drqueue.Frame.{fs_waiting, fs_assigned}
use drqueue.Job.{jobstatus_stopped}
use drqueue.Job.Numbering.{HasRange, job_nframes}
use drqueue.Job.Priority.{priority_job_compare}
use drqueue.Shm.{FrameTable, attach_frame_shared_memory, attach_blocked_host_shared_memory}
use drqueue.Task.{task_is_running}
use drqueue.Computer.{computer_nrunning_job}
use drqueue.Computer.Pools.{
  computer_pool_exists, computer_pool_attach_shared_memory, computer_pool_detach_shared_memory,
}
use drqueue.Computer.Pools.Laws.{Holds}
use drqueue.Database.{Database, job_index_correct_master}
use drqueue.Database.Limits.{
  BlockedHosts, job_limits_passed, limits_allow, os_allowed, host_free, pool_passed,
}
use drqueue.Database.Assign.{job_available, job_first_frame_available}
use drqueue.Database.Assign.Reserve.{Assignable}
use drqueue.Database.Frames.{job_frame_waiting}
use drqueue.Request.AvailJob.{
  entries, insert, qsort, same_pols, search_all, drop, search_changed, search_same, search_on,
  searched_then, find_work,
}
use drqueue.Request.AvailJob.Work.{Hit, Idle, find_work_outcome, no_work_possible}
use drqueue.Request.AvailJob.Back.{frame_put_back}
use drqueue.Request.TaskFini.{frame_ended, left}
use drqueue.Request.FrameOrders.{waiting_order}
use drqueue.Request.FrameOrders.Again.{rendered, rendered_again}
use drqueue.Tests.{frame_in, shot, shot_frames, pool_names, farm}

abbrev nobody : ℕ → List CString
nobody _ = []

farm-Holds : Holds farm.shm (farm.computer 0).limits pool_names
farm-Holds = (
  2,
  record {
    shmid = refl;
    contents = refl;
    attachable = refl;
    given = omega arith;
    counted = refl;
    detached = refl;
  },
)

farm_hosts : (j : ℕ) → BlockedHosts farm.shm (farm.job j) (nobody j)
farm_hosts j = ground arith

find_work_outcome_example :
    Hit farm 0 nobody pool_names farm_hosts farm-Holds (find_work farm 0)
    ⊎ Idle farm 0 nobody pool_names farm_hosts farm-Holds (find_work farm 0)
find_work_outcome_example = find_work_outcome farm 0 nobody pool_names farm_hosts farm-Holds refl

-- The same farm with every job stopped.
abbrev quiet : Database
quiet = record farm { job = λ _. record shot { status = jobstatus_stopped } }

quiet_hosts : (j : ℕ) → BlockedHosts quiet.shm (quiet.job j) (nobody j)
quiet_hosts j = refl

nothing_found : (find_work quiet 0).1 ≡ none
unfolding find_work searched_then search_on search_same search_changed search_all entries qsort
    insert priority_job_compare same_pols drop job_available job_index_correct_master
nothing_found = refl

no_work_possible_example : ¬ Assignable quiet 3 0 [] pool_names shot_frames 2
no_work_possible_example =
    no_work_possible quiet 0 nobody pool_names quiet_hosts farm-Holds refl nothing_found 3
      (omega arith) shot_frames 2

shot-HasRange : HasRange shot
shot-HasRange = record {
  step_pos = omega arith;
  block_pos = omega arith;
  ordered = omega arith;
  in_word = omega arith;
  chunk_in_word = omega arith;
}

farm_job : job_index_correct_master farm 3 ≡ true
unfolding job_index_correct_master
farm_job = refl

handed : (job_available farm 3 0).1 ≡ some 2
unfolding job_available job_index_correct_master job_limits_passed limits_allow os_allowed host_free
    pool_passed computer_nrunning_job computer_pool_exists computer_pool_attach_shared_memory
    computer_pool_detach_shared_memory job_first_frame_available job_nframes
    attach_frame_shared_memory find_first count_below contains str_eq task_is_running
    attach_blocked_host_shared_memory
handed = refl

frame_put_back_example :
    let after = job_frame_waiting (job_available farm 3 0).0 3 2 in
    (after.job 3 ≡ record shot { fleft = sub32 8 1 })
    × (after.locked ≡ false)
    × (fi : FrameTable) × (attach_frame_shared_memory after.shm (after.job 3).fishmid ≡ some fi)
    × ((fi.cell 2).status ≡ fs_waiting)
frame_put_back_example = frame_put_back farm 3 0 2 farm_job shot-HasRange (omega arith) handed

rendered_again_example :
    let (first, tally) = frame_ended 1000 1 256 (waiting_order shot (frame_in fs_assigned)).fi in
    let (second, tally') = rendered 1000 0 0 shot 256 first in
    (first.status ≡ fs_waiting)
    × (tally ≡ left)
    × (second.status ≡ fs_waiting)
    × (second.requeued ≡ 2)
    × (tally' ≡ left)
rendered_again_example =
    rendered_again 1000 0 0 256 shot (frame_in fs_assigned) refl (omega arith) refl
