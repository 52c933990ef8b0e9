-- ===== src/Tests/Work.antt =====
-- The theorems on handing out and ending frames, at the test data.
use drqueue.Prelude.{
  ◌+◌, ◌≤◌, List, ℕ, ◌<◌, ◌≤◌, ◌≡◌, refl, ◌↔◌, ap, ◌⊎◌, true, false, some, [], [], ◌∷◌,
  if◌then◌else◌, count_below, find_first, arith, str_eq, contains, has_flag,
}
use drqueue.Frame.{fs_assigned, fs_waiting}
use drqueue.Job.{
  jf_jobdelete, jobstatus_waiting, jobstatus_active, jobstatus_stopped, jobstatus_finished,
}
use drqueue.Job.Numbering.{
  HasRange, job_nframes, job_frame_number_correct, job_frame_number_to_index,
}
use drqueue.Shm.{attach_frame_shared_memory, attach_blocked_host_shared_memory}
use drqueue.Computer.Pools.Laws.{Holds}
use drqueue.Database.{job_index_correct_master, computer_index_correct_master}
use drqueue.Database.Consistent.{Consistent}
use drqueue.Database.Limits.{limits_allow, os_allowed, host_free, pool_passed, job_limits_passed}
use drqueue.Database.Assign.{job_available, job_first_frame_available}
use drqueue.Computer.{computer_nrunning_job}
use drqueue.Task.{task_is_running}
use drqueue.Computer.Pools.{
  computer_pool_exists, computer_pool_attach_shared_memory, computer_pool_detach_shared_memory,
}
use drqueue.Database.Assign.Reserve.{Outcome, job_available_outcome}
use drqueue.Database.Assign.Many.{frames_handed, HasNoRepeat, frames_handed-HasNoRepeat}
use drqueue.Database.Registry.{job_init_registered}
use drqueue.Database.Registry.Lifecycle.{registered-Consistent, register_lock}
use drqueue.Database.Frames.{frame_running}
use drqueue.Database.Update.{no_totals, update_job}
use drqueue.Database.Update.Status.{update_job-Settled}
use drqueue.Request.TaskFini.{handle_r_r_taskfini}
use drqueue.Request.TaskFini.Keeps.{taskfini-Consistent, times_requeued, requeues_bounded}
use drqueue.Tests.{shot, shot_frames, shot_task, frame_in, pool_names, memory, farm}

pub shot-HasRange : HasRange shot
shot-HasRange = record {
  step_pos = omega arith;
  block_pos = omega arith;
  ordered = omega arith;
  in_word = omega arith;
  chunk_in_word = omega arith;
}

pub shot_attached : attach_frame_shared_memory memory (some 5) ≡ some shot_frames
unfolding attach_frame_shared_memory
shot_attached = refl

pub shot-Consistent : Consistent farm.shm (farm.job 3)
unfolding count_below job_nframes
shot-Consistent = record {
  table = shot_frames;
  attached = shot_attached;
  few = omega arith;
  counts = record { left = refl; running = refl; failed = refl; done = refl };
}

farm-Holds : Holds farm.shm (farm.computer 0).limits pool_names
farm-Holds = (
  2,
  record {
    shmid = refl;
    contents = refl;
    attachable = refl;
    given = omega arith;
    counted = refl;
    detached = refl;
  },
)

pub farm_job : job_index_correct_master farm 3 ≡ true
unfolding job_index_correct_master
farm_job = refl

job_available_outcome_example : Outcome farm 3 0 [] pool_names refl farm-Holds
job_available_outcome_example = job_available_outcome farm 3 0 [] pool_names refl farm-Holds

first_handed : (job_available farm 3 0).1 ≡ some 2
unfolding job_available job_index_correct_master job_limits_passed limits_allow os_allowed host_free
    pool_passed computer_nrunning_job computer_pool_exists computer_pool_attach_shared_memory
    computer_pool_detach_shared_memory job_first_frame_available job_nframes
    attach_frame_shared_memory find_first count_below contains str_eq task_is_running
    attach_blocked_host_shared_memory
first_handed = refl

frames_handed-HasNoRepeat_example : HasNoRepeat (frames_handed farm 3 (0 ∷ 0 ∷ 7 ∷ []))
frames_handed-HasNoRepeat_example = frames_handed-HasNoRepeat farm 3 (0 ∷ 0 ∷ 7 ∷ [])

pub number_two : (job_frame_number_correct shot 2 ≡ true) × (job_frame_number_to_index shot 2 ≡ 1)
unfolding job_frame_number_correct job_frame_number_to_index
number_two = (refl, refl)

second_assigned :
    (shot-Consistent.table.cell (job_frame_number_to_index shot 2)).status ≡ fs_assigned
unfolding shot-Consistent
second_assigned = ap (λ i. (shot_frames.cell i).status) number_two.1

taskfini-Consistent_example :
    let after = handle_r_r_taskfini farm true (some shot_task) in
    Consistent after.shm (after.job 3) × (after.locked ≡ false)
taskfini-Consistent_example =
    taskfini-Consistent farm shot_task farm_job refl shot-HasRange shot-Consistent number_two.0
      second_assigned

pub ten : job_nframes shot ≡ 10
unfolding job_nframes
ten = refl

registered-Consistent_example :
    let after = job_init_registered farm 3 shot in
    Consistent after.shm (after.job 3) × ((after.job 3).fleft ≡ job_nframes shot)
registered-Consistent_example =
    registered-Consistent farm 3 shot farm_job refl refl (omega (arith, ten)) (omega (arith, ten))

pub frames_run : (i : ℕ) → i < job_nframes shot → frame_running farm 3 (shot_frames.cell i) ≡ true
unfolding frame_running computer_index_correct_master str_eq
frames_run i l = ground arith

register_lock_example :
    (job_init_registered farm 4 shot).locked
    ≡ (if job_index_correct_master farm 4 then false else true)
register_lock_example = register_lock farm 4 shot

keep : has_flag shot.flags jf_jobdelete ≡ false
keep = refl

update_job-Settled_example :
    let before = (farm.job 3).status in
    let after = ((update_job farm 3 no_totals).job 3).status in
    ((after ≡ jobstatus_active)
      ↔ (((before ≡ jobstatus_waiting) ⊎ (before ≡ jobstatus_active)) × (0 < no_totals.nprocs)))
    × ((after ≡ jobstatus_finished) ↔ (
        (no_totals.fleft ≡ 0)
        × ((before ≡ jobstatus_finished)
            ⊎ (((before ≡ jobstatus_waiting) ⊎ (before ≡ jobstatus_active))
                × (no_totals.nprocs ≡ 0)))))
    × ((after ≡ jobstatus_stopped) ↔ (before ≡ jobstatus_stopped))
update_job-Settled_example = update_job-Settled farm 3 no_totals farm_job keep

-- Killed three times over, and then once more.
abbrev kills : List (ℕ × ℕ × ℕ)
kills = (0, 1000, 527) ∷ (0, 1010, 527) ∷ (0, 1020, 527) ∷ (0, 1030, 527) ∷ []

requeues_bounded_example : times_requeued 1 kills (frame_in fs_waiting) + 0 ≤ 3
requeues_bounded_example = requeues_bounded 1 kills (frame_in fs_waiting) (omega arith)
