-- ===== src/Tests/Vars.antt =====
-- The theorems on the environment variables and the blocked hosts, at small data.
use drqueue.Prelude.{
  ℕ, ◌≢◌, ◌≡◌, refl, true, false, none, some, List, [], ◌∷◌, CString, codes, ◌==◌, if◌then◌else◌,
  arith, str_eq, find_first,
}
use drqueue.Job.{Job, EnvVar, job_init}
use drqueue.Job.Network.{FitsWords}
use drqueue.Job.Numbering.{job_nframes}
use drqueue.Database.{Database, job_index_correct_master}
use drqueue.Database.Consistent.{Consistent}
use drqueue.Database.Lookup.{job_index_free}
use drqueue.Communications.Wire.{◌>>=◌}
use drqueue.Communications.Records.{recv_request}
use drqueue.Communications.Jobs.{detached, send_job, recv_job}
use drqueue.Communications.JobTrip.{arrived_job, job_delivered}
use drqueue.Conversation.Turns.{Agree}
use drqueue.Conversation.Submission.{register_job, handle_r_r_regisjob}
use drqueue.Conversation.Submitted.{submitted}
use drqueue.Conversation.Accepted.{SameOrder, Unstarted}
use drqueue.Communications.Memory.{bytes32}
use drqueue.Shm.{Shm}
use drqueue.Computer.Pools.Laws.{HasRoom}
use drqueue.EnvVars.{Handle, null, envvars_variable_add, envvars_variable_delete}
use drqueue.EnvVars.Variables.{same_name, variable_index}
use drqueue.EnvVars.Laws.{Holds, add-full}
use drqueue.EnvVars.Environment.{value_of, with_binding, add-value_of}
use drqueue.EnvVars.Bindings.{Ready}
use drqueue.EnvVars.Deletion.{IsUnique, delete-value_of}
use drqueue.Database.Hosts.{job_block_host_add_by_name}
use drqueue.Communications.Delivery.{Delivers}
use drqueue.Communications.Variables.{send_envvars, recv_envvars}
use drqueue.Communications.VariablesTrip.{envvars_delivered}
use drqueue.Prelude.Bytes.{little_endian, big_endian}
use drqueue.Tests.Wire.{layout}
use drqueue.Request.HostOrders.{handle_r_r_jobblkhost}
use drqueue.Request.HostOrders.Alike.{blocked_alike}
use drqueue.Tests.{shot, memory, farm}

abbrev two_vars : List EnvVar
two_vars =
    record { name = codes "SCENE"; value = codes "a.mb" }
    ∷ record { name = codes "CAMERA"; value = codes "left" }
    ∷ []

abbrev vars_memory : Shm
vars_memory = record memory { env_seg = λ i. if i == 6 then some two_vars else none }

abbrev vars_handle : Handle
vars_handle = record {
  envvars = record { nvariables = 2; evshmid = some 6; evsemid = none };
  variables = null;
}

vars_held : Holds vars_memory vars_handle two_vars
vars_held = (
  6,
  record {
    shmid = refl;
    contents = refl;
    attachable = refl;
    given = omega arith;
    counted = refl;
    detached = refl;
  },
)

room : HasRoom vars_memory
room = record { available = refl; attachable = refl }

add-value_of_example :
    (shm' : Shm) × (h' : Handle) × (vars' : List EnvVar) × (envvars_variable_add vars_memory
        vars_handle
        (codes "CAMERA")
        (codes "right")
      ≡ some (shm', h', true))
    × Holds shm' h' vars'
    × ((q : CString)
        → value_of vars' q ≡ with_binding (value_of two_vars) (codes "CAMERA") (codes "right") q)
add-value_of_example =
    add-value_of vars_memory vars_handle two_vars (codes "CAMERA") (codes "right") vars_held room
      (omega arith)

unique : IsUnique two_vars
unfolding variable_index str_eq
unique = (refl, (refl, record {}))

delete-value_of_example :
    (vars' : List EnvVar) × (let (shm', h', done) =
        envvars_variable_delete vars_memory vars_handle (codes "SCENE") in
      (done ≡ true) × Holds shm' h' vars')
    × ((q : CString)
        → value_of vars' q ≡ (if same_name (codes "SCENE") q then none else value_of two_vars q))
delete-value_of_example =
    delete-value_of vars_memory vars_handle two_vars (codes "SCENE") vars_held room unique

abbrev full_memory : Shm
full_memory = record vars_memory { full = true }

full_held : Holds full_memory vars_handle two_vars
full_held = (
  6,
  record {
    shmid = refl;
    contents = refl;
    attachable = refl;
    given = omega arith;
    counted = refl;
    detached = refl;
  },
)

no_frame : variable_index (codes "FRAME") two_vars ≡ none
unfolding variable_index str_eq
no_frame = refl

add-full_example :
    (shm' : Shm) × (h' : Handle) × (envvars_variable_add full_memory vars_handle
        (codes "FRAME")
        (codes "1")
      ≡ some (shm', h', false))
    × Holds shm' h' []
add-full_example =
    add-full full_memory vars_handle two_vars (codes "FRAME") (codes "1") full_held no_frame refl

shot_in_use : job_index_correct_master farm 3 ≡ true
unfolding job_index_correct_master
shot_in_use = refl

blocked_alike_example :
    let after = handle_r_r_jobblkhost farm 3 (some 0) in
    let (shm, job, _) = job_block_host_add_by_name memory shot (codes "box") in
    (after.shm ≡ shm)
    × (after.job 3 ≡ job)
    × ((j : ℕ) → j ≢ 3 → after.job j ≡ farm.job j)
    × (after.locked ≡ false)
blocked_alike_example = blocked_alike farm 3 0 shot_in_use (omega arith) (omega arith)

abbrev no_vars : Handle
no_vars = record {
  envvars = record { nvariables = 0; evshmid = none; evsemid = none };
  variables = null;
}

envvars_delivered_example :
    (shm' : Shm) × (h' : Handle) × (vars' : List EnvVar) × Delivers
      (send_envvars little_endian layout vars_memory vars_handle true)
      (recv_envvars big_endian layout memory no_vars true)
      (shm', h')
    × Holds shm' h' vars'
    × Ready shm'
    × ((q : CString) → value_of vars' q ≡ value_of two_vars q)
envvars_delivered_example =
    envvars_delivered little_endian big_endian layout vars_memory memory vars_handle no_vars
      two_vars true (omega arith) vars_held (refl, refl, refl)
      (record { available = refl; attachable = λ _. refl }) (omega arith) unique
      (omega arith, (omega arith, record {}))

-- The job with the two variables, as a client has it.
abbrev sent_shot : Job
sent_shot = record shot { envvars = vars_handle.envvars }

sent_fits : FitsWords sent_shot
sent_fits = record {
  id = omega arith;
  nprocs = omega arith;
  status = omega arith;
  koj = omega arith;
  resx = omega arith;
  resy = omega arith;
  frame_start = omega arith;
  frame_end = omega arith;
  frame_step = omega arith;
  block_size = omega arith;
  avg_frame_time = omega arith;
  est_finish_time = omega arith;
  fleft = omega arith;
  fdone = omega arith;
  ffailed = omega arith;
  priority = omega arith;
  flags = omega arith;
  nmaxcpus = omega arith;
  nmaxcpuscomputer = omega arith;
  os_flags = omega arith;
  memory = omega arith;
}

job_delivered_example :
    (shm' : Shm) × (h' : Handle) × (vars' : List EnvVar) × Delivers
      (send_job little_endian layout vars_memory sent_shot)
      (recv_job big_endian layout (codes "lea") memory (job_init (codes "lea")))
      (shm', arrived_job little_endian big_endian sent_shot h'.envvars)
    × Holds shm' h' vars'
    × Ready shm'
    × ((q : CString) → value_of vars' q ≡ value_of two_vars q)
job_delivered_example =
    job_delivered little_endian big_endian layout (codes "lea") vars_memory memory sent_shot
      two_vars (omega arith) (omega arith) sent_fits vars_held (omega arith) unique
      (omega arith, (omega arith, record {})) (record { available = refl; attachable = λ _. refl })

shot_frames_count : job_nframes sent_shot ≡ 10
unfolding job_nframes
shot_frames_count = refl

first_free : job_index_free farm ≡ some 0
unfolding job_index_free find_first
first_free = refl

submitted_example :
    (after : Database) × (vars' : List EnvVar) × Agree
      (register_job little_endian layout vars_memory sent_shot 0)
      (recv_request big_endian >>= λ q. handle_r_r_regisjob big_endian layout farm)
      (record sent_shot { id = 0 })
      after
    × SameOrder sent_shot (after.job 0)
    × Unstarted 0 (after.job 0)
    × ((after.job 0).dependid ≡ bytes32 big_endian (bytes32 little_endian 0))
    × Consistent after.shm (after.job 0)
    × ((after.job 0).fleft ≡ job_nframes sent_shot)
    × Holds after.shm (detached (after.job 0).envvars) vars'
    × ((q : CString) → value_of vars' q ≡ value_of two_vars q)
    × (after.locked ≡ false)
submitted_example =
    submitted little_endian big_endian layout vars_memory sent_shot two_vars farm 0 0 (omega arith)
      (omega arith) (omega arith) sent_fits (omega (arith, shot_frames_count))
      (omega (arith, shot_frames_count)) vars_held (omega arith) unique
      (omega arith, (omega arith, record {})) (record { available = refl; attachable = λ _. refl })
      first_free
