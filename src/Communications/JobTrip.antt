-- ===== src/Communications/JobTrip.antt =====
-- What one end sends of a job, the other receives.
use drqueue.Prelude.{
  ℕ, ◌<◌, ◌≡◌, refl, sym, subst, true, none, List, [], ◌∷◌, CString, length, ◌==◌, if◌then◌else◌,
}
use drqueue.Prelude.Bytes.{Host}
use drqueue.Job.{Job, EnvVar, KojInfo, EnvVars, job_init, job_fix_received_invalid, envvars_init}
use drqueue.Job.Network.{
  koj_bswap, koj_bswap-koj_bswap, FitsWords, job_bswap_to_network, job_bswap_from_network,
  job_limits_bswap_to_network, job_limits_bswap_from_network,
}
use drqueue.Shm.{Shm}
use drqueue.Database.Registry.{job_delete, envvars_free, job_frame_info_free, job_block_host_free}
use drqueue.EnvVars.{Handle}
use drqueue.EnvVars.Laws.{Holds}
use drqueue.EnvVars.Bindings.{Ready, Fits}
use drqueue.EnvVars.Deletion.{IsUnique}
use drqueue.EnvVars.Environment.{value_of}
use drqueue.Communications.Wire.{Packet, ok, ◌>>=◌, write_object, read_object}
use drqueue.Communications.Delivery.{Delivers, Delivers-bind, Talks-write, Talks-read, then_ok}
use drqueue.Communications.Memory.{bytes32, bytes16}
use drqueue.Communications.Records.{Layout}
use drqueue.Communications.RoundTrips.{same_size, round16, round32}
use drqueue.Communications.Variables.{send_envvars, recv_envvars}
use drqueue.Communications.VariablesTrip.{envvars_delivered}
use drqueue.Communications.Jobs.{
  as_job, detached, job_on_wire, job_read, job_taken, send_job, recv_job,
}

-- The job at the receiver. What is not put in network order arrives as the other host reads it.
abbrev pub arrived_job : Host → Host → Job → EnvVars → Job
arrived_job s r job envvars = record job {
  frame_step = if job.frame_step == 0 then 1 else job.frame_step;
  old_fdone = bytes32 r (bytes32 s job.old_fdone);
  old_nprocs = bytes16 r (bytes16 s job.old_nprocs);
  submit_time = bytes32 r (bytes32 s job.submit_time);
  dependid = bytes32 r (bytes32 s job.dependid);
  fishmid = none;
  bhshmid = none;
  nblocked = 0;
  envvars = envvars;
}

koji_travels :
    (s r : Host) (koj : ℕ) (koji : KojInfo)
    → koji.resx < 4_294_967_296
    → koji.resy < 4_294_967_296
    → koj_bswap r koj (koj_bswap r koj (koj_bswap s koj (koj_bswap s koj koji))) ≡ koji
koji_travels s r koj koji hx hy =
    rw (koj_bswap-koj_bswap s koj koji hx hy, koj_bswap-koj_bswap r koj koji hx hy) refl

job_travels :
    (s r : Host) (job : Job) (envvars : EnvVars)
    → FitsWords job
    → job_bswap_from_network r (record (job_read r (job_on_wire s job)) { envvars = envvars })
      ≡ arrived_job s r job envvars
unfolding job_bswap_from_network job_bswap_to_network job_limits_bswap_from_network
    job_limits_bswap_to_network job_fix_received_invalid
job_travels s r job envvars fits =
    rw
      (
        round32 s r job.id fits.id,
        round32 s r job.frame_start fits.frame_start,
        round32 s r job.frame_end fits.frame_end,
        round32 s r job.frame_step fits.frame_step,
        round32 s r job.block_size fits.block_size,
        round32 s r job.avg_frame_time fits.avg_frame_time,
        round32 s r job.est_finish_time fits.est_finish_time,
        round32 s r job.fleft fits.fleft,
        round32 s r job.fdone fits.fdone,
        round32 s r job.ffailed fits.ffailed,
        round32 s r job.priority fits.priority,
        round32 s r job.flags fits.flags,
        round32 s r job.limits.memory fits.memory,
        round16 s r job.limits.nmaxcpus fits.nmaxcpus,
        round16 s r job.limits.nmaxcpuscomputer fits.nmaxcpuscomputer,
        round16 s r job.limits.os_flags fits.os_flags,
        round16 s r job.nprocs fits.nprocs,
        round16 s r job.status fits.status,
        round16 s r job.koj fits.koj,
        koji_travels s r job.koj job.koji fits.resx fits.resy,
      )
      refl

nothing_deleted : (user : CString) (shm : Shm) → (job_delete user shm (job_init user)).0 ≡ shm
unfolding job_delete job_init job_frame_info_free job_block_host_free envvars_free
nothing_deleted user shm = refl

-- The environment of the record that arrives is empty.
environment_empty :
    (s r : Host) (shm : Shm) (job : Job)
    → Holds shm (detached (job_read r (job_on_wire s job)).envvars) []
unfolding job_bswap_to_network job_fix_received_invalid envvars_init
environment_empty s r shm job = (refl, refl, refl)

one_sent : (p : Packet) → Delivers (write_object p) read_object p
one_sent p = record { there = p ∷ []; back = []; sends = Talks-write p; receives = Talks-read p }

-- A job whose words fit their fields, with its fewer than 32,768 environment variables, where no
-- name stands twice and every value fits: one end sends it, the other receives it. It is the same job
-- without the blocked hosts and the frame table; a step of 0 is 1; and the environment gives every
-- name the value that it has at the sender. The job that it depends on, the time at which it was
-- submitted and the counters of the last update are not put in network order, and arrive turned
-- round where the hosts order bytes differently. The receiver starts with a job that job_init has set
-- up, and its system has segments to give, before and after.
pub job_delivered :
    (s r : Host) (sizeof : Layout) (user : CString) (shm_s shm_r : Shm) (job : Job)
    (vs : List EnvVar)
    → sizeof.job < 4_294_967_296
    → sizeof.envvar < 4_294_967_296
    → FitsWords job
    → Holds shm_s (detached job.envvars) vs
    → length vs < 32_768
    → IsUnique vs
    → Fits vs
    → Ready shm_r
    → (shm' : Shm) × (h' : Handle) × (vars' : List EnvVar) × Delivers
        (send_job s sizeof shm_s job)
        (recv_job r sizeof user shm_r (job_init user))
        (shm', arrived_job s r job h'.envvars)
      × Holds shm' h' vars'
      × Ready shm'
      × ((q : CString) → value_of vars' q ≡ value_of vs q)
unfolding send_job recv_job ◌>>=◌
job_delivered s r sizeof user shm_s shm_r job vs small small' words hold few unique fits ready =
    let wire = job_on_wire s job in
    let (shm', h', vars', d, held, ready', values) =
      envvars_delivered s r sizeof shm_s shm_r (detached job.envvars)
        (detached (job_read r wire).envvars) vs true small' hold (environment_empty s r shm_r job)
        ready few unique fits in
    let read = λ (shm : Shm) (w : Job).
      recv_envvars r sizeof shm (detached (job_read r w).envvars) true >>= λ q.
      ok (job_taken r w q) in
    let rest : Delivers (send_envvars s sizeof shm_s (detached job.envvars) true) (read shm_r wire)
        (shm', arrived_job s r job h'.envvars) =
      subst
        (λ j.
          Delivers (send_envvars s sizeof shm_s (detached job.envvars) true) (read shm_r wire)
            (shm', j))
        (job_travels s r job h'.envvars words) (then_ok (job_taken r wire) d) in
    let deleted = (job_delete user shm_r (job_init user)).0 in
    (
      shm',
      h',
      vars',
      Delivers-bind (λ _. read_object >>= λ p. as_job p >>= λ w. read deleted w)
          (same_size s r sizeof.job small)
          (Delivers-bind (λ p. as_job p >>= λ w. read deleted w) (one_sent (Packet.job wire))
            (subst
              (λ shm.
                Delivers (send_envvars s sizeof shm_s (detached job.envvars) true) (read shm wire)
                  (shm', arrived_job s r job h'.envvars))
              (sym (nothing_deleted user shm_r)) rest)),
      held,
      ready',
      values,
    )
