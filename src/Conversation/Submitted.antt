-- ===== src/Conversation/Submitted.antt =====
-- What the client and the master have after a job is submitted.
use drqueue.Prelude.{ℕ, ◌<◌, ◌≡◌, sym, subst, ◌∙◌, none, some, List, CString, arith, length, false}
use drqueue.Prelude.Bytes.{Host}
use drqueue.Job.{Job, EnvVar, job_init}
use drqueue.Job.Network.{FitsWords}
use drqueue.Job.Numbering.{job_nframes}
use drqueue.Shm.{Shm}
use drqueue.Request.{Request, rerr_noerror}
use drqueue.Database.{Database}
use drqueue.Database.Consistent.{Consistent}
use drqueue.Database.Lookup.{job_index_free}
use drqueue.Database.Registry.{job_init_registered}
use drqueue.Database.Registry.Lifecycle.{registered-Consistent}
use drqueue.EnvVars.Laws.{Holds}
use drqueue.EnvVars.Bindings.{Ready, Fits}
use drqueue.EnvVars.Deletion.{IsUnique}
use drqueue.EnvVars.Environment.{value_of}
use drqueue.Communications.Wire.{ok, ◌>>=◌, ◌>>◌}
use drqueue.Communications.Delivery.{Delivers, then_ok}
use drqueue.Communications.Records.{Layout, recv_request}
use drqueue.Communications.Lists.{or_else}
use drqueue.Communications.ListTrips.{or_else_delivered}
use drqueue.Communications.Jobs.{detached, send_job, recv_job}
use drqueue.Communications.JobTrip.{arrived_job, job_delivered}
use drqueue.Conversation.Status.{master, sent_anyway}
use drqueue.Conversation.Turns.{
  request_delivered, Agree, Agree-bind, Agree-to, Agree-from, Agree-done,
}
use drqueue.Conversation.Submission.{
  client, submission_read, register_job, regisjob_answer, job_reserved, job_submitted,
  submission_index, handle_r_r_regisjob,
}
use drqueue.Communications.Memory.{bytes32}
use drqueue.Conversation.Accepted.{
  Unstarted, SameOrder, registered_order, registered_env, nframes_arrive, free_correct, free_below,
  held_detached, lock_free,
}

-- The words of both ends, where the job gets through.
submission_agrees :
    (s r : Host) (sizeof : Layout) (shm shm' : Shm) (job job' : Job) (wdb : Database)
    (index garbage : ℕ)
    → garbage < 4_294_967_296
    → job_index_free wdb ≡ some index
    → Delivers
        (send_job s sizeof shm job)
        (recv_job r sizeof wdb.user wdb.shm (job_init wdb.user))
        (shm', job')
    → Agree
        (register_job s sizeof shm job garbage)
        (recv_request r >>= λ q. handle_r_r_regisjob r sizeof wdb)
        (record job { id = index })
        (job_init_registered (record (job_reserved wdb index) { shm = shm' }) index job')
unfolding register_job handle_r_r_regisjob submission_index submission_read job_submitted ◌>>◌
submission_agrees s r sizeof shm shm' job job' wdb index garbage small free d =
    let taken = job_reserved wdb index in
    let after = job_init_registered (record taken { shm = shm' }) index job' in
    let client_end = λ (q : Request × ℕ). ok (record job { id = q.0.«data» }) in
    let reading =
      or_else (recv_job r sizeof taken.user taken.shm (job_init taken.user) >>= λ q. ok (some q))
        none in
    let master_end = reading >>= λ got. job_submitted r taken index got in
    subst
      (λ o.
        Agree (register_job s sizeof shm job garbage)
          (recv_request r >>= λ q. submission_index r sizeof wdb o) (record job { id = index })
          after)
      (sym free)
      (Agree-bind (λ _. recv_request s >>= submission_read s sizeof shm job)
        (λ q. submission_index r sizeof wdb (some index))
        (Agree-to (request_delivered s r (regisjob_answer garbage) client small))
        (Agree-bind (submission_read s sizeof shm job) (λ _. master_end)
          (Agree-from (
            sent_anyway
              (request_delivered r s (regisjob_answer rerr_noerror) master (omega arith))))
          (Agree-bind (λ _. recv_request s >>= client_end) (λ got. job_submitted r taken index got)
            (Agree-to (or_else_delivered none (then_ok (λ q. some q) d)))
            (Agree-bind client_end (λ _. ok after)
              (Agree-from (
                sent_anyway (
                  request_delivered r s (regisjob_answer index) master
                    (free_below wdb index free))))
              (Agree-done (record job { id = index }) after)))))

-- A client submits a job whose words fit their fields, with one frame at least and fewer than 65,536,
-- and the master has a place for it. When both are through, the client has the number of that place;
-- the master has there, in use, a job that waits, with the name, the command, the kind, the
-- addresses, the frames, the priority, the flags and the limits that the client gave, with all its frames
-- left and none rendered, failed or being rendered, the counters in step with the frame table, and an environment that
-- gives every name the value that it has at the client; and the lock is free. The number of the job
-- to wait for arrives as it lies in the memory of the client, and is another where the hosts order bytes
-- differently. The environment has fewer than 32,768 variables, where no name stands twice and
-- every value fits, and the system of the master has segments to give.
pub submitted :
    (s r : Host) (sizeof : Layout) (shm : Shm) (job : Job) (vs : List EnvVar) (wdb : Database)
    (index garbage : ℕ)
    → sizeof.job < 4_294_967_296
    → sizeof.envvar < 4_294_967_296
    → garbage < 4_294_967_296
    → FitsWords job
    → 0 < job_nframes job
    → job_nframes job < 65_536
    → Holds shm (detached job.envvars) vs
    → length vs < 32_768
    → IsUnique vs
    → Fits vs
    → Ready wdb.shm
    → job_index_free wdb ≡ some index
    → (after : Database) × (vars' : List EnvVar) × Agree
        (register_job s sizeof shm job garbage)
        (recv_request r >>= λ q. handle_r_r_regisjob r sizeof wdb)
        (record job { id = index })
        after
      × SameOrder job (after.job index)
      × Unstarted index (after.job index)
      × ((after.job index).dependid ≡ bytes32 r (bytes32 s job.dependid))
      × Consistent after.shm (after.job index)
      × ((after.job index).fleft ≡ job_nframes job)
      × Holds after.shm (detached (after.job index).envvars) vars'
      × ((q : CString) → value_of vars' q ≡ value_of vs q)
      × (after.locked ≡ false)
submitted s r sizeof shm job vs wdb index garbage small small' small'' words some_frames few_frames
      hold few unique fits ready free =
    let (shm', h', vars', d, held, ready', values) =
      job_delivered s r sizeof wdb.user shm wdb.shm job vs small small' words hold few unique fits
        ready in
    let arrived = arrived_job s r job h'.envvars in
    let base : Database = record (job_reserved wdb index) { shm = shm' } in
    let after = job_init_registered base index arrived in
    let correct = free_correct wdb index free shm' in
    let count = nframes_arrive s r job h'.envvars some_frames in
    let (order, unstarted, depends, env) =
      registered_order base index s r job h'.envvars correct ready' some_frames in
    let (consistent, left) =
      registered-Consistent base index arrived correct ready'.available
        (ready'.attachable shm'.next_id) (omega (arith, count, some_frames))
        (omega (arith, count, few_frames)) in
    (
      after,
      vars',
      submission_agrees s r sizeof shm shm' job arrived wdb index garbage small'' free d,
      order,
      unstarted,
      depends,
      consistent,
      left ∙ count,
      held_detached after.shm h' vars' (after.job index).envvars
          (registered_env base index arrived h' vars' held) env,
      values,
      lock_free base index arrived correct,
    )
