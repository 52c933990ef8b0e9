-- ===== src/Conversation/Submission.antt =====
-- A client submits a job to the master (libdrqueue/request.c, `register_job` and `handle_r_r_regisjob`).
use drqueue.Prelude.{ℕ, Option, none, some, ◌==◌, if◌then◌else◌}
use drqueue.Prelude.Bytes.{Host}
use drqueue.Job.{Job, job_init}
use drqueue.Shm.{Shm}
use drqueue.Request.{Request, rerr_noerror}
use drqueue.Database.{Database, semaphore_lock, semaphore_release, put_job}
use drqueue.Database.Lookup.{job_index_free}
use drqueue.Database.Registry.{job_init_registered}
use drqueue.Communications.Wire.{Comm, ok, failing, ◌>>=◌, ◌>>◌}
use drqueue.Communications.Records.{Layout, send_request, recv_request}
use drqueue.Communications.Lists.{or_else}
use drqueue.Communications.Jobs.{send_job, recv_job}
use drqueue.Conversation.Status.{master}
use drqueue.Conversation.Registration.{rerr_nospace}

abbrev pub r_r_regisjob : ℕ
r_r_regisjob = 3

-- The field `who` of a request of a client.
abbrev pub client : ℕ
client = 20

-- The master tells the client the number of the job in the end. Every answer but the one without error ends the
-- call, which then returns 0.
unfoldable pub submission_read : Host → Layout → Shm → Job → Request × ℕ → Comm Job
unfolding send_job recv_request
submission_read host sizeof shm job answer =
    if answer.0.type == r_r_regisjob
    then (if answer.0.«data» == rerr_noerror
        then (send_job host sizeof shm job >>= λ _.
            recv_request host >>= λ q. ok (record job { id = q.0.«data» }))
        else failing)
    else failing

-- From the connection on; `garbage` is what the field `data` of the request holds, which is not set.
unfoldable pub register_job : Host → Layout → Shm → Job → ℕ → Comm Job
unfolding send_request recv_request submission_read
register_job host sizeof shm job garbage = do
  send_request host (record { type = r_r_regisjob; «data» = garbage }) client
  answer ← recv_request host
  submission_read host sizeof shm job answer

abbrev pub regisjob_answer : ℕ → Request
regisjob_answer code = record { type = r_r_regisjob; «data» = code }

-- The place is taken before the job comes.
abbrev pub job_reserved : Database → ℕ → Database
job_reserved wdb index =
    let held = semaphore_lock wdb in
    semaphore_release (put_job held index (record (held.job index) { used = 1 }))

abbrev pub job_unassigned : Database → ℕ → Database
job_unassigned wdb index =
    let held = semaphore_lock wdb in semaphore_release (put_job held index (job_init held.user))

-- What follows the reading of the job, `none` where it fails; the segments that the part of the environment has
-- taken by then are not followed.
unfoldable pub job_submitted : Host → Database → ℕ → Option (Shm × Job) → Comm Database
unfolding send_request job_init_registered
job_submitted host wdb index none = ok (job_unassigned wdb index)
job_submitted host wdb index (some r) =
    let registered = job_init_registered (record wdb { shm = r.0 }) index r.1 in
    or_else (send_request host (regisjob_answer index) master) tt >>= λ _. ok registered

-- Where there is no place, the client is told; whether it hears that is not looked at.
unfoldable pub submission_index : Host → Layout → Database → Option ℕ → Comm Database
unfolding send_request recv_job job_init job_submitted
submission_index host sizeof wdb none =
    or_else (send_request host (regisjob_answer rerr_nospace) master) tt >>= λ _.
    ok (semaphore_release (semaphore_lock wdb))
submission_index host sizeof wdb (some index) =
    let taken = job_reserved wdb index in
    or_else (send_request host (regisjob_answer rerr_noerror) master) tt >>= λ _.
    or_else (recv_job host sizeof taken.user taken.shm (job_init taken.user) >>= λ r. ok (some r))
      none
    >>= λ got. job_submitted host taken index got

unfoldable pub handle_r_r_regisjob : Host → Layout → Database → Comm Database
unfolding job_index_free submission_index
handle_r_r_regisjob host sizeof wdb = submission_index host sizeof wdb (job_index_free wdb)
