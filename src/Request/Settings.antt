-- ===== src/Request/Settings.antt =====
-- The handlers by which a client sets one number of a job (libdrqueue/request.c): its priority and its limits.
-- The number arrives in a second packet, which `none` stands for the loss of.
use drqueue.Prelude.{ℕ, ◌-◌, not, Option, none, some, CString, if◌then◌else◌, take, u16}
use drqueue.Job.{Job, maxnamelen}
use drqueue.Database.{
  Database, semaphore_lock, semaphore_release, put_job, job_index_correct_master,
}

-- From the lock on. A wrong index leaves the semaphore locked.
abbrev pub set_locked : Database → ℕ → (Job → Job) → Database
unfolding job_index_correct_master
set_locked wdb ijob set =
    let locked = semaphore_lock wdb in
    if not (job_index_correct_master locked ijob)
    then locked
    else semaphore_release (put_job locked ijob (set (wdb.job ijob)))

unfoldable pub handle_r_r_joblms : Database → ℕ → Option ℕ → Database
handle_r_r_joblms wdb ijob none = wdb
handle_r_r_joblms wdb ijob (some memory) =
    set_locked wdb ijob (λ job. record job { limits = record job.limits { memory = memory } })

-- `strncpy` of MAXNAMELEN-1 bytes.
unfoldable pub handle_r_r_joblps : Database → ℕ → Option CString → Database
handle_r_r_joblps wdb ijob none = wdb
handle_r_r_joblps wdb ijob (some pool) =
    set_locked wdb ijob
      (λ job. record job { limits = record job.limits { pool = take (maxnamelen - 1) pool } })

unfoldable pub handle_r_r_joblnmcs : Database → ℕ → Option ℕ → Database
handle_r_r_joblnmcs wdb ijob none = wdb
handle_r_r_joblnmcs wdb ijob (some nmaxcpus) =
    set_locked wdb ijob
      (λ job. record job { limits = record job.limits { nmaxcpus = u16 nmaxcpus } })

unfoldable pub handle_r_r_joblnmccs : Database → ℕ → Option ℕ → Database
handle_r_r_joblnmccs wdb ijob none = wdb
handle_r_r_joblnmccs wdb ijob (some nmaxcpuscomputer) =
    set_locked wdb ijob
      (λ job. record job { limits = record job.limits { nmaxcpuscomputer = u16 nmaxcpuscomputer } })

unfoldable pub handle_r_r_jobpriup : Database → ℕ → Option ℕ → Database
handle_r_r_jobpriup wdb ijob none = wdb
handle_r_r_jobpriup wdb ijob (some priority) =
    set_locked wdb ijob (λ job. record job { priority = priority })
