-- ===== src/Job/Status.antt =====
-- The states of a job as the requests to stop and to continue it change them, and the texts that
-- stand for its state and kind (libdrqueue/job.c).
use drqueue.Prelude.{ℕ, ◌≤◌, ◌≡◌, ◌⊎◌, arith, ◌==◌, if◌then◌else◌, CString, codes}
use drqueue.Job.{Job, jobstatus_waiting, jobstatus_active, jobstatus_stopped, jobstatus_finished}

unfoldable pub job_stop : Job → Job
job_stop job =
    if job.status == jobstatus_waiting
    then record job { status = jobstatus_stopped }
    else if job.status == jobstatus_active
    then record job { status = jobstatus_stopped }
    else job

unfoldable pub job_continue : Job → Job
job_continue job =
    if job.status == jobstatus_stopped
    then record job { status = jobstatus_waiting }
    else if job.status == jobstatus_finished
    then record job { status = jobstatus_waiting }
    else job

unfoldable pub job_status_string : ℕ → CString
job_status_string status =
    if status == jobstatus_waiting
    then codes "Waiting"
    else if status == jobstatus_active
    then codes "Active"
    else if status == jobstatus_stopped
    then codes "Stopped"
    else if status == jobstatus_finished
    then codes "Finished"
    else codes "DEFAULT (ERROR)"

-- The kinds are the numbers of KOJ_GENERAL and so on.
unfoldable pub job_koj_string : ℕ → CString
job_koj_string koj =
    if koj == 0
    then codes "General"
    else if koj == 1
    then codes "Maya"
    else if koj == 6
    then codes "Mental Ray"
    else if koj == 2
    then codes "Blender"
    else if koj == 5
    then codes "Pixie"
    else if koj == 4
    then codes "3delight"
    else if koj == 7
    then codes "Lightwave"
    else if koj == 11
    then codes "Nuke"
    else if koj == 10
    then codes "Terragen"
    else if koj == 8
    then codes "After Effects"
    else if koj == 9
    then codes "Shake"
    else if koj == 13
    then codes "Turtle"
    else if koj == 14
    then codes "Mantra/Houdini"
    else if koj == 15
    then codes "XSI"
    else if koj == 16
    then codes "Luxrender"
    else codes "DEFAULT (ERROR)"

-- The four states.
abbrev pub IsJobStatus : ℕ → Type 0
IsJobStatus status = status ≤ 3

-- Stopping a job in one of the four states and then continuing it puts it in the waiting state,
-- whatever state it was in, and changes no other field.
pub continue-stop :
    (job : Job)
    → IsJobStatus job.status
    → job_continue (job_stop job) ≡ record job { status = jobstatus_waiting }
unfolding job_continue job_stop
continue-stop job h = ground arith

-- A stopped job in one of the four states is stopped or finished, so it hands out no frame, and
-- stopping it again changes nothing.
pub stop-stop :
    (job : Job)
    → IsJobStatus job.status
    → (job_stop (job_stop job) ≡ job_stop job)
      × (((job_stop job).status ≡ jobstatus_stopped) ⊎ ((job_stop job).status ≡ jobstatus_finished))
unfolding job_stop
stop-stop job h = ground arith
