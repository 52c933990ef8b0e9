-- ===== src/Communications/Jobs.antt =====
-- A job on the wire (libdrqueue/communications.c, `send_job` and `recv_job`).
use drqueue.Prelude.{ℕ, true, CString}
use drqueue.Prelude.Bytes.{Host, htons}
use drqueue.Job.{Job, JobLimits, EnvVars, job_fix_received_invalid}
use drqueue.Job.Network.{koj_bswap, job_bswap_to_network, job_bswap_from_network}
use drqueue.Shm.{Shm}
use drqueue.Database.Registry.{job_delete}
use drqueue.EnvVars.{Handle, null}
use drqueue.Communications.Wire.{Packet, Comm, ok, failing, ◌>>=◌, ◌>>◌, write_object, read_object}
use drqueue.Communications.Memory.{bytes32, bytes16}
use drqueue.Communications.Records.{Layout, check_send_datasize, check_recv_datasize}
use drqueue.Communications.Variables.{send_envvars, recv_envvars}

abbrev pub as_job : Packet → Comm Job
as_job (Packet.job j) = ok j
as_job _ = failing

abbrev pub job_limits_bytes : Host → JobLimits → JobLimits
job_limits_bytes host l = record l {
  nmaxcpus = bytes16 host l.nmaxcpus;
  nmaxcpuscomputer = bytes16 host l.nmaxcpuscomputer;
  os_flags = bytes16 host l.os_flags;
  memory = bytes32 host l.memory;
}

-- Every word of the structure, as it lies in memory; of the union `koji` the member of this kind. The ids of
-- segments, and the count of the blocked hosts, are not looked at where they arrive, and stay as they are here.
abbrev pub job_bytes : Host → ℕ → Job → Job
unfolding koj_bswap
job_bytes host kind job = record job {
  id = bytes32 host job.id;
  nprocs = bytes16 host job.nprocs;
  status = bytes16 host job.status;
  priority = bytes32 host job.priority;
  koj = bytes16 host job.koj;
  koji = koj_bswap host kind job.koji;
  frame_start = bytes32 host job.frame_start;
  frame_end = bytes32 host job.frame_end;
  frame_step = bytes32 host job.frame_step;
  fleft = bytes32 host job.fleft;
  fdone = bytes32 host job.fdone;
  ffailed = bytes32 host job.ffailed;
  old_fdone = bytes32 host job.old_fdone;
  old_nprocs = bytes16 host job.old_nprocs;
  block_size = bytes32 host job.block_size;
  submit_time = bytes32 host job.submit_time;
  avg_frame_time = bytes32 host job.avg_frame_time;
  est_finish_time = bytes32 host job.est_finish_time;
  flags = bytes32 host job.flags;
  dependid = bytes32 host job.dependid;
  limits = job_limits_bytes host job.limits;
  envvars = record job.envvars { nvariables = bytes16 host job.envvars.nvariables };
}

-- The environment of a job that is not attached.
abbrev pub detached : EnvVars → Handle
detached envvars = record { envvars = envvars; variables = null }

abbrev pub job_on_wire : Host → Job → Job
unfolding job_bswap_to_network
job_on_wire host job = job_bytes host job.koj (job_bswap_to_network host job)

unfoldable pub send_job : Host → Layout → Shm → Job → Comm (Unit {0})
unfolding check_send_datasize job_bswap_to_network send_envvars
send_job host sizeof shm job =
    check_send_datasize host sizeof.job
    >> (write_object (Packet.job (job_on_wire host job))
        >> send_envvars host sizeof shm (detached job.envvars) true)

-- The record that the bytes are, with what means nothing on this machine taken out.
abbrev pub job_read : Host → Job → Job
unfolding job_fix_received_invalid
job_read host wire =
    job_fix_received_invalid (job_bytes host (htons host (bytes16 host wire.koj)) wire)

-- The last step, with the memory and the environment that came.
abbrev pub job_taken : Host → Job → Shm × Handle → Shm × Job
unfolding job_bswap_from_network job_fix_received_invalid
job_taken host wire r =
    (r.0, job_bswap_from_network host (record (job_read host wire) { envvars = r.1.envvars }))

unfoldable pub recv_job : Host → Layout → CString → Shm → Job → Comm (Shm × Job)
unfolding check_recv_datasize job_delete job_fix_received_invalid recv_envvars
    job_bswap_from_network
recv_job host sizeof user shm job = check_recv_datasize host sizeof.job >>= λ _.
    (read_object >>= λ p. as_job p >>= λ wire.
    recv_envvars host sizeof (job_delete user shm job).0 (detached (job_read host wire).envvars)
      true
    >>= λ r. ok (job_taken host wire r))
