-- ===== src/Job/Network.antt =====
-- A job record as it travels (libdrqueue/job.c): numbers in network byte order, and none of the
-- fields that mean something on one machine only.
use drqueue.Prelude.{ℕ, ◌<◌, ◌≡◌, arith, ◌==◌, if◌then◌else◌, none}
use drqueue.Prelude.Bytes.{Host, htonl, htons, htonl-htonl, htons-htons}
use drqueue.Job.{Job, JobLimits, KojInfo, envvars_init}

abbrev koj_turtle : ℕ
koj_turtle = 13

unfoldable pub job_limits_bswap_to_network : Host → JobLimits → JobLimits
job_limits_bswap_to_network host orig = record orig {
  nmaxcpus = htons host orig.nmaxcpus;
  nmaxcpuscomputer = htons host orig.nmaxcpuscomputer;
  os_flags = htons host orig.os_flags;
  memory = htonl host orig.memory;
}

unfoldable pub job_limits_bswap_from_network : Host → JobLimits → JobLimits
job_limits_bswap_from_network host orig = record orig {
  nmaxcpus = htons host orig.nmaxcpus;
  nmaxcpuscomputer = htons host orig.nmaxcpuscomputer;
  os_flags = htons host orig.os_flags;
  memory = htonl host orig.memory;
}

-- The `switch` on the kind: only the turtle member holds numbers.
unfoldable pub koj_bswap : Host → ℕ → KojInfo → KojInfo
koj_bswap host koj koji =
    if koj == koj_turtle
    then record { resx = htonl host koji.resx; resy = htonl host koji.resy }
    else koji

-- `dest` starts as a copy of `orig`.
unfoldable pub job_bswap_to_network : Host → Job → Job
unfolding koj_bswap job_limits_bswap_to_network envvars_init
job_bswap_to_network host orig = record orig {
  id = htonl host orig.id;
  nprocs = htons host orig.nprocs;
  status = htons host orig.status;
  koji = koj_bswap host orig.koj orig.koji;
  koj = htons host orig.koj;
  frame_start = htonl host orig.frame_start;
  frame_end = htonl host orig.frame_end;
  frame_step = htonl host orig.frame_step;
  block_size = htonl host orig.block_size;
  avg_frame_time = htonl host orig.avg_frame_time;
  est_finish_time = htonl host orig.est_finish_time;
  fleft = htonl host orig.fleft;
  fdone = htonl host orig.fdone;
  ffailed = htonl host orig.ffailed;
  priority = htonl host orig.priority;
  flags = htonl host orig.flags;
  limits = job_limits_bswap_to_network host orig.limits;
  envvars = record envvars_init { nvariables = htons host orig.envvars.nvariables };
}

-- Both calls (libdrqueue/communications.c and libdrqueue/database.c) pass one job as `orig` and
-- `dest`, so a field is read as the statements before have left it.
unfoldable pub job_bswap_from_network : Host → Job → Job
unfolding koj_bswap job_limits_bswap_from_network
job_bswap_from_network host job =
    let koj = htons host job.koj in
    let step = htonl host job.frame_step in
    record job {
      id = htonl host job.id;
      nprocs = htons host job.nprocs;
      status = htons host job.status;
      koj = koj;
      koji = koj_bswap host koj job.koji;
      frame_start = htonl host job.frame_start;
      frame_end = htonl host job.frame_end;
      frame_step = if step == 0 then 1 else step;
      block_size = htonl host job.block_size;
      avg_frame_time = htonl host job.avg_frame_time;
      est_finish_time = htonl host job.est_finish_time;
      fleft = htonl host job.fleft;
      fdone = htonl host job.fdone;
      ffailed = htonl host job.ffailed;
      priority = htonl host job.priority;
      flags = htonl host job.flags;
      limits = job_limits_bswap_from_network host job.limits;
    }

-- The fields that are swapped hold values of their C types.
pub record FitsWords (job : Job) : Type 0 where
  pub id : job.id < 4_294_967_296
  pub nprocs : job.nprocs < 65_536
  pub status : job.status < 65_536
  pub koj : job.koj < 65_536
  pub resx : job.koji.resx < 4_294_967_296
  pub resy : job.koji.resy < 4_294_967_296
  pub frame_start : job.frame_start < 4_294_967_296
  pub frame_end : job.frame_end < 4_294_967_296
  pub frame_step : job.frame_step < 4_294_967_296
  pub block_size : job.block_size < 4_294_967_296
  pub avg_frame_time : job.avg_frame_time < 4_294_967_296
  pub est_finish_time : job.est_finish_time < 4_294_967_296
  pub fleft : job.fleft < 4_294_967_296
  pub fdone : job.fdone < 4_294_967_296
  pub ffailed : job.ffailed < 4_294_967_296
  pub priority : job.priority < 4_294_967_296
  pub flags : job.flags < 4_294_967_296
  pub nmaxcpus : job.limits.nmaxcpus < 65_536
  pub nmaxcpuscomputer : job.limits.nmaxcpuscomputer < 65_536
  pub os_flags : job.limits.os_flags < 65_536
  pub memory : job.limits.memory < 4_294_967_296

pub koj_bswap-koj_bswap :
    (host : Host) (koj : ℕ) (koji : KojInfo)
    → koji.resx < 4_294_967_296
    → koji.resy < 4_294_967_296
    → koj_bswap host koj (koj_bswap host koj koji) ≡ koji
unfolding koj_bswap
koj_bswap-koj_bswap host koj koji hx hy =
    ground (arith, htonl-htonl host koji.resx hx, htonl-htonl host koji.resy hy)

limits_from-to :
    (host : Host) (job : Job)
    → FitsWords job
    → job_limits_bswap_from_network host (job_limits_bswap_to_network host job.limits) ≡ job.limits
unfolding job_limits_bswap_from_network job_limits_bswap_to_network
limits_from-to host job fits = rw (
  htons-htons host job.limits.nmaxcpus fits.nmaxcpus,
  htons-htons host job.limits.nmaxcpuscomputer fits.nmaxcpuscomputer,
  htons-htons host job.limits.os_flags fits.os_flags,
  htonl-htonl host job.limits.memory fits.memory,
)

-- A job that is sent and received, between hosts of one byte order, is the job again, except that a
-- step of 0 has become 1 and that the environment has lost its ids, with its count of variables
-- left in network order.
pub from_network-to_network :
    (host : Host) (job : Job)
    → FitsWords job
    → job_bswap_from_network host (job_bswap_to_network host job) ≡ record job {
      frame_step = if job.frame_step == 0 then 1 else job.frame_step;
      envvars = record {
        nvariables = htons host job.envvars.nvariables;
        evshmid = none;
        evsemid = none;
      };
    }
unfolding job_bswap_from_network job_bswap_to_network
from_network-to_network host job fits = rw (
  htonl-htonl host job.id fits.id,
  htonl-htonl host job.frame_start fits.frame_start,
  htonl-htonl host job.frame_end fits.frame_end,
  htonl-htonl host job.frame_step fits.frame_step,
  htonl-htonl host job.block_size fits.block_size,
  htonl-htonl host job.avg_frame_time fits.avg_frame_time,
  htonl-htonl host job.est_finish_time fits.est_finish_time,
  htonl-htonl host job.fleft fits.fleft,
  htonl-htonl host job.fdone fits.fdone,
  htonl-htonl host job.ffailed fits.ffailed,
  htonl-htonl host job.priority fits.priority,
  htonl-htonl host job.flags fits.flags,
  htons-htons host job.nprocs fits.nprocs,
  htons-htons host job.status fits.status,
  htons-htons host job.koj fits.koj,
  koj_bswap-koj_bswap host job.koj job.koji fits.resx fits.resy,
  limits_from-to host job fits,
)
