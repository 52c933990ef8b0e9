-- ===== src/Computer/Setup.antt =====
-- A computer record that is set up and given back (libdrqueue/computer.c).
use drqueue.Prelude.{ℕ, Option, none, some, u8, u16}
use drqueue.Task.{maxtasks}
use drqueue.Shm.{Shm}
use drqueue.Computer.{Computer, ComputerLimits, computer_status_init, maxloadavg}
use drqueue.Computer.Pools.{computer_pool_init, computer_pool_free}

-- The environment of the process: what `atoi` reads of DRQUEUE_ENABLED and DRQUEUE_MAX_CPUS, where they are set.
pub record Env : Type 0 where
  pub enabled : Option ℕ
  pub max_cpus : Option ℕ

abbrev pub or_default : Option ℕ → ℕ → ℕ
or_default none d = d
or_default (some n) d = n

abbrev pub ae_hour : ℕ
ae_hour = 21

abbrev pub ae_min : ℕ
ae_min = 0

unfoldable pub computer_limits_init : Env → ComputerLimits
unfolding computer_pool_init
computer_limits_init env = computer_pool_init (record {
  enabled = u8 (or_default env.enabled 1);
  nmaxcpus = u16 (or_default env.max_cpus maxtasks);
  maxfreeloadcpu = maxloadavg;
  autoenable = record { last = 0; h = ae_hour; m = ae_min; flags = 0 };
  npools = 0;
  poolshmid = some 0;
  poolsemid = some 0;
  npoolsattached = 0;
  pool = none;
  local_pool = none;
})

unfoldable pub computer_init : Env → Computer → Computer
unfolding computer_limits_init computer_status_init
computer_init env computer = record computer {
  used = 0;
  limits = computer_limits_init env;
  status = computer_status_init computer.status;
}

unfoldable pub computer_free : Env → Shm → Computer → Shm × Computer
unfolding computer_pool_free computer_init
computer_free env shm computer =
    let freed = computer_pool_free shm computer.limits in
    (freed.0, computer_init env (record computer { limits = freed.1 }))
