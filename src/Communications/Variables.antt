-- ===== src/Communications/Variables.antt =====
-- The environment variables of a job on the wire (libdrqueue/communications.c, `send_envvars` and
-- `recv_envvars`): one end sends its list, the other adds one variable after the other to a list of its own.
use drqueue.Prelude.{ℕ, zero, suc, Bool, Option, none, some, List, [], ◌∷◌, take, if◌then◌else◌}
use drqueue.Prelude.Bytes.{Host}
use drqueue.Job.{EnvVar, is_set}
use drqueue.Shm.{Shm}
use drqueue.Database.Registry.{envvars_free}
use drqueue.EnvVars.{Handle, handle_free, envvars_attach, envvars_variable_add}
use drqueue.Communications.Wire.{Comm, ok, failing, ◌>>=◌, ◌>>◌}
use drqueue.Communications.Records.{Layout, write_16b, read_16b, send_envvar, recv_envvar}

unfoldable pub send_variables : Host → Layout → List EnvVar → Bool → Comm (Unit {0})
unfolding send_envvar
send_variables host sizeof [] do_checksize = ok tt
send_variables host sizeof (v ∷ vs) do_checksize = do
  send_envvar host sizeof v do_checksize
  send_variables host sizeof vs do_checksize

-- A list that cannot be attached is noted, and then read through a pointer that is not one.
abbrev pub attached_variables : Shm → Handle → Comm (List EnvVar)
unfolding envvars_attach
attached_variables shm h = elim (envvars_attach shm h).1 [
  | none ↦ failing
  | some vars ↦ ok (take h.envvars.nvariables vars)
]

unfoldable pub send_envvars : Host → Layout → Shm → Handle → Bool → Comm (Unit {0})
unfolding write_16b send_variables envvars_attach
send_envvars host sizeof shm h do_checksize = write_16b host h.envvars.nvariables >>= λ _.
    (if is_set h.envvars.nvariables then attached_variables shm h else ok []) >>= λ vars.
    send_variables host sizeof vars do_checksize

-- The result of the addition is not looked at, unless the process dies there.
abbrev pub added : Option (Shm × Handle × Bool) → Comm (Shm × Handle)
added none = failing
added (some r) = ok (r.0, r.1)

unfoldable pub recv_variables : ℕ → Host → Layout → Shm → Handle → Bool → Comm (Shm × Handle)
unfolding recv_envvar envvars_variable_add
recv_variables zero host sizeof shm h do_checksize = ok (shm, h)
recv_variables (suc k) host sizeof shm h do_checksize =
    recv_envvar host sizeof do_checksize >>= λ v.
    added (envvars_variable_add shm h v.name v.value) >>= λ r.
    recv_variables k host sizeof r.0 r.1 do_checksize

-- What was in the list before is given back first.
unfoldable pub recv_envvars : Host → Layout → Shm → Handle → Bool → Comm (Shm × Handle)
unfolding envvars_free read_16b recv_variables
recv_envvars host sizeof shm h do_checksize =
    let freed = handle_free shm h in
    (if freed.2 then ok tt else failing) >>= λ _. read_16b host >>= λ nvariables.
    recv_variables nvariables host sizeof freed.0 freed.1 do_checksize
