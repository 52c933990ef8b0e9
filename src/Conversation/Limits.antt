-- ===== src/Conversation/Limits.antt =====
-- A slave tells the master its limits (libdrqueue/request.c, `update_computer_limits` and
-- `handle_r_r_uclimits`).
use drqueue.Prelude.{
  ℕ, ◌<◌, ◌≡◌, refl, sym, subst, Option, none, some, List, [], ◌∷◌, CString, arith, length, ◌==◌,
  false, Option-cases, inl, inr, if◌then◌else◌,
}
use drqueue.Prelude.Bytes.{Host}
use drqueue.Shm.{Shm}
use drqueue.Computer.{ComputerLimits}
use drqueue.Computer.Setup.{Env, computer_limits_init}
use drqueue.Computer.Pools.{
  computer_pool_init, computer_pool_free, computer_pool_detach_shared_memory,
}
use drqueue.Computer.Pools.Laws.{Holds}
use drqueue.EnvVars.Bindings.{Ready}
use drqueue.Request.{Request, rerr_noerror}
use drqueue.Database.{Database, semaphore_lock, semaphore_release, put_computer}
use drqueue.Communications.Wire.{Comm, ok, failing, ◌>>=◌, ◌>>◌}
use drqueue.Communications.Records.{Layout, send_request, recv_request}
use drqueue.Communications.Lists.{or_else}
use drqueue.Communications.Pools.{send_computer_limits, recv_computer_limits}
use drqueue.Communications.PoolsTrip.{AllNew, Given}
use drqueue.Conversation.Status.{master, slave, rerr_noregis}
use drqueue.Conversation.Turns.{
  request_delivered, Agree, Agree-bind, Agree-to, Agree-from, Agree-then,
}
use drqueue.Conversation.LimitsSent.{SameLimits, FitsLimits, limits-Agree}

abbrev pub r_r_uclimits : ℕ
r_r_uclimits = 19

-- Every answer but the one without error ends the call, which then returns 0.
abbrev pub limits_answer_read :
    Host → Layout → Shm → ComputerLimits → Request × ℕ → Comm ComputerLimits
unfolding send_computer_limits
limits_answer_read host sizeof shm limits answer =
    if answer.0.type == r_r_uclimits
    then (if answer.0.«data» == rerr_noerror
        then send_computer_limits host sizeof shm limits false
        else failing)
    else failing

-- From the connection on; `garbage` is what the field `data` of the request holds, which is not set.
unfoldable pub update_computer_limits :
    Host → Layout → Shm → ComputerLimits → ℕ → Comm ComputerLimits
unfolding send_request recv_request send_computer_limits
update_computer_limits host sizeof shm limits garbage = do
  send_request host (record { type = r_r_uclimits; «data» = garbage }) slave
  answer ← recv_request host
  limits_answer_read host sizeof shm limits answer

-- The segment of the old limits is given back, and the new ones take their place.
abbrev pub limits_put : ℕ → Shm × ComputerLimits → Database → Database
unfolding computer_pool_free computer_pool_detach_shared_memory
limits_put icomp r wdb =
    let held = semaphore_lock wdb in
    let freed = record held { shm = (computer_pool_free r.0 (held.computer icomp).limits).0 } in
    semaphore_release (
      put_computer freed icomp
        (record (freed.computer icomp) { limits = (computer_pool_detach_shared_memory r.1).0 }))

abbrev pub uclimits_answer : ℕ → Request
uclimits_answer code = record { type = r_r_uclimits; «data» = code }

-- The process of the master that serves the slave ends where `exit (0)` stands, which `failing` is here.
unfoldable pub handle_r_r_uclimits : Host → Layout → Env → Database → Option ℕ → Comm Database
unfolding send_request recv_computer_limits computer_limits_init
handle_r_r_uclimits host sizeof env wdb none =
    or_else (send_request host (uclimits_answer rerr_noregis) master) tt >>= λ _. failing
handle_r_r_uclimits host sizeof env wdb (some icomp) =
    send_request host (uclimits_answer rerr_noerror) master >>= λ _.
    recv_computer_limits host sizeof wdb.shm (computer_limits_init env) >>= λ r.
    ok (limits_put icomp r wdb)

init_empty : (env : Env) → (computer_limits_init env).poolshmid ≡ none
unfolding computer_limits_init computer_pool_init
init_empty env = refl

-- A list in a newer segment outlives the one it replaces.
free_older :
    (shm : Shm) (old cl : ComputerLimits) (names : List CString) (next : ℕ)
    → Holds shm cl names
    → Given next cl
    → ((id : ℕ) → old.poolshmid ≡ some id → id < next)
    → old.pool ≡ none
    → Holds (computer_pool_free shm old).0 (computer_pool_detach_shared_memory cl).0 names
unfolding computer_pool_free computer_pool_detach_shared_memory computer_pool_init
free_older shm old cl [] next h given older detached = ground (arith, h.0, h.1, h.2)
free_older shm old cl (n ∷ ns) next (id, h) given older detached =
    elim (Option-cases old.poolshmid) [
      | inl none_old ↦
          (id, ground (arith, h.shmid, h.contents, h.attachable, h.given, h.counted, h.detached))
      | inr (k, e) ↦
          let newer = given id h.shmid in
          let before = older k e in
          (id, ground (arith, e, h.shmid, h.contents, h.attachable, h.given, h.counted, h.detached))
    ]

-- What a record that stands for a list has, whatever the list.
old_given :
    (shm : Shm) (cl : ComputerLimits) (names : List CString)
    → Holds shm cl names
    → ((id : ℕ) → cl.poolshmid ≡ some id → id < shm.next_id) × (cl.pool ≡ none)
old_given shm cl [] h = (λ id e. ground (arith, h.1, e), h.2)
old_given shm cl (n ∷ ns) (k, h) = (λ id e. ground (arith, h.shmid, h.given, e), h.detached)

put_same :
    (icomp : ℕ) (q : Shm × ComputerLimits) (wdb : Database) (cl : ComputerLimits)
    → SameLimits cl q.1
    → SameLimits cl ((limits_put icomp q wdb).computer icomp).limits
unfolding limits_put computer_pool_detach_shared_memory
put_same icomp q wdb cl h =
    ground (arith, h.enabled, h.nmaxcpus, h.maxfreeloadcpu, h.last, h.hour, h.minute, h.flags)

put_held :
    (icomp : ℕ) (q : Shm × ComputerLimits) (wdb : Database) (names : List CString)
    → Holds
        (computer_pool_free q.0 (wdb.computer icomp).limits).0
        (computer_pool_detach_shared_memory q.1).0
        names
    → Holds (limits_put icomp q wdb).shm ((limits_put icomp q wdb).computer icomp).limits names
unfolding limits_put
put_held icomp q wdb names h =
    let same : ((limits_put icomp q wdb).computer icomp).limits
        ≡ (computer_pool_detach_shared_memory q.1).0 =
      ground arith in
    subst (λ cl. Holds (limits_put icomp q wdb).shm cl names) (sym same) h

-- A registered slave whose limits changed tells the master: when both are through, the master has the limits of the
-- slave for that computer, and the pools in a segment of its own, whatever pools that computer had before; the lock is
-- free. The names of the pools fit their fields, and none stands twice; the system of the master has segments to give.
-- The hosts may order bytes differently.
pub limits_told :
    (s r : Host) (sizeof : Layout) (shm : Shm) (limits : ComputerLimits) (names : List CString)
    (env : Env) (wdb : Database) (icomp : ℕ) (olds : List CString) (garbage : ℕ)
    → sizeof.pool < 4_294_967_296
    → sizeof.limits < 4_294_967_296
    → garbage < 4_294_967_296
    → Holds shm limits names
    → FitsLimits limits
    → length names < 65_536
    → AllNew [] names
    → Holds wdb.shm (wdb.computer icomp).limits olds
    → Ready wdb.shm
    → (after : Database) × Agree
        (update_computer_limits s sizeof shm limits garbage)
        (recv_request r >>= λ q. handle_r_r_uclimits r sizeof env wdb (some icomp))
        limits
        after
      × SameLimits limits (after.computer icomp).limits
      × Holds after.shm (after.computer icomp).limits names
      × (after.locked ≡ false)
unfolding update_computer_limits handle_r_r_uclimits ◌>>◌
limits_told s r sizeof shm limits names env wdb icomp olds garbage small small' small'' hold fits
      few new old ready =
    let (shm', cl', d, held, given, same) =
      limits-Agree s r sizeof shm wdb.shm limits (computer_limits_init env) false names small small'
        hold (init_empty env) ready few new fits in
    let (older, detached) = old_given wdb.shm (wdb.computer icomp).limits olds old in
    (
      limits_put icomp (shm', cl') wdb,
      Agree-bind (λ _. recv_request s >>= limits_answer_read s sizeof shm limits)
          (λ q. handle_r_r_uclimits r sizeof env wdb (some icomp))
          (Agree-to (request_delivered s r (uclimits_answer garbage) slave small''))
          (Agree-bind (limits_answer_read s sizeof shm limits)
            (λ _. recv_computer_limits r sizeof wdb.shm (computer_limits_init env) >>= λ q.
              ok (limits_put icomp q wdb))
            (Agree-from (request_delivered r s (uclimits_answer rerr_noerror) master (omega arith)))
            (Agree-then (λ q. limits_put icomp q wdb) d)),
      put_same icomp (shm', cl') wdb limits same,
      put_held icomp (shm', cl') wdb names
          (free_older shm' (wdb.computer icomp).limits cl' names wdb.shm.next_id held given older
            detached),
      refl,
    )
