-- ===== src/Conversation/Computers.antt =====
-- A whole computer from one end to the other (libdrqueue/communications.c, `send_computer` and
-- `recv_computer`).
use drqueue.Prelude.{◌<◌, ◌≡◌, Bool, none, List, [], CString, length, refl, ap}
use drqueue.Prelude.Bytes.{Host}
use drqueue.Shm.{Shm}
use drqueue.Computer.{Computer, ComputerStatus, ComputerLimits, HwInfo}
use drqueue.Computer.Pools.Laws.{Holds}
use drqueue.EnvVars.Bindings.{Ready}
use drqueue.Communications.Wire.{Comm, ok, and_then, ◌>>=◌}
use drqueue.Communications.Records.{Layout, send_computer_hwinfo, recv_computer_hwinfo}
use drqueue.Communications.RoundTrips.{FitsHwInfo, hwinfo_delivered}
use drqueue.Communications.Lists.{send_computer_status, recv_computer_status}
use drqueue.Communications.StatusTrip.{Arrived, FitsStatus, status_delivered}
use drqueue.Communications.Pools.{send_computer_limits, recv_computer_limits}
use drqueue.Communications.PoolsTrip.{AllNew}
use drqueue.Conversation.Turns.{Agree, Agree-bind, Agree-to, Agree-then}
use drqueue.Conversation.LimitsSent.{Pooled, SameLimits, FitsLimits, limits-Agree}

unfoldable pub send_computer : Host → Layout → Shm → Computer → Bool → Comm Computer
unfolding send_computer_status send_computer_hwinfo send_computer_limits
send_computer host sizeof shm computer use_local_pools =
    send_computer_status host sizeof computer.status >>= λ _.
    send_computer_hwinfo host sizeof computer.hwinfo >>= λ _.
    send_computer_limits host sizeof shm computer.limits use_local_pools >>= λ limits.
    ok (record computer { limits = limits })

abbrev pub computer_read :
    Computer → ComputerStatus → HwInfo → Shm × ComputerLimits → Shm × Computer
computer_read computer status hwinfo r =
    (r.0, record computer { status = status; hwinfo = hwinfo; limits = r.1 })

unfoldable pub recv_computer : Host → Layout → Shm → Computer → Comm (Shm × Computer)
unfolding recv_computer_status recv_computer_hwinfo recv_computer_limits
recv_computer host sizeof shm computer =
    recv_computer_status host sizeof computer.status >>= λ status.
    (recv_computer_hwinfo host sizeof >>= λ hwinfo.
    recv_computer_limits host sizeof shm computer.limits >>= λ r.
    ok (computer_read computer status hwinfo r))

-- The limits of the sender are as they were.
limits_back :
    {B : Type 0} {one : Comm ComputerLimits} {other : Comm B} (computer : Computer) {b : B}
    → Agree one other computer.limits b
    → Agree (one >>= λ limits. ok (record computer { limits = limits })) other computer b
unfolding ◌>>=◌
limits_back computer d = record {
  there = d.there;
  back = d.back;
  speaks = record {
    run = λ rest out k.
        ap (and_then (λ limits. ok (record computer { limits = limits })))
          (d.speaks.run rest out k);
  };
  answers = d.answers;
}

-- A computer that one end sends, the other has: its status, its hardware information, its limits, and its
-- pools in a segment of its own. Its pools are where the sender says that they are: in a list in its memory if
-- it sends use_local_pools as 1, as both callers in the program do, or else in its segment. All
-- words fit their fields, the names of the pools too, and none of these stands twice; the receiver has
-- no pools before, and its system has segments to give. The hosts may order bytes differently.
pub computer_sent :
    (s r : Host) (sizeof : Layout) (shm shm_r : Shm) (computer before : Computer) (local : Bool)
    (names : List CString)
    → sizeof.task < 4_294_967_296
    → sizeof.hwinfo < 4_294_967_296
    → sizeof.pool < 4_294_967_296
    → sizeof.limits < 4_294_967_296
    → FitsStatus computer.status
    → FitsHwInfo computer.hwinfo
    → FitsLimits computer.limits
    → Pooled local shm computer.limits names
    → length names < 65_536
    → AllNew [] names
    → before.limits.poolshmid ≡ none
    → Ready shm_r
    → (shm' : Shm) × (after : Computer) × Agree
        (send_computer s sizeof shm computer local)
        (recv_computer r sizeof shm_r before)
        computer
        (shm', after)
      × Arrived computer.status after.status
      × (after.hwinfo ≡ computer.hwinfo)
      × SameLimits computer.limits after.limits
      × Holds shm' after.limits names
unfolding send_computer recv_computer
computer_sent s r sizeof shm shm_r computer before local names t h p l fits fits_h fits_l hold few
      new empty ready =
    let (status, d, same) = status_delivered s r sizeof computer.status before.status t fits in
    let (shm', limits, d', held, given, alike) =
      limits-Agree s r sizeof shm shm_r computer.limits before.limits local names p l hold empty
        ready few new fits_l in
    let limits_there =
      limits_back computer (Agree-then (computer_read before status computer.hwinfo) d') in
    let sending = send_computer_limits s sizeof shm computer.limits local >>= λ q.
    ok (record computer { limits = q }) in
    let receiving = λ (st : ComputerStatus) (hw : HwInfo).
      recv_computer_limits r sizeof shm_r before.limits >>= λ q.
      ok (computer_read before st hw q) in
    (
      shm',
      record before { status = status; hwinfo = computer.hwinfo; limits = limits },
      Agree-bind (λ _. send_computer_hwinfo s sizeof computer.hwinfo >>= λ _. sending)
          (λ st. recv_computer_hwinfo r sizeof >>= λ hw. receiving st hw) (Agree-to d)
          (Agree-bind (λ _. sending) (λ hw. receiving status hw)
            (Agree-to (hwinfo_delivered s r sizeof computer.hwinfo h fits_h)) limits_there),
      same,
      refl,
      alike,
      held,
    )
