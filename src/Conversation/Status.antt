-- ===== src/Conversation/Status.antt =====
-- A slave tells the master its status (libdrqueue/request.c, `update_computer_status` and
-- `handle_r_r_ucstatus`).
use drqueue.Prelude.{
  ℕ, ◌<◌, ◌≡◌, ◌≢◌, refl, false, subst, ap, Option, none, some, ◌==◌, if◌then◌else◌, arith,
}
use drqueue.Prelude.Bytes.{Host}
use drqueue.Request.{Request, rerr_noerror}
use drqueue.Computer.{ComputerStatus, computer_status_init}
use drqueue.Database.{Database, semaphore_lock, semaphore_release, put_computer}
use drqueue.Communications.Wire.{Comm, ok, failing, ◌>>=◌, ◌>>◌}
use drqueue.Communications.Delivery.{Delivers, Delivers-bind, then_ok}
use drqueue.Communications.Records.{Layout, send_request, recv_request}
use drqueue.Communications.Lists.{
  send_computer_status, recv_computer_status, noted_failure, or_else,
}
use drqueue.Communications.ListTrips.{or_else_delivered}
use drqueue.Communications.StatusTrip.{Arrived, FitsStatus, status_delivered}
use drqueue.Conversation.Turns.{request_delivered, Delivers-back}

abbrev pub r_r_ucstatus : ℕ
r_r_ucstatus = 2

abbrev pub rerr_noregis : ℕ
rerr_noregis = 3

-- The field `who` of a request.
abbrev pub master : ℕ
master = 0

abbrev pub slave : ℕ
slave = 10

-- What the slave does with the answer; a slave that is not registered kills itself.
abbrev pub answer_read : Host → Layout → ComputerStatus → Request × ℕ → Comm (Unit {0})
unfolding send_computer_status
answer_read host sizeof status answer =
    if answer.0.type == r_r_ucstatus
    then (if answer.0.«data» == rerr_noerror
        then or_else (send_computer_status host sizeof status) tt
        else if answer.0.«data» == rerr_noregis
        then failing
        else ok tt)
    else ok tt

-- From the connection on; `garbage` is what the field `data` of the request holds, which is not set.
unfoldable pub update_computer_status : Host → Layout → ComputerStatus → ℕ → Comm (Unit {0})
unfolding send_request recv_request send_computer_status
update_computer_status host sizeof status garbage = do
  send_request host (record { type = r_r_ucstatus; «data» = garbage }) slave
  answer ← recv_request host
  answer_read host sizeof status answer

abbrev pub status_put : Database → ℕ → ComputerStatus → Database
status_put wdb icomp status =
    semaphore_release
      (put_computer (semaphore_lock wdb) icomp (record (wdb.computer icomp) { status = status }))

abbrev pub ucstatus_answer : ℕ → Request
ucstatus_answer code = record { type = r_r_ucstatus; «data» = code }

-- `local` is the local variable before it is set. Whether the answer is sent is not looked at.
unfoldable pub handle_r_r_ucstatus :
    Host → Layout → ComputerStatus → Database → Option ℕ → Comm Database
unfolding send_request recv_computer_status computer_status_init
handle_r_r_ucstatus host sizeof local wdb none = do
  or_else (send_request host (ucstatus_answer rerr_noregis) master) tt
  ok wdb
handle_r_r_ucstatus host sizeof local wdb (some icomp) = do
  or_else (send_request host (ucstatus_answer rerr_noerror) master) tt
  or_else
      (recv_computer_status host sizeof (computer_status_init local) >>= λ status.
        ok (status_put wdb icomp status))
      wdb

pub sent_anyway :
    {A : Type 0} {s : Comm (Unit {0})} {r : Comm A} {a : A}
    → Delivers s r a
    → Delivers (or_else s tt) r a
sent_anyway d = record {
  there = d.there;
  back = d.back;
  sends = record { run = λ rest out k. ap (noted_failure tt) (d.sends.run rest out k) };
  receives = d.receives;
}

put-Arrived :
    (wdb : Database) (icomp : ℕ) (status after : ComputerStatus)
    → Arrived status after
    → Arrived status ((status_put wdb icomp after).computer icomp).status
put-Arrived wdb icomp status after a =
    let same : after ≡ ((status_put wdb icomp after).computer icomp).status = ground arith in
    subst (Arrived status) same a

-- A registered slave whose status fits its words tells it to the master: when both are through, the master has it in
-- the record of that computer; the rest of that record, all other records and the jobs are as they were, and
-- the lock is free. The hosts may order bytes differently.
pub status_told :
    (s r : Host) (sizeof : Layout) (status local : ComputerStatus) (wdb : Database)
    (icomp garbage : ℕ)
    → sizeof.task < 4_294_967_296
    → garbage < 4_294_967_296
    → FitsStatus status
    → (after : Database) × Delivers
        (update_computer_status s sizeof status garbage)
        (recv_request r >>= λ q. handle_r_r_ucstatus r sizeof local wdb (some icomp))
        after
      × Arrived status (after.computer icomp).status
      × (after.computer icomp
          ≡ record (wdb.computer icomp) { status = (after.computer icomp).status })
      × ((i : ℕ) → i ≢ icomp → after.computer i ≡ wdb.computer i)
      × (after.job ≡ wdb.job)
      × (after.locked ≡ false)
unfolding update_computer_status handle_r_r_ucstatus
status_told s r sizeof status local wdb icomp garbage small small' fits =
    let (arrived, d, same) =
      status_delivered s r sizeof status (computer_status_init local) small fits in
    (
      status_put wdb icomp arrived,
      Delivers-bind (λ q. handle_r_r_ucstatus r sizeof local wdb (some icomp))
          (request_delivered s r (ucstatus_answer garbage) slave small')
          (Delivers-back (answer_read s sizeof status)
            (or_else
              (recv_computer_status r sizeof (computer_status_init local) >>= λ status.
                ok (status_put wdb icomp status))
              wdb)
            (sent_anyway
              (request_delivered r s (ucstatus_answer rerr_noerror) master (omega arith)))
            (sent_anyway (or_else_delivered wdb (then_ok (status_put wdb icomp) d)))),
      put-Arrived wdb icomp status arrived same,
      ground arith,
      λ i other. ground (arith, other),
      refl,
      refl,
    )
