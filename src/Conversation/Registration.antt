-- ===== src/Conversation/Registration.antt =====
-- A slave registers with the master (libdrqueue/request.c, `register_slave` and `handle_r_r_register`).
use drqueue.Prelude.{ℕ, Option, none, some, ◌==◌, if◌then◌else◌, CString, take, u32}
use drqueue.Prelude.Bytes.{Host}
use drqueue.Request.{Request, rerr_noerror}
use drqueue.Job.{maxnamelen}
use drqueue.Computer.{Computer, HwInfo}
use drqueue.Computer.Setup.{Env, computer_init, computer_free}
use drqueue.Database.{Database, semaphore_lock, semaphore_release, put_computer}
use drqueue.Database.Lookup.{computer_index_free}
use drqueue.Communications.Wire.{Comm, ok, failing, ◌>>=◌}
use drqueue.Communications.Records.{
  Layout, send_request, recv_request, send_computer_hwinfo, recv_computer_hwinfo,
}
use drqueue.Communications.Lists.{or_else}
use drqueue.Conversation.Status.{master, slave}

abbrev pub r_r_register : ℕ
r_r_register = 1

abbrev pub rerr_nospace : ℕ
rerr_nospace = 2

abbrev pub register_answer : ℕ → Request
register_answer code = record { type = r_r_register; «data» = code }

abbrev pub numbered : ℕ → Computer → Computer
numbered id computer = record computer { hwinfo = record computer.hwinfo { id = id }; used = 1 }

-- A slave that is refused, or that cannot go on, kills itself. The id that arrives is the index of the computer.
abbrev pub register_read : Host → Layout → Computer → Request × ℕ → Comm Computer
unfolding recv_request send_computer_hwinfo
register_read host sizeof computer answer =
    if answer.0.type == r_r_register
    then (if answer.0.«data» == rerr_noerror
        then (recv_request host >>= λ id.
            send_computer_hwinfo host sizeof (numbered id.0.«data» computer).hwinfo >>= λ _.
            ok (numbered id.0.«data» computer))
        else failing)
    else failing

-- From the connection on; `garbage` is what the field `data` of the request holds, which is not set.
unfoldable pub register_slave : Host → Layout → Computer → ℕ → Comm Computer
unfolding send_request recv_request send_computer_hwinfo
register_slave host sizeof computer garbage =
    send_request host (register_answer garbage) slave >>= λ _.
    recv_request host >>= λ answer. register_read host sizeof computer answer

-- The record that a computer gets, before its hardware is known.
abbrev pub newly_used : Env → Database → ℕ → Computer
unfolding computer_init
newly_used env wdb index = record (computer_init env (wdb.computer index)) {
  used = 1;
  lastconn = u32 wdb.now;
}

-- The master puts the name and the address that it sees in place of those that the computer sent.
abbrev pub hwinfo_seen : CString → CString → HwInfo → HwInfo
hwinfo_seen name address hwinfo = record hwinfo {
  address = take maxnamelen address;
  name = take maxnamelen name;
}

abbrev pub registered_as : Env → Database → CString → CString → ℕ → HwInfo → Database
unfolding computer_init
registered_as env wdb name address index hwinfo = semaphore_release (
    put_computer (semaphore_lock wdb) index
      (record (newly_used env wdb index) { hwinfo = hwinfo_seen name address hwinfo }))

-- The failures on the way.
abbrev pub unregistered : Env → Database → ℕ → Database
unfolding computer_init computer_free
unregistered env wdb index =
    let freed = computer_free env wdb.shm (newly_used env wdb index) in
    semaphore_release (put_computer (record (semaphore_lock wdb) { shm = freed.0 }) index freed.1)

-- The part after the index is chosen: the two answers and the hardware.
unfoldable pub register_index :
    Host → Layout → Env → Database → CString → CString → ℕ → Comm (Database × Option ℕ)
unfolding computer_init computer_free send_request recv_computer_hwinfo
register_index host sizeof env wdb name address index =
    or_else
      (send_request host (register_answer rerr_noerror) master >>= λ _.
        send_request host (register_answer (u32 index)) master >>= λ _.
        recv_computer_hwinfo host sizeof >>= λ hwinfo.
        ok (registered_as env wdb name address index hwinfo, some index))
      (unregistered env wdb index, none)

-- `name` and `address` are what the master knows of the other end, and `icomp` is the index of a computer that is registered
-- already, which registers again. The result is the index, if there is one.
unfoldable pub handle_r_r_register :
    Host → Layout → Env → Database → CString → CString → Option ℕ → Comm (Database × Option ℕ)
unfolding register_index computer_index_free send_request
handle_r_r_register host sizeof env wdb name address (some icomp) =
    register_index host sizeof env wdb name address icomp
handle_r_r_register host sizeof env wdb name address none = elim (computer_index_free wdb) [
  | none ↦ or_else (send_request host (register_answer rerr_nospace) master) tt >>= λ _.
      ok (semaphore_release (semaphore_lock wdb), none)
  | some index ↦ register_index host sizeof env wdb name address index
]
