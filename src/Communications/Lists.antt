-- ===== src/Communications/Lists.antt =====
-- Texts, lists and the status of a computer: several objects after one another.
use drqueue.Prelude.{
  ℕ, zero, suc, ◌+◌, Bool, true, false, Option, none, some, List, [], ◌∷◌, ◌++◌, ◌==◌,
  if◌then◌else◌, CString, length, take, update, ltb, count_below, u16, not, ◌&&◌,
}
use drqueue.Prelude.Bytes.{Host, htons}
use drqueue.Job.{is_set}
use drqueue.Task.{Task, maxtasks, taskstatus_finished}
use drqueue.Computer.{ComputerStatus, computer_status_init}
use drqueue.Communications.Wire.{
  Packet, Conn, Comm, ok, failing, ◌>>=◌, ◌>>◌, write_object, read_object,
}
use drqueue.Communications.Memory.{bytes16}
use drqueue.Communications.Records.{
  Layout, write_32b, read_32b, write_16b, read_16b, check_send_datasize, check_recv_datasize,
  send_blocked_host, recv_blocked_host, send_task, recv_task,
}

-- The loops over the hosts; `bh` holds as many as are sent.
unfoldable pub send_hosts : Host → Layout → List CString → Bool → Comm (Unit {0})
unfolding send_blocked_host
send_hosts host sizeof [] do_checksize = ok tt
send_hosts host sizeof (n ∷ ns) do_checksize = do
  send_blocked_host host sizeof n do_checksize
  send_hosts host sizeof ns do_checksize

unfoldable pub send_blocked_host_list : Host → Layout → List CString → Bool → Comm (Unit {0})
unfolding check_send_datasize write_32b send_hosts
send_blocked_host_list host sizeof bh do_checksize = do
  if do_checksize then check_send_datasize host 4 else ok tt
  write_32b host (length bh)
  send_hosts host sizeof bh do_checksize

unfoldable pub recv_hosts : ℕ → Host → Layout → Bool → Comm (List CString)
unfolding recv_blocked_host
recv_hosts zero host sizeof do_checksize = ok []
recv_hosts (suc k) host sizeof do_checksize = do
  n ← recv_blocked_host host sizeof do_checksize
  ns ← recv_hosts k host sizeof do_checksize
  ok (n ∷ ns)

unfoldable pub recv_blocked_host_list : Host → Layout → Bool → Comm (List CString)
unfolding check_recv_datasize read_32b recv_hosts
recv_blocked_host_list host sizeof do_checksize = do
  if do_checksize then check_recv_datasize host 4 else ok tt
  size ← read_32b host
  recv_hosts size host sizeof do_checksize

-- The length of a text, its zero included, is a uint16_t, and so many bytes are sent.
abbrev pub sized : CString → ℕ
sized str = u16 (length str + 1)

abbrev pub string_buffer : CString → List ℕ
string_buffer str = take (sized str) (str ++ 0 ∷ [])

-- A call for no bytes at all gives 0, which its callers take for a failure.
abbrev pub write_bytes : List ℕ → Comm (Unit {0})
write_bytes [] = failing
write_bytes (b ∷ bs) = write_object (Packet.text (b ∷ bs))

abbrev pub as_text : Packet → Comm (List ℕ)
as_text (Packet.text s) = ok s
as_text _ = failing

unfoldable pub send_string : Host → CString → Comm (Unit {0})
unfolding check_send_datasize write_16b
send_string host str = do
  check_send_datasize host 2
  write_16b host (sized str)
  check_send_datasize host (sized str)
  write_bytes (string_buffer str)

-- What is in the buffer that the call allocates.
unfoldable pub recv_string : Host → Comm (List ℕ)
unfolding check_recv_datasize read_16b
recv_string host = do
  check_recv_datasize host 2
  len ← read_16b host
  check_recv_datasize host len
  if len == 0 then failing else read_object >>= λ p. as_text p

abbrev pub as_loadavg : Packet → Comm (ℕ × ℕ × ℕ)
as_loadavg (Packet.loadavg a b c) = ok (a, b, c)
as_loadavg _ = failing

-- The three numbers go as one object.
unfoldable pub send_computer_loadavg : Host → ComputerStatus → Comm (Unit {0})
send_computer_loadavg host status = write_object (
    Packet.loadavg (bytes16 host (htons host (status.loadavg 0)))
      (bytes16 host (htons host (status.loadavg 1))) (bytes16 host (htons host (status.loadavg 2))))

unfoldable pub recv_computer_loadavg : Host → Comm (ℕ × ℕ × ℕ)
recv_computer_loadavg host = do
  p ← read_object
  l ← as_loadavg p
  ok (htons host (bytes16 host l.0), htons host (bytes16 host l.1), htons host (bytes16 host l.2))

unfoldable pub send_computer_ntasks : Host → ComputerStatus → Comm (Unit {0})
unfolding write_16b
send_computer_ntasks host status = do write_16b host status.ntasks; write_16b host status.nrunning

unfoldable pub recv_computer_ntasks : Host → Comm (ℕ × ℕ)
unfolding read_16b
recv_computer_ntasks host = do
  ntasks ← read_16b host
  nrunning ← read_16b host
  ok (ntasks, nrunning)

abbrev pub is_used : (ℕ → Task) → ℕ → Bool
is_used task i = is_set (task i).used

-- The counts that the sender makes first.
unfoldable pub status_counted : ComputerStatus → ComputerStatus
status_counted status = record status {
  ntasks = count_below maxtasks (is_used status.task);
  nrunning =
      count_below maxtasks
        (λ i. is_used status.task i && not ((status.task i).status == taskstatus_finished));
}

-- Only the tasks in use are sent: `k` rounds from slot `i` on.
unfoldable pub send_used_tasks : ℕ → ℕ → Host → Layout → (ℕ → Task) → Comm (Unit {0})
unfolding send_task
send_used_tasks zero i host sizeof task = ok tt
send_used_tasks (suc k) i host sizeof task = elim (is_used task i) [
  | true ↦ send_task host sizeof (task i) >> send_used_tasks k (i + 1) host sizeof task
  | false ↦ send_used_tasks k (i + 1) host sizeof task
]

unfoldable pub send_computer_status : Host → Layout → ComputerStatus → Comm (Unit {0})
unfolding send_computer_loadavg send_computer_ntasks send_used_tasks status_counted
send_computer_status host sizeof status = do
  send_computer_loadavg host (status_counted status)
  send_computer_ntasks host (status_counted status)
  send_used_tasks maxtasks 0 host sizeof status.task

-- A task goes to the slot that it names, which is not checked.
unfoldable pub recv_tasks : ℕ → Host → Layout → (ℕ → Task) → Comm (ℕ → Task)
unfolding recv_task
recv_tasks zero host sizeof task = ok task
recv_tasks (suc k) host sizeof task = do
  t ← recv_task host sizeof
  recv_tasks k host sizeof (update task t.itask t)

-- A failure of the first two parts is noted, and the call goes on with the value that is there.
abbrev pub noted_failure : {A : Type 0} → A → Conn × Option A → Conn × Option A
noted_failure a (c, none) = (c, some a)
noted_failure a (c, some b) = (c, some b)

abbrev pub or_else : {A : Type 0} → Comm A → A → Comm A
or_else m a c = noted_failure a (m c)

abbrev pub loads : ℕ × ℕ × ℕ → ℕ → ℕ
loads l i = if i == 0 then l.0 else if i == 1 then l.1 else l.2

-- `status` is what the record of the receiver holds before.
unfoldable pub recv_computer_status : Host → Layout → ComputerStatus → Comm ComputerStatus
unfolding recv_computer_loadavg recv_computer_ntasks recv_tasks computer_status_init
recv_computer_status host sizeof status = do
  l ← or_else (recv_computer_loadavg host) (0, 0, 0)
  n ← or_else (recv_computer_ntasks host) (0, 0)
  let ntasks = if ltb maxtasks n.0 then 0 else n.0
  task ← recv_tasks ntasks host sizeof (computer_status_init status).task
  ok (record { loadavg = loads l; ntasks = ntasks; nrunning = n.1; task = task })
