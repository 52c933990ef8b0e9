-- ===== src/Communications/Records.antt =====
-- One structure at a time: the check of its size by both ends, and the structure in network byte order.
-- `sizeof` is what the operator gives in the build of an end.
use drqueue.Prelude.{ℕ, Bool, true, false, ◌==◌, if◌then◌else◌, CString}
use drqueue.Prelude.Bytes.{Host, htonl, htons, dr_hton64}
use drqueue.Frame.{FrameInfo}
use drqueue.Job.{Job, EnvVar}
use drqueue.Task.{Task}
use drqueue.Computer.{HwInfo, ComputerLimits, AutoEnable}
use drqueue.Request.{Request}
use drqueue.Communications.Memory.{
  bytes32, bytes16, task_bytes, hwinfo_bytes, frame_info_bytes, autoenable_bytes,
}
use drqueue.Communications.Wire.{
  Packet, word16, word32, Comm, ok, failing, ◌>>=◌, ◌>>◌, write_object, read_object,
}

pub record Layout : Type 0 where
  pub hwinfo : ℕ
  pub task : ℕ
  pub job : ℕ
  pub envvar : ℕ
  pub pool : ℕ
  pub limits : ℕ
  pub host : ℕ

abbrev pub sure : Bool → Comm (Unit {0})
sure true = ok tt
sure false = failing

-- An object of another kind than the one asked for does not travel between ends that follow the same
-- protocol.
abbrev pub as_word32 : Packet → Comm ℕ
as_word32 (word32 n) = ok n
as_word32 _ = failing

abbrev pub as_word16 : Packet → Comm ℕ
as_word16 (word16 n) = ok n
as_word16 _ = failing

abbrev pub as_task : Packet → Comm Task
as_task (Packet.task t) = ok t
as_task _ = failing

abbrev pub as_hwinfo : Packet → Comm HwInfo
as_hwinfo (Packet.hwinfo h) = ok h
as_hwinfo _ = failing

abbrev pub as_request : Packet → Comm (Request × ℕ)
as_request (Packet.request r who) = ok (r, who)
as_request _ = failing

abbrev pub as_frame_info : Packet → Comm FrameInfo
as_frame_info (Packet.frame_info f) = ok f
as_frame_info _ = failing

abbrev pub as_autoenable : Packet → Comm AutoEnable
as_autoenable (Packet.autoenable a) = ok a
as_autoenable _ = failing

abbrev pub as_envvar : Packet → Comm EnvVar
as_envvar (Packet.envvar v) = ok v
as_envvar _ = failing

abbrev pub as_name : Packet → Comm CString
as_name (Packet.name n) = ok n
as_name _ = failing

abbrev pub as_job : Packet → Comm Job
as_job (Packet.job j) = ok j
as_job _ = failing

abbrev pub as_limits : Packet → Comm ComputerLimits
as_limits (Packet.limits l) = ok l
as_limits _ = failing

unfoldable pub write_32b : Host → ℕ → Comm (Unit {0})
write_32b host n = write_object (word32 (bytes32 host (htonl host n)))

unfoldable pub read_32b : Host → Comm ℕ
read_32b host = do p ← read_object; n ← as_word32 p; ok (htonl host (bytes32 host n))

unfoldable pub write_16b : Host → ℕ → Comm (Unit {0})
write_16b host n = write_object (word16 (bytes16 host (htons host n)))

unfoldable pub read_16b : Host → Comm ℕ
read_16b host = do p ← read_object; n ← as_word16 p; ok (htons host (bytes16 host n))

unfoldable pub check_send_datasize : Host → ℕ → Comm (Unit {0})
unfolding write_32b read_32b
check_send_datasize host datasize = do
  write_32b host datasize
  remotesize ← read_32b host
  sure (datasize == remotesize)

unfoldable pub check_recv_datasize : Host → ℕ → Comm (Unit {0})
unfolding write_32b read_32b
check_recv_datasize host datasize = do
  remotesize ← read_32b host
  write_32b host datasize
  sure (datasize == remotesize)

-- The swaps of the senders, which the receivers undo by the same calls.
abbrev pub task_bswap : Host → Task → Task
task_bswap host t = record t {
  ijob = htonl host t.ijob;
  icomp = htonl host t.icomp;
  itask = htons host t.itask;
  frame = htonl host t.frame;
  frame_start = htonl host t.frame_start;
  frame_end = htonl host t.frame_end;
  frame_step = htonl host t.frame_step;
  block_size = htonl host t.block_size;
  pid = htonl host t.pid;
  exitstatus = htonl host t.exitstatus;
  start_loading_time = dr_hton64 host t.start_loading_time;
}

abbrev pub hwinfo_bswap : Host → HwInfo → HwInfo
hwinfo_bswap host h = record h {
  id = htonl host h.id;
  procspeed = htonl host h.procspeed;
  ncpus = htons host h.ncpus;
  speedindex = htonl host h.speedindex;
  memory = htonl host h.memory;
}

abbrev pub frame_info_bswap : Host → FrameInfo → FrameInfo
frame_info_bswap host f = record f {
  start_time = htonl host f.start_time;
  end_time = htonl host f.end_time;
  icomp = htonl host f.icomp;
  itask = htons host f.itask;
  requeued = htons host f.requeued;
  flags = htons host f.flags;
}

abbrev pub autoenable_bswap : Host → AutoEnable → AutoEnable
autoenable_bswap host a = record a { last = htonl host a.last }

unfoldable pub send_task : Host → Layout → Task → Comm (Unit {0})
unfolding check_send_datasize
send_task host sizeof t = do
  check_send_datasize host sizeof.task
  write_object (Packet.task (task_bytes host (task_bswap host t)))

unfoldable pub recv_task : Host → Layout → Comm Task
unfolding check_recv_datasize
recv_task host sizeof = do
  check_recv_datasize host sizeof.task
  p ← read_object
  t ← as_task p
  ok (task_bswap host (task_bytes host t))

unfoldable pub send_computer_hwinfo : Host → Layout → HwInfo → Comm (Unit {0})
unfolding check_send_datasize
send_computer_hwinfo host sizeof h = do
  check_send_datasize host sizeof.hwinfo
  write_object (Packet.hwinfo (hwinfo_bytes host (hwinfo_bswap host h)))

unfoldable pub recv_computer_hwinfo : Host → Layout → Comm HwInfo
unfolding check_recv_datasize
recv_computer_hwinfo host sizeof = do
  check_recv_datasize host sizeof.hwinfo
  p ← read_object
  h ← as_hwinfo p
  ok (hwinfo_bswap host (hwinfo_bytes host h))

-- A request goes without a check of its size. The sender of it swaps its own copy in place.
unfoldable pub send_request : Host → Request → ℕ → Comm (Unit {0})
send_request host r who =
    write_object (Packet.request (record r { «data» = bytes32 host (htonl host r.«data») }) who)

unfoldable pub recv_request : Host → Comm (Request × ℕ)
recv_request host = do
  p ← read_object
  answer ← as_request p
  ok (record answer.0 { «data» = htonl host (bytes32 host answer.0.«data») }, answer.1)

unfoldable pub send_frame_info : Host → FrameInfo → Comm (Unit {0})
send_frame_info host f =
    write_object (Packet.frame_info (frame_info_bytes host (frame_info_bswap host f)))

unfoldable pub recv_frame_info : Host → Comm FrameInfo
recv_frame_info host = do
  p ← read_object
  f ← as_frame_info p
  ok (frame_info_bswap host (frame_info_bytes host f))

unfoldable pub send_autoenable : Host → AutoEnable → Comm (Unit {0})
send_autoenable host a =
    write_object (Packet.autoenable (autoenable_bytes host (autoenable_bswap host a)))

unfoldable pub recv_autoenable : Host → Comm AutoEnable
recv_autoenable host = do
  p ← read_object
  a ← as_autoenable p
  ok (autoenable_bswap host (autoenable_bytes host a))

-- The names in these have no words to swap.
unfoldable pub send_envvar : Host → Layout → EnvVar → Bool → Comm (Unit {0})
unfolding check_send_datasize
send_envvar host sizeof v do_checksize = do
  if do_checksize then check_send_datasize host sizeof.envvar else ok tt
  write_object (Packet.envvar v)

unfoldable pub recv_envvar : Host → Layout → Bool → Comm EnvVar
unfolding check_recv_datasize
recv_envvar host sizeof do_checksize = do
  if do_checksize then check_recv_datasize host sizeof.envvar else ok tt
  p ← read_object
  as_envvar p

unfoldable pub send_blocked_host : Host → Layout → CString → Bool → Comm (Unit {0})
unfolding check_send_datasize
send_blocked_host host sizeof bh do_checksize = do
  if do_checksize then check_send_datasize host sizeof.host else ok tt
  write_object (Packet.name bh)

unfoldable pub recv_blocked_host : Host → Layout → Bool → Comm CString
unfolding check_recv_datasize
recv_blocked_host host sizeof do_checksize = do
  if do_checksize then check_recv_datasize host sizeof.host else ok tt
  p ← read_object
  as_name p
