-- ===== src/Communications/Memory.antt =====
-- The bytes of a structure as they go over the wire: every word of it, read from its memory in network
-- order, and the same again when bytes from the wire are left in memory.
use drqueue.Prelude.{ℕ}
use drqueue.Prelude.Bytes.{Host, htonl, htons, dr_hton64}
use drqueue.Frame.{FrameInfo}
use drqueue.Task.{Task}
use drqueue.Computer.{HwInfo, AutoEnable}

abbrev pub bytes32 : Host → ℕ → ℕ
bytes32 host n = htonl host n

abbrev pub bytes16 : Host → ℕ → ℕ
bytes16 host n = htons host n

abbrev pub task_bytes : Host → Task → Task
task_bytes host t = record t {
  ijob = bytes32 host t.ijob;
  icomp = bytes32 host t.icomp;
  itask = bytes16 host t.itask;
  frame = bytes32 host t.frame;
  frame_start = bytes32 host t.frame_start;
  frame_end = bytes32 host t.frame_end;
  frame_step = bytes32 host t.frame_step;
  block_size = bytes32 host t.block_size;
  pid = bytes32 host t.pid;
  exitstatus = bytes32 host t.exitstatus;
  start_loading_time = dr_hton64 host t.start_loading_time;
}

abbrev pub hwinfo_bytes : Host → HwInfo → HwInfo
hwinfo_bytes host h = record h {
  id = bytes32 host h.id;
  procspeed = bytes32 host h.procspeed;
  ncpus = bytes16 host h.ncpus;
  speedindex = bytes32 host h.speedindex;
  memory = bytes32 host h.memory;
}

abbrev pub frame_info_bytes : Host → FrameInfo → FrameInfo
frame_info_bytes host f = record f {
  start_time = bytes32 host f.start_time;
  end_time = bytes32 host f.end_time;
  icomp = bytes32 host f.icomp;
  itask = bytes16 host f.itask;
  requeued = bytes16 host f.requeued;
  flags = bytes16 host f.flags;
}

abbrev pub autoenable_bytes : Host → AutoEnable → AutoEnable
autoenable_bytes host a = record a { last = bytes32 host a.last }
