-- ===== src/Request/JobOrders/Rerun.antt =====
-- What running a job again does to its frames.
use drqueue.Prelude.{ℕ, ◌+◌, ◌==◌, ltb, if◌then◌else◌, u16}
use drqueue.Frame.{FrameInfo, fs_assigned, fs_waiting}
use drqueue.Shm.{FrameTable}
use drqueue.Database.{Database}

-- A frame of the range that is not being rendered waits, with no time of its start and one more requeue
-- to its count, which is a uint16_t; every other one is as it was.
abbrev pub restarted : ℕ → FrameTable → ℕ → FrameInfo
restarted n fi j =
    if ltb j n
    then (if (fi.cell j).status == fs_assigned then fi.cell j else record (fi.cell j) {
      status = fs_waiting;
      start_time = 0;
      requeued = u16 ((fi.cell j).requeued + 1);
    })
    else fi.cell j
