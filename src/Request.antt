-- ===== src/Request.antt =====
-- The messages between the master and the slaves (libdrqueue/request.h, libdrqueue/request_codes.h,
-- libdrqueue/request_errors.h). What travels over the socket is an argument of the master's handlers:
-- whether an answer could be sent, and what was received.
pub mod TaskFini
pub mod AvailJob
pub mod FrameOrders
pub mod JobOrders
pub mod Settings
pub mod HostOrders
pub mod Range
pub mod SlaveExit
use drqueue.Prelude.{ℕ}

-- `struct request`, but for the sender.
pub record Request : Type 0 where
  pub type : ℕ  -- uint8_t
  pub «data» : ℕ  -- uint32_t

abbrev pub r_r_availjob : ℕ
r_r_availjob = 4

abbrev pub rerr_noerror : ℕ
rerr_noerror = 0
