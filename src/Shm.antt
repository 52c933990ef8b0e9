-- ===== src/Shm.antt =====
-- The System V shared memory that the master keeps its tables in, as libdrqueue/job.c and
-- libdrqueue/computer_pool.c use it. A segment is what it holds, by its id. `shmget` refuses when the
-- system is out of segments (`full`) and for a size of 0; `shmat` refuses an id with no segment and
-- one that the system does not let the process attach (`no_attach`); `shmctl (IPC_RMID)` refuses an
-- id with no segment. Ids are not used twice.
use drqueue.Prelude.{
  ℕ, suc, Bool, true, false, ◌||◌, Option, none, some, List, [], CString, ◌==◌, if◌then◌else◌,
  update,
}
use drqueue.Frame.{FrameInfo, job_frame_info_init}
use drqueue.Job.{ShmId, EnvVar}

-- The frame table of a job: the segment's size in frames, and the frames.
pub record FrameTable : Type 0 where
  pub size : ℕ
  pub cell : ℕ → FrameInfo

pub record Shm : Type 0 where
  pub frame_seg : ℕ → Option FrameTable
  pub host_seg : ℕ → Option (List CString)
  pub pool_seg : ℕ → Option (List CString)
  pub env_seg : ℕ → Option (List EnvVar)
  pub next_id : ℕ
  pub full : Bool
  pub no_attach : ℕ → Bool

-- `shmat`.
abbrev pub attach {ℓ} : {A : Type ℓ} → Shm → (ℕ → Option A) → ShmId → Option A
attach shm seg none = none
attach shm seg (some id) = if shm.no_attach id then none else seg id

-- A write through an attached segment.
abbrev pub store {ℓ} : {A : Type ℓ} → (ℕ → Option A) → ShmId → A → ℕ → Option A
store seg none v = seg
store seg (some id) v = update seg id (some v)

-- `shmctl (id, IPC_RMID)`: the segments that are left.
abbrev pub discard {ℓ} : {A : Type ℓ} → (ℕ → Option A) → ShmId → ℕ → Option A
discard seg none = seg
discard seg (some id) = update seg id none

abbrev is_some {ℓ} : {A : Type ℓ} → Option A → Bool
is_some none = false
is_some (some a) = true

-- Does `shmctl (id, IPC_RMID)` succeed?
abbrev pub removable {ℓ} : {A : Type ℓ} → (ℕ → Option A) → ShmId → Bool
removable seg none = false
removable seg (some id) = is_some (seg id)

-- `shmget` for `n` frames; the system clears the memory.
unfoldable pub get_frame_shared_memory : ℕ → Shm → Shm × ShmId
unfolding job_frame_info_init
get_frame_shared_memory n shm =
    let table = some (record { size = n; cell = λ _. job_frame_info_init }) in
    if shm.full || n == 0 then (shm, none) else (
      record shm { frame_seg = update shm.frame_seg shm.next_id table; next_id = suc shm.next_id },
      some shm.next_id,
    )

unfoldable pub attach_frame_shared_memory : Shm → ShmId → Option FrameTable
attach_frame_shared_memory shm id = attach shm shm.frame_seg id

abbrev pub store_frames : ShmId → FrameTable → Shm → Shm
store_frames id table shm = record shm { frame_seg = store shm.frame_seg id table }

-- `shmget` for `n` host names.
unfoldable pub get_blocked_host_shared_memory : ℕ → Shm → Shm × ShmId
get_blocked_host_shared_memory n shm = if shm.full || n == 0 then (shm, none) else (
  record shm { host_seg = update shm.host_seg shm.next_id (some []); next_id = suc shm.next_id },
  some shm.next_id,
)

unfoldable pub attach_blocked_host_shared_memory : Shm → ShmId → Option (List CString)
attach_blocked_host_shared_memory shm id = attach shm shm.host_seg id

-- `shmget` for `npools` pool names.
unfoldable pub computer_pool_get_shared_memory : ℕ → Shm → Shm × ShmId
computer_pool_get_shared_memory npools shm = if shm.full || npools == 0 then (shm, none) else (
  record shm { pool_seg = update shm.pool_seg shm.next_id (some []); next_id = suc shm.next_id },
  some shm.next_id,
)
