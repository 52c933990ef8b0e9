-- ===== src/Request/Range.antt =====
-- `handle_r_r_jobsesup` (libdrqueue/request.c): a client gives a job a new range of frames. The frames of the
-- old range that are in the new one too keep what is known of them, the others of the new one are to
-- be rendered.
pub mod Kept
use drqueue.Prelude.{
  ℕ, zero, suc, ◌+◌, Bool, true, false, not, ◌&&◌, Option, none, some, ◌==◌, if◌then◌else◌, ltb,
  find_first,
}
use drqueue.Frame.{FrameInfo, fs_assigned, job_frame_info_init}
use drqueue.Job.{Job}
use drqueue.Job.Numbering.{
  job_nframes, job_frame_index_to_number, job_frame_number_to_index, job_frame_number_correct,
}
use drqueue.Shm.{
  FrameTable, discard, store_frames, get_frame_shared_memory, attach_frame_shared_memory,
}
use drqueue.Database.{
  Database, semaphore_lock, semaphore_release, put_job, job_index_correct_master,
  computer_index_correct_master,
}

-- The four numbers that arrive, in their order.
pub record NewRange : Type 0 where
  pub frame_start : ℕ  -- uint32_t
  pub frame_end : ℕ  -- uint32_t
  pub frame_step : ℕ  -- uint32_t
  pub block_size : ℕ  -- uint32_t

-- The job with the new range; of the temporary record only these four fields are read.
abbrev pub with_range : Job → NewRange → Job
with_range job range = record job {
  frame_start = range.frame_start;
  frame_end = range.frame_end;
  frame_step = range.frame_step;
  block_size = range.block_size;
}

-- The cells that the two loops over the new table leave; every round writes its own cell.
unfoldable pub new_cells : Job → Job → FrameTable → FrameTable → ℕ → FrameInfo
unfolding job_frame_info_init
new_cells old new ofi nfi i =
    let number = job_frame_index_to_number new i in
    if ltb i (job_nframes new)
    then (if job_frame_number_correct old number
        then ofi.cell (job_frame_number_to_index old number)
        else job_frame_info_init)
    else nfi.cell i

-- The first frame that is being rendered and is not in the new range: the round of the last loop at which
-- the pointer `caddress` is used. What is done there is at the end of the handler.
unfoldable pub left_running : Job → Job → FrameTable → Option ℕ
left_running old new ofi = find_first (job_nframes old) (λ i.
    not (job_frame_number_correct new (job_frame_index_to_number old i))
    && (ofi.cell i).status == fs_assigned)

-- Between the locks: the job has its new range and table, and the old segment is still there.
unfoldable pub range_updated : Database → ℕ → Job → FrameTable → FrameTable → ℕ → Database
unfolding new_cells
range_updated wdb ijob new ofi nfi id = semaphore_release (record wdb {
  shm = store_frames (some id) (record nfi { cell = new_cells (wdb.job ijob) new ofi nfi }) wdb.shm;
  job = (put_job wdb ijob (record new { fishmid = some id })).job;
})

-- How a call ends. The pointer `caddress` never gets a value: once it is used, what happens is not defined,
-- and the model follows the call no further. If the computer of the frame is in use its address is
-- written through the pointer, and otherwise the pointer is only read, to connect to a slave.
pub data RangeEnd : Type 0 where
  returned : Database → RangeEnd
  address_written address_read : ℕ → RangeEnd

unfoldable pub handle_r_r_jobsesup : Database → ℕ → Option NewRange → RangeEnd
unfolding get_frame_shared_memory attach_frame_shared_memory left_running range_updated
handle_r_r_jobsesup wdb ijob none = returned wdb
handle_r_r_jobsesup wdb ijob (some range) =
    let locked = semaphore_lock wdb in
    let old = wdb.job ijob in
    let new = with_range old range in
    if not (job_index_correct_master locked ijob)
    then returned (semaphore_release locked)
    else let (shm', nfishmid) = get_frame_shared_memory (job_nframes new) wdb.shm in
      let given = record locked { shm = shm' } in
      elim nfishmid [
        | none ↦ returned (semaphore_release given)
        | some id ↦ elim (attach_frame_shared_memory shm' (some id)) [
          | none ↦ returned (semaphore_release given)
          | some nfi ↦ elim (attach_frame_shared_memory shm' old.fishmid) [
            | none ↦ returned (semaphore_release given)
            | some ofi ↦ elim (left_running old new ofi) [
              | some i ↦
                  let icomp = (ofi.cell i).icomp in
                  if computer_index_correct_master given icomp
                  then address_written icomp
                  else address_read icomp
              | none ↦
                  let updated = range_updated given ijob new ofi nfi id in
                  returned (record updated {
                    shm = record updated.shm {
                      frame_seg = discard updated.shm.frame_seg old.fishmid;
                    };
                  })
            ]
          ]
        ]
      ]
