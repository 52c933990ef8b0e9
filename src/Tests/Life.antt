-- ===== src/Tests/Life.antt =====
-- The theorems on runs of calls and on new ranges, at the test data.
use drqueue.Prelude.{refl, true, some, arith}
use drqueue.Job.Numbering.{job_nframes}
use drqueue.Database.{Database}
use drqueue.Database.Consistent.{Consistent}
use drqueue.Request.TaskFini.{handle_r_r_taskfini}
use drqueue.Request.Range.{NewRange, with_range}
use drqueue.Request.Range.Kept.{CanMove}
use drqueue.Tests.{shot, shot_frames, shot_task, farm}
use drqueue.Tests.Work.{shot_attached, farm_job}

abbrev ended : Database
ended = handle_r_r_taskfini farm true (some shot_task)

-- Frames 2 to 13, and frames 5 to 13.
abbrev later : NewRange
later = record { frame_start = 2; frame_end = 13; frame_step = 1; block_size = 1 }

abbrev too_late : NewRange
too_late = record { frame_start = 5; frame_end = 13; frame_step = 1; block_size = 1 }

too_late-CanMove : CanMove farm 3 5 shot_frames (with_range shot too_late)
unfolding job_nframes
too_late-CanMove = record {
  correct = farm_job;
  frames = omega arith;
  available = refl;
  attachable = refl;
  mine = refl;
  given = omega arith;
  attached = shot_attached;
}
