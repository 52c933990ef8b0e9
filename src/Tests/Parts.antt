-- ===== src/Tests/Parts.antt =====
-- The theorems on single records and on the lists of names, at the test data.
use drqueue.Prelude.{ℕ, ◌<◌, ◌≡◌, refl, true, arith}
use drqueue.Job.{Job}
use drqueue.Job.Numbering.{
  HasRange, job_nframes, job_frame_index_to_number, job_frame_number_correct,
  job_frame_number_to_index, number_to_index-index_to_number, number_to_index-lt-nframes,
}
use drqueue.Job.Priority.{Tpol}
use drqueue.Job.Network.{FitsWords}
use drqueue.Tests.{shot}

-- Frames 1, 4, 7 and 10, two of them to a block.
abbrev stepped : Job
stepped = record shot { frame_step = 3; block_size = 2 }

stepped-HasRange : HasRange stepped
stepped-HasRange = record {
  step_pos = omega arith;
  block_pos = omega arith;
  ordered = omega arith;
  in_word = omega arith;
  chunk_in_word = omega arith;
}

two : job_nframes stepped ≡ 2
unfolding job_nframes
two = refl

ten_correct : job_frame_number_correct stepped 10 ≡ true
unfolding job_frame_number_correct
ten_correct = refl

number_to_index-index_to_number_example :
    job_frame_number_to_index stepped (job_frame_index_to_number stepped 1) ≡ 1
number_to_index-index_to_number_example =
    number_to_index-index_to_number stepped stepped-HasRange 1 (omega (arith, two))

number_to_index-lt-nframes_example : job_frame_number_to_index stepped 10 < job_nframes stepped
number_to_index-lt-nframes_example =
    number_to_index-lt-nframes stepped stepped-HasRange 10 ten_correct

abbrev entry : ℕ → ℕ → Tpol
entry index pri = record { index = index; pri = pri; submit_time = 0 }

shot-FitsWords : FitsWords shot
shot-FitsWords = record {
  id = omega arith;
  nprocs = omega arith;
  status = omega arith;
  koj = omega arith;
  resx = omega arith;
  resy = omega arith;
  frame_start = omega arith;
  frame_end = omega arith;
  frame_step = omega arith;
  block_size = omega arith;
  avg_frame_time = omega arith;
  est_finish_time = omega arith;
  fleft = omega arith;
  fdone = omega arith;
  ffailed = omega arith;
  priority = omega arith;
  flags = omega arith;
  nmaxcpus = omega arith;
  nmaxcpuscomputer = omega arith;
  os_flags = omega arith;
  memory = omega arith;
}
