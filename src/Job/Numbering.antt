-- ===== src/Job/Numbering.antt =====
-- How the frames of a job are numbered (libdrqueue/job.c): a job renders the frames frame_start,
-- frame_start + frame_step, ... up to frame_end, and hands them out in blocks of block_size. The
-- index of a block is what the frame table is indexed by.
use native.Mathlib.Nat.{
  add-div_right, div-div-eq-div-mul, le-div_iff_mul-le, mul-div_left, div-le_self,
  add-sub_cancel_left, mul_assoc, mul-mod_left, le_trans, div-mul-le_self, lt-div-mul-add, mul_comm,
}
use drqueue.Prelude.{
  ℕ, ◌+◌, ◌-◌, ◌*◌, ◌/◌, ◌%◌, ◌≤◌, ◌<◌, ◌≡◌, sym, ◌∙◌, ap, ◌↔◌, Bool, true, false, arith, ltb,
  if◌then◌else◌, u32, sub32,
}
use drqueue.Job.{Job, is_set}

-- All arithmetic is on uint32_t.
unfoldable pub job_nframes : Job → ℕ
job_nframes job =
    if is_set job.frame_step
    then (let n_step =
          u32 (sub32 job.frame_end job.frame_start + job.frame_step) / job.frame_step in
        if is_set job.block_size
        then sub32 (u32 (n_step + job.block_size)) 1 / job.block_size
        else 0)
    else 0

-- The wrap of the inner products is that of the sum.
unfoldable pub job_frame_index_to_number : Job → ℕ → ℕ
job_frame_index_to_number job index =
    u32 (job.frame_start + index * (job.block_size * job.frame_step))

unfoldable pub job_frame_number_to_index : Job → ℕ → ℕ
job_frame_number_to_index job number =
    sub32 number job.frame_start / u32 (job.block_size * job.frame_step)

-- `frame_step` is not 0 here: `number % 0` stops the process.
unfoldable pub job_frame_number_correct : Job → ℕ → Bool
job_frame_number_correct job number =
    if ltb job.frame_end number
    then false
    else if ltb number job.frame_start
    then false
    else if is_set (sub32 number job.frame_start % job.frame_step)
    then false
    else true

-- A range of frames whose arithmetic stays within uint32_t.
pub record HasRange (job : Job) : Type 0 where
  pub step_pos : 0 < job.frame_step
  pub block_pos : 0 < job.block_size
  pub ordered : job.frame_start ≤ job.frame_end
  pub in_word : job.frame_end + job.frame_step < 4_294_967_296
  pub chunk_in_word :
      job.frame_end + job.block_size + job.block_size * job.frame_step < 4_294_967_296

-- The frames per index, and the distance from the first frame to the last.
abbrev pub chunk : Job → ℕ
chunk job = job.block_size * job.frame_step

abbrev pub span : Job → ℕ
span job = job.frame_end - job.frame_start

is_set_of_pos : (n : ℕ) → 0 < n → is_set n ≡ true
is_set_of_pos n h = ground arith

module _ (job : Job) (h : HasRange job) where
  chunk_pos : 0 < chunk job
  chunk_pos = grind (arith, h.step_pos, h.block_pos)

  span-steps :
      u32 (sub32 job.frame_end job.frame_start + job.frame_step) ≡ span job + job.frame_step
  span-steps = omega (arith, h.in_word, h.ordered)

  steps-le : span job / job.frame_step ≤ span job
  steps-le = div-le_self (span job) job.frame_step

  blocks-sum :
      sub32 (u32 (span job / job.frame_step + 1 + job.block_size)) 1
      ≡ span job / job.frame_step + job.block_size
  blocks-sum = omega (arith, steps-le, h.chunk_in_word, h.block_pos)

  -- The number of indices, for every range whose arithmetic stays in a word.
  pub nframes-eq : job_nframes job ≡ span job / chunk job + 1
  unfolding job_nframes
  nframes-eq = rw (
    is_set_of_pos job.frame_step h.step_pos,
    span-steps,
    add-div_right (span job) h.step_pos,
    is_set_of_pos job.block_size h.block_pos,
    blocks-sum,
    add-div_right (span job / job.frame_step) h.block_pos,
    div-div-eq-div-mul (span job) job.frame_step job.block_size,
    mul_comm job.frame_step job.block_size,
  )

  -- An index in the table leaves its first frame in the range, so nothing wraps.
  offset-le-span : (i : ℕ) → i < job_nframes job → i * chunk job ≤ span job
  offset-le-span i l = (le-div_iff_mul-le chunk_pos).0 (omega (arith, l, nframes-eq))

  index_to_number-eq :
      (i : ℕ)
      → i < job_nframes job
      → job_frame_index_to_number job i ≡ job.frame_start + i * chunk job
  unfolding job_frame_index_to_number
  index_to_number-eq i l = omega (arith, offset-le-span i l, h.in_word, h.ordered)

  chunk-in_word : u32 (chunk job) ≡ chunk job
  chunk-in_word = omega (arith, h.chunk_in_word)

  number_to_index-eq :
      (n : ℕ)
      → job.frame_start ≤ n
      → n ≤ job.frame_end
      → job_frame_number_to_index job n ≡ (n - job.frame_start) / chunk job
  unfolding job_frame_number_to_index
  number_to_index-eq n lo hi =
      let e : sub32 n job.frame_start ≡ n - job.frame_start = omega (arith, h.in_word) in
      rw (chunk-in_word, e)

  -- The index of a frame's number gives the index back.
  pub number_to_index-index_to_number :
      (i : ℕ)
      → i < job_nframes job
      → job_frame_number_to_index job (job_frame_index_to_number job i) ≡ i
  number_to_index-index_to_number i l = rw (index_to_number-eq i l) (
      number_to_index-eq (job.frame_start + i * chunk job) (omega arith)
        (omega (arith, offset-le-span i l, h.ordered))
      ∙ ap (λ (m : ℕ). m / chunk job) (add-sub_cancel_left job.frame_start (i * chunk job))
      ∙ mul-div_left i chunk_pos)

  sub32-start :
      (n : ℕ)
      → job.frame_start ≤ n
      → n ≤ job.frame_end
      → sub32 n job.frame_start ≡ n - job.frame_start
  sub32-start n lo hi = omega (arith, h.in_word)

  -- A number passes the test exactly when the job renders that frame.
  pub number_correct_iff :
      (n : ℕ)
      → (job_frame_number_correct job n ≡ true) ↔ (
          (job.frame_start ≤ n)
          × (n ≤ job.frame_end)
          × ((n - job.frame_start) % job.frame_step ≡ 0))
  unfolding job_frame_number_correct
  number_correct_iff n = ground (arith, sub32-start n)

  -- Every index of the table stands for a frame of the range.
  pub index_to_number_correct :
      (i : ℕ)
      → i < job_nframes job
      → job_frame_number_correct job (job_frame_index_to_number job i) ≡ true
  index_to_number_correct i l = (number_correct_iff (job_frame_index_to_number job i)).1 (
      rw (index_to_number-eq i l)
        (omega arith, omega (arith, offset-le-span i l, h.ordered), on_step))
    where
      on_step : (job.frame_start + i * chunk job - job.frame_start) % job.frame_step ≡ 0
      on_step =
          ap (λ (m : ℕ). m % job.frame_step) (add-sub_cancel_left job.frame_start (i * chunk job))
          ∙ ap (λ (m : ℕ). m % job.frame_step) (sym (mul_assoc i job.block_size job.frame_step))
          ∙ mul-mod_left (i * job.block_size) job.frame_step

  -- The index of a frame of the range lies within the table.
  pub number_to_index-lt-nframes :
      (n : ℕ)
      → job_frame_number_correct job n ≡ true
      → job_frame_number_to_index job n < job_nframes job
  number_to_index-lt-nframes n c =
      let (lo, hi, _) = (number_correct_iff n).0 c in
      let below : (n - job.frame_start) / chunk job ≤ span job / chunk job =
        (le-div_iff_mul-le chunk_pos).1
          (le_trans (div-mul-le_self (n - job.frame_start) (chunk job)) (omega arith)) in
      omega (arith, number_to_index-eq n lo hi, nframes-eq, below)

  -- A frame of the range belongs to the block that its index stands for.
  pub number_in_block :
      (n : ℕ)
      → job_frame_number_correct job n ≡ true
      → let first = job_frame_index_to_number job (job_frame_number_to_index job n) in
        (first ≤ n) × (n < first + chunk job)
  number_in_block n c =
      let (lo, hi, _) = (number_correct_iff n).0 c in
      let first = index_to_number-eq _ (number_to_index-lt-nframes n c) in
      let at_index = ap (λ (q : ℕ). q * chunk job) (number_to_index-eq n lo hi) in
      let under = div-mul-le_self (n - job.frame_start) (chunk job) in
      let over = lt-div-mul-add {a = n - job.frame_start} chunk_pos in
      (omega (arith, first, at_index, under, lo), omega (arith, first, at_index, over, lo))
