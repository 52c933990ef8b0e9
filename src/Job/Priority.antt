-- ===== src/Job/Priority.antt =====
-- `priority_job_compare` of libdrqueue/job.c, the order in which the master looks for work.
use drqueue.Prelude.{ℕ, ◌<◌, ◌≡◌, ◌⊎◌, ◌↔◌, arith, ltb, if◌then◌else◌}

-- `struct tpol`: an entry of the list of jobs ordered by priority.
pub record Tpol : Type 0 where
  pub index : ℕ  -- uint32_t
  pub pri : ℕ  -- uint32_t
  pub submit_time : ℕ  -- uint64_t

-- The results -1, 0 and 1.
pub data Sign : Type 0 where
  minus nought plus : Sign

unfoldable pub priority_job_compare : Tpol → Tpol → Sign
priority_job_compare a b =
    if ltb b.pri a.pri
    then minus
    else if ltb a.pri b.pri
    then plus
    else if ltb a.submit_time b.submit_time
    then minus
    else if ltb b.submit_time a.submit_time
    then plus
    else if ltb b.index a.index
    then plus
    else if ltb a.index b.index
    then minus
    else nought

abbrev pub flip : Sign → Sign
flip minus = plus
flip nought = nought
flip plus = minus

-- What the order means: higher priority first, then the older job, then the lower index.
abbrev pub Before : Tpol → Tpol → Type 0
Before a b =
    (b.pri < a.pri)
    ⊎ ((a.pri ≡ b.pri) × (a.submit_time < b.submit_time))
    ⊎ ((a.pri ≡ b.pri) × (a.submit_time ≡ b.submit_time) × (a.index < b.index))

-- The comparison says "before" exactly for the lexicographic order of falling priority, rising
-- submission time and rising index, "equal" exactly for equal entries, and its sign flips with its
-- arguments.
pub compare_iff :
    (a b : Tpol)
    → ((priority_job_compare a b ≡ minus) ↔ Before a b)
      × ((priority_job_compare a b ≡ nought) ↔ (a ≡ b))
      × (priority_job_compare b a ≡ flip (priority_job_compare a b))
unfolding priority_job_compare
compare_iff a b = (ground arith, ground arith, ground arith)

-- The order is transitive, so with `compare_iff` it is a strict total order: sorting by it has one
-- result only.
pub compare_trans :
    (a b c : Tpol)
    → priority_job_compare a b ≡ minus
    → priority_job_compare b c ≡ minus
    → priority_job_compare a c ≡ minus
compare_trans a b c p q =
    (compare_iff a c).0.1 (ground (arith, (compare_iff a b).0.0 p, (compare_iff b c).0.0 q))
