-- ===== src/Database/Lookup.antt =====
-- Finding records in the two arrays (libdrqueue/job.c, libdrqueue/computer.c). An index -1 is `none`.
use drqueue.Prelude.{
  ℕ, ◌<◌, ◌≡◌, refl, Bool, true, false, ◌&&◌, Option, none, some, CString, ◌==◌, ◌↔◌, find_first,
  find_first-some, find_first_least, find_first-none, count_below, str_eq, str_eq_iff, arith,
}
use drqueue.Job.{is_set, maxjobs}
use drqueue.Computer.{maxcomputers}
use drqueue.Database.{Database, semaphore_lock, semaphore_release}

unfoldable pub job_index_free : Database → Option ℕ
job_index_free wdb = find_first maxjobs (λ i. (wdb.job i).used == 0)

unfoldable pub job_njobs_masterdb : Database → ℕ
job_njobs_masterdb wdb = count_below maxjobs (λ i. is_set (wdb.job i).used)

unfoldable pub computer_index_free : Database → Option ℕ
computer_index_free wdb = find_first maxcomputers (λ i. (wdb.computer i).used == 0)

unfoldable pub computer_ncomputers_masterdb : Database → ℕ
computer_ncomputers_masterdb wdb = count_below maxcomputers (λ i. is_set (wdb.computer i).used)

-- `addr` is the text of the address, as `inet_ntoa` gives it.
unfoldable pub computer_index_addr : Database → CString → Database × Option ℕ
computer_index_addr wdb addr =
    let locked = semaphore_lock wdb in
    let index =
      find_first maxcomputers
        (λ i. str_eq addr (locked.computer i).hwinfo.address && (locked.computer i).used == 1) in
    (semaphore_release locked, index)

unfoldable pub computer_index_name : Database → CString → Database × Option ℕ
computer_index_name wdb name =
    let locked = semaphore_lock wdb in
    let index =
      find_first maxcomputers
        (λ i. str_eq name (locked.computer i).hwinfo.name && is_set (locked.computer i).used) in
    (semaphore_release locked, index)

-- What a search over the array of computers must find: the first one that matches, if any does.
abbrev pub FirstMatch : (ℕ → Type 0) → ℕ → Option ℕ → Type 0
FirstMatch P n none = (i : ℕ) → i < n → ¬ P i
FirstMatch P n (some r) = (r < n) × P r × ((i : ℕ) → i < r → ¬ P i)

-- A search by a test finds the first index that passes it.
find_first-FirstMatch :
    (P : ℕ → Type 0) (n : ℕ) (p : ℕ → Bool)
    → ((i : ℕ) → (p i ≡ true) ↔ P i)
    → (o : Option ℕ) → find_first n p ≡ o
    → FirstMatch P n o
find_first-FirstMatch P n p reads none e =
    λ i l holds. ground (arith, find_first-none n p i e l, (reads i).1 holds)
find_first-FirstMatch P n p reads (some r) e =
    let (below, hit) = find_first-some n p r e in
    (
      below,
      (reads r).0 hit,
      λ i l holds. ground (arith, find_first_least n p r i e l, (reads i).1 holds),
    )

abbrev pub IsFree : Database → ℕ → Type 0
IsFree wdb i = (wdb.job i).used ≡ 0

-- A free job record is found if there is one among the MAXJOBS, and it is the first.
pub job_index_free-FirstMatch :
    (wdb : Database) → FirstMatch (IsFree wdb) maxjobs (job_index_free wdb)
unfolding job_index_free
job_index_free-FirstMatch wdb =
    find_first-FirstMatch (IsFree wdb) maxjobs (λ i. (wdb.job i).used == 0) (λ i. ground arith) _
      refl

abbrev pub HasName : Database → CString → ℕ → Type 0
HasName wdb name i = ((wdb.computer i).hwinfo.name ≡ name) × (0 < (wdb.computer i).used)

-- A computer is found by its name if a registered one has it, the first is taken, and only the lock
-- is touched, which is free afterwards.
pub computer_index_name-FirstMatch :
    (wdb : Database) (name : CString)
    → FirstMatch (HasName wdb name) maxcomputers (computer_index_name wdb name).1
      × ((computer_index_name wdb name).0 ≡ record wdb { locked = false })
unfolding computer_index_name
computer_index_name-FirstMatch wdb name = (
  find_first-FirstMatch (HasName wdb name) maxcomputers
      (λ i. str_eq name (wdb.computer i).hwinfo.name && is_set (wdb.computer i).used)
      (λ i. ground (arith, str_eq_iff name (wdb.computer i).hwinfo.name)) _ refl,
  refl,
)
