-- ===== src/Request/AvailJob.antt =====
-- `handle_r_r_availjob` (libdrqueue/request.c): a slave asks for work. The jobs are tried in the order of
-- their priority, from the place where the last search ended, and a frame is reserved. It is put back
-- to waiting when the exchange with the slave fails.
pub mod Order
pub mod Work
pub mod Back
use drqueue.Prelude.{
  ℕ, zero, suc, ◌+◌, Bool, true, false, not, ◌&&◌, ◌||◌, Option, none, some, List, [], ◌∷◌, ltb,
  leb, ◌==◌, if◌then◌else◌, u16,
}
use drqueue.Job.{Job, maxjobs}
use drqueue.Job.Priority.{Tpol, Sign, minus, nought, plus, priority_job_compare}
use drqueue.Database.{Database, LoadBalancing, semaphore_lock, semaphore_release}
use drqueue.Database.Assign.{job_available, job_update_assigned, computer_update_assigned}
use drqueue.Database.Frames.{job_frame_waiting}
use drqueue.Request.{Request, r_r_availjob, rerr_noerror}

-- The entries of the jobs i, i + 1, ..., k of them.
unfoldable pub entries : ℕ → ℕ → Database → List Tpol
entries zero i wdb = []
entries (suc k) i wdb =
    record { index = i; pri = (wdb.job i).priority; submit_time = (wdb.job i).submit_time }
    ∷ entries k (i + 1) wdb

-- `qsort` with `priority_job_compare`, under which no two entries with different indices are equal.
unfoldable pub insert : Tpol → List Tpol → List Tpol
insert e [] = e ∷ []
insert e (p ∷ ps) =
    let rest = insert e ps in
    elim (priority_job_compare e p) [ minus ↦ e ∷ p ∷ ps | nought ↦ e ∷ p ∷ ps | plus ↦ p ∷ rest ]

unfoldable pub qsort : List Tpol → List Tpol
unfolding insert
qsort [] = []
qsort (e ∷ es) = insert e (qsort es)

-- The comparison with the order that was saved, from position `i` on.
unfoldable pub same_pols : List Tpol → ℕ → LoadBalancing → Bool
same_pols [] i lb = true
same_pols (p ∷ ps) i lb =
    let rest = same_pols ps (i + 1) lb in
    if not (p.index == (lb.pol i).index) || not (p.pri == (lb.pol i).pri) then false else rest

unfoldable pub nth_pol : List Tpol → (ℕ → Tpol) → ℕ → Tpol
nth_pol [] past i = past i
nth_pol (p ∷ ps) past i =
    let rest = nth_pol ps (λ k. past (k + 1)) in elim i [ zero ↦ p | suc k ↦ rest k ]

-- The job and the frame that a search ends with.
pub record Found : Type 0 where
  pub entry : Tpol
  pub iframe : ℕ

-- What a loop leaves: the value of `i` is below MAXJOBS exactly when a frame was found.
abbrev pub Search : Type 0
Search = Database × Option Found

-- What follows the call of `job_available` for the entry at position `i`: the loop ends, or goes on
-- with `next`.
abbrev pub tried : Tpol → ℕ → (Database → Search) → Database × Option ℕ → Search
tried e i next (wdb, none) = next wdb
tried e i next (wdb, some iframe) = (
  record wdb { lb = record wdb.lb { next_i = i + 1 } },
  some (record { entry = e; iframe = iframe }),
)

abbrev pub try : Tpol → ℕ → Database → ℕ → (Database → Search) → Search
try e i wdb icomp next = tried e i next (job_available wdb e.index icomp)

-- The loop that tries every entry; the list is `pol` from position `i` on.
unfoldable pub search_all : List Tpol → ℕ → Database → ℕ → Search
search_all [] i wdb icomp = (wdb, none)
search_all (p ∷ ps) i wdb icomp = try p i wdb icomp (λ w. search_all ps (i + 1) w icomp)

unfoldable pub drop : ℕ → List Tpol → List Tpol
drop zero ps = ps
drop (suc n) [] = []
drop (suc n) (p ∷ ps) = drop n ps

-- The order of the jobs has changed: the loop over the entries from position `i` on.
unfoldable pub search_changed : List Tpol → ℕ → List Tpol → Database → ℕ → Search
unfolding search_all drop
search_changed [] i pol wdb icomp = (wdb, none)
search_changed (p ∷ ps) i pol wdb icomp = elim (leb wdb.lb.last_priority p.pri) [
  | true ↦ search_all (drop wdb.lb.next_i pol) wdb.lb.next_i wdb icomp
  | false ↦ try p i wdb icomp (λ w. search_changed ps (i + 1) pol w icomp)
]

-- The order of the jobs is the one of the last search: the loop from position `i` on.
unfoldable pub search_same : List Tpol → ℕ → List Tpol → Database → ℕ → Search
unfolding search_all
search_same [] i pol wdb icomp = (wdb, none)
search_same (p ∷ ps) i pol wdb icomp = elim (leb maxjobs (i + 1)) [
  | true ↦ search_all pol 0 wdb icomp
  | false ↦ elim (leb wdb.lb.last_priority p.pri) [
    | true ↦ try p i wdb icomp (λ w. search_same ps (i + 1) pol w icomp)
    | false ↦ search_all pol 0 wdb icomp
  ]
]

-- A new order is saved.
abbrev pub save_pols : List Tpol → Database → Database
save_pols pol wdb = record wdb { lb = record wdb.lb { pol = nth_pol pol wdb.lb.pol } }

-- The first of the two searches.
unfoldable pub search_on : List Tpol → Database → ℕ → Search
unfolding same_pols search_same search_changed drop nth_pol
search_on pol wdb icomp = elim (same_pols pol 0 wdb.lb) [
  | true ↦ search_same (drop wdb.lb.next_i pol) wdb.lb.next_i pol wdb icomp
  | false ↦ search_changed pol 0 pol (save_pols pol wdb) icomp
]

-- What follows a search that found a frame.
abbrev pub keep_priority : Found → Database → Database
keep_priority f wdb = record wdb { lb = record wdb.lb { last_priority = f.entry.pri } }

-- What follows a search over all the entries.
abbrev pub settle : Search → Search
settle (wdb, none) = (record wdb { lb = record wdb.lb { next_i = 0 } }, none)
settle (wdb, some f) = (keep_priority f wdb, some f)

-- What follows the first search: where it finds nothing, all are tried, from the first on.
unfoldable pub searched_then : ℕ → List Tpol → Search → Search
unfolding search_all
searched_then icomp pol (wdb, none) = settle (search_all pol 0 wdb icomp)
searched_then icomp pol (wdb, some f) = (keep_priority f wdb, some f)

unfoldable pub find_work : Database → ℕ → Search
unfolding entries qsort search_on searched_then
find_work wdb icomp =
    let pol = qsort (entries maxjobs 0 wdb) in searched_then icomp pol (search_on pol wdb icomp)

-- The exchange with the slave: was the answer sent, does the slave have a free task structure, which
-- one, and was the task sent?
pub record Exchange : Type 0 where
  pub sent : Bool
  pub space : Option Request
  pub index : Option Request
  pub task_sent : Bool

-- The index of the task structure, where every part of the exchange before has gone well.
unfoldable pub agreed : Exchange → Option ℕ
agreed x =
    if x.sent
    then elim x.space [
      | none ↦ none
      | some answer ↦
          if answer.type == r_r_availjob && answer.«data» == rerr_noerror
          then elim x.index [
            | none ↦ none
            | some answer' ↦
                if answer'.type == r_r_availjob then some (u16 answer'.«data») else none
          ]
          else none
    ]
    else none

-- A frame was found.
unfoldable pub hand_over : Database → ℕ → Found → Exchange → Database
unfolding agreed
hand_over wdb icomp f x = elim (agreed x) [
  | none ↦ job_frame_waiting wdb f.entry.index f.iframe
  | some itask ↦
      let job_done = job_update_assigned (semaphore_lock wdb) f.entry.index f.iframe icomp itask in
      let both_done =
        semaphore_release (computer_update_assigned job_done f.entry.index f.iframe icomp itask) in
      if x.task_sent then both_done else job_frame_waiting both_done f.entry.index f.iframe
]

-- `registered` is the index of the computer, if the sender is a registered one.
unfoldable pub handle_r_r_availjob : Database → Option ℕ → Exchange → Database
unfolding find_work hand_over
handle_r_r_availjob wdb registered x = elim registered [
  | none ↦ wdb
  | some icomp ↦
      let (wdb', o) = find_work wdb icomp in
      elim o [ none ↦ wdb' | some f ↦ hand_over wdb' icomp f x ]
]
