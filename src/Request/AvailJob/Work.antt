-- ===== src/Request/AvailJob/Work.antt =====
-- What the master's search for work promises: it reserves a frame that may be handed out, and finds
-- one if any job has one.
use drqueue.Prelude.{
  ℕ, ◌+◌, ◌<◌, ◌≡◌, refl, sym, ap, subst, ◌∙◌, ◌⊎◌, inl, inr, false, none, some, List, [], ◌∷◌,
  CString, leb, arith, Bool-cases,
}
use drqueue.Job.{maxjobs}
use drqueue.Job.Priority.{Tpol}
use drqueue.Shm.{FrameTable}
use drqueue.Computer.Pools.Laws.{Holds}
use drqueue.Database.{Database, LoadBalancing, job_index_correct_master}
use drqueue.Database.Limits.{BlockedHosts}
use drqueue.Database.Assign.Reserve.{Assignable, handed_out, job_available_outcome}
use drqueue.Request.AvailJob.Order.{AllOf, qsort_all, entries_all}
use drqueue.Request.AvailJob.{
  entries, qsort, Found, Search, tried, try, search_all, drop, search_changed, search_same,
  search_on, save_pols, settle, searched_then, find_work, same_pols,
}

none_is_some : {A : Type 0} {a : A} → ¬ (none ≡ some a)
none_is_some e = ground (arith, e)

module _ (wdb : Database) (icomp : ℕ) (blocked : ℕ → List CString) (pools : List CString)
    (hosts : (j : ℕ) → BlockedHosts wdb.shm (wdb.job j) (blocked j))
    (members : Holds wdb.shm (wdb.computer icomp).limits pools) where
  -- The database with the lock free and other notes on the balance of the load.
  abbrev noted : LoadBalancing → Database
  noted lb = record wdb { lb = lb; locked = false }

  abbrev pub Possible : ℕ → FrameTable → ℕ → Type 0
  Possible ijob fi i = Assignable wdb ijob icomp (blocked ijob) pools fi i

  abbrev NoFrame : Tpol → Type 0
  NoFrame e = (fi : FrameTable) (i : ℕ) → ¬ Possible e.index fi i

  -- Nothing was found, and nothing has changed but the notes.
  abbrev pub Idle : Search → Type 0
  Idle s = (lb : LoadBalancing) × (s ≡ (record wdb { lb = lb; locked = false }, none))

  -- A frame that may be handed out was found and reserved, and nothing else has changed but the notes.
  abbrev pub Hit : Search → Type 0
  Hit s =
      (lb : LoadBalancing) × (f : Found) × (fi : FrameTable) × Possible f.entry.index fi f.iframe
      × (s ≡ (
        record (handed_out wdb f.entry.index fi f.iframe icomp) { lb = lb; locked = false },
        some f,
      ))

  noted-Possible :
      (lb : LoadBalancing) (ijob : ℕ) (fi : FrameTable) (i : ℕ)
      → Assignable (noted lb) ijob icomp (blocked ijob) pools fi i
      → Possible ijob fi i
  unfolding job_index_correct_master
  noted-Possible lb ijob fi i a = record {
    correct = a.correct;
    ready = a.ready;
    passes = a.passes;
    attached = a.attached;
    in_range = a.in_range;
    waiting = a.waiting;
    first = a.first;
  }

  Possible-noted :
      (lb : LoadBalancing) (ijob : ℕ) (fi : FrameTable) (i : ℕ)
      → Possible ijob fi i
      → Assignable (noted lb) ijob icomp (blocked ijob) pools fi i
  unfolding job_index_correct_master
  Possible-noted lb ijob fi i a = record {
    correct = a.correct;
    ready = a.ready;
    passes = a.passes;
    attached = a.attached;
    in_range = a.in_range;
    waiting = a.waiting;
    first = a.first;
  }

  -- One try: a hit, or the search goes on with the database as it was.
  try_outcome :
      (e : Tpol) (i : ℕ) (lb : LoadBalancing) (next : Database → Search)
      → Hit (try e i (noted lb) icomp next)
        ⊎ ((try e i (noted lb) icomp next ≡ next (noted lb)) × NoFrame e)
  try_outcome e i lb next =
      elim (job_available_outcome (noted lb) e.index icomp (blocked e.index) pools (hosts e.index)
        members) [
          | inl (fi, iframe, a, found) ↦ inl (
            record lb { next_i = i + 1 },
            record { entry = e; iframe = iframe },
            fi,
            noted-Possible lb e.index fi iframe a,
            ap (tried e i next) found,
          )
          | inr (same, refused) ↦ inr (
            ap (tried e i next) same,
            λ fi iframe a. refused fi iframe (Possible-noted lb e.index fi iframe a),
          )
        ]

  -- Trying every entry of a list.
  search_all_outcome :
      (es : List Tpol) (i : ℕ) (lb : LoadBalancing)
      → Hit (search_all es i (noted lb) icomp)
        ⊎ ((search_all es i (noted lb) icomp ≡ (noted lb, none)) × AllOf NoFrame es)
  unfolding search_all
  search_all_outcome [] i lb = inr (refl, record {})
  search_all_outcome (e ∷ es) i lb =
      let next = λ (w : Database). search_all es (i + 1) w icomp in
      elim (try_outcome e i lb next) [
        | inl hit ↦ inl hit
        | inr (same, refused) ↦ elim (search_all_outcome es (i + 1) lb) [
          | inl hit ↦ inl (subst Hit (sym same) hit)
          | inr (rest, others) ↦ inr (same ∙ rest, (refused, others))
        ]
      ]

  all_searched :
      (es : List Tpol) (i : ℕ) (lb : LoadBalancing)
      → Hit (search_all es i (noted lb) icomp) ⊎ Idle (search_all es i (noted lb) icomp)
  all_searched es i lb = elim (search_all_outcome es i lb) [
    | inl hit ↦ inl hit
    | inr (same, others) ↦ inr (lb, same)
  ]

  tried_then :
      (e : Tpol) (i : ℕ) (lb : LoadBalancing) (next : Database → Search)
      → Hit (next (noted lb)) ⊎ Idle (next (noted lb))
      → Hit (try e i (noted lb) icomp next) ⊎ Idle (try e i (noted lb) icomp next)
  tried_then e i lb next after = elim (try_outcome e i lb next) [
    | inl hit ↦ inl hit
    | inr (same, refused) ↦ elim after [
      | inl hit ↦ inl (subst Hit (sym same) hit)
      | inr idle ↦ inr (subst Idle (sym same) idle)
    ]
  ]

  search_changed_outcome :
      (es : List Tpol) (i : ℕ) (pol : List Tpol) (lb : LoadBalancing)
      → Hit (search_changed es i pol (noted lb) icomp)
        ⊎ Idle (search_changed es i pol (noted lb) icomp)
  unfolding search_changed
  search_changed_outcome [] i pol lb = inr (lb, refl)
  search_changed_outcome (e ∷ es) i pol lb = elim (Bool-cases (leb lb.last_priority e.pri)) [
    | inl high ↦ rw (search_changed, high) (all_searched (drop lb.next_i pol) lb.next_i lb)
    | inr low ↦
        rw (search_changed, low)
          (tried_then e i lb (λ w. search_changed es (i + 1) pol w icomp)
            (search_changed_outcome es (i + 1) pol lb))
  ]

  search_same_outcome :
      (es : List Tpol) (i : ℕ) (pol : List Tpol) (lb : LoadBalancing)
      → Hit (search_same es i pol (noted lb) icomp) ⊎ Idle (search_same es i pol (noted lb) icomp)
  unfolding search_same
  search_same_outcome [] i pol lb = inr (lb, refl)
  search_same_outcome (e ∷ es) i pol lb = elim (Bool-cases (leb maxjobs (i + 1))) [
    | inl last ↦ rw (search_same, last) (all_searched pol 0 lb)
    | inr before ↦ elim (Bool-cases (leb lb.last_priority e.pri)) [
      | inl high ↦
          rw (search_same, before, high)
            (tried_then e i lb (λ w. search_same es (i + 1) pol w icomp)
              (search_same_outcome es (i + 1) pol lb))
      | inr low ↦ rw (search_same, before, low) (all_searched pol 0 lb)
    ]
  ]

  search_on_outcome :
      (pol : List Tpol) (lb : LoadBalancing)
      → Hit (search_on pol (noted lb) icomp) ⊎ Idle (search_on pol (noted lb) icomp)
  unfolding search_on
  search_on_outcome pol lb = elim (Bool-cases (same_pols pol 0 lb)) [
    | inl same ↦ rw (search_on, same) (search_same_outcome (drop lb.next_i pol) lb.next_i pol lb)
    | inr changed ↦
        rw (search_on, changed) (search_changed_outcome pol 0 pol (save_pols pol (noted lb)).lb)
  ]

  abbrev order : List Tpol
  order = qsort (entries maxjobs 0 wdb)

  AllRefused : Type 0
  AllRefused = (j : ℕ) → j < maxjobs → (fi : FrameTable) (i : ℕ) → ¬ Possible j fi i

  all_refused : AllOf NoFrame order → AllRefused
  unfolding AllRefused
  all_refused a j l fi i =
      entries_all (λ j. (fi : FrameTable) (i : ℕ) → ¬ Possible j fi i) maxjobs 0 wdb
        (qsort_all NoFrame (entries maxjobs 0 wdb) a) j (omega arith) (omega arith) fi i

  Settled : Search → Type 0
  Settled s = Hit s ⊎ (Idle s × AllRefused)

  Hit-kept : (s : Search) → Hit s → Settled (searched_then icomp order s)
  unfolding Settled searched_then
  Hit-kept s (lb, f, fi, a, e) =
      subst (λ s. Settled (searched_then icomp order s)) (sym e)
        (inl (record lb { last_priority = f.entry.pri }, f, fi, a, refl))

  Idle-again : (s : Search) → Idle s → Settled (searched_then icomp order s)
  unfolding Settled searched_then
  Idle-again s (lb, e) =
      subst (λ s. Settled (searched_then icomp order s)) (sym e)
        (elim (search_all_outcome order 0 lb) [
          | inl (lb', f, fi, a, found) ↦
              inl (record lb' { last_priority = f.entry.pri }, f, fi, a, ap settle found)
          | inr (same, refused) ↦
              inr ((record lb { next_i = 0 }, ap settle same), all_refused refused)
        ])

  found_or_refused : (lb : LoadBalancing) → Settled (find_work (noted lb) icomp)
  unfolding find_work
  found_or_refused lb = elim (search_on_outcome order lb) [
    | inl hit ↦ Hit-kept (search_on order (noted lb) icomp) hit
    | inr idle ↦ Idle-again (search_on order (noted lb) icomp) idle
  ]

  unlocked : wdb.locked ≡ false → noted wdb.lb ≡ wdb
  unlocked free = λ i. record wdb { locked = sym free i }

  -- Where every job's blocked hosts and the computer's pools are these lists, and can be attached, and the
  -- lock is free, a search for work by the computer ends in one of two ways, but for the notes on the balance of the load.
  -- It finds a frame that may be handed out to the computer: then that frame is assigned to the
  -- computer with no task, its job counts one process more and one frame less, and nothing else changes. Or it
  -- finds none, and nothing changes. The lock is free after it.
  pub find_work_outcome :
      wdb.locked ≡ false → Hit (find_work wdb icomp) ⊎ Idle (find_work wdb icomp)
  unfolding Settled
  find_work_outcome free =
      subst (λ w. Hit (find_work w icomp) ⊎ Idle (find_work w icomp)) (unlocked free)
        (elim (found_or_refused wdb.lb) [ inl hit ↦ inl hit | inr (idle, refused) ↦ inr idle ])

  -- Where every job's blocked hosts and the computer's pools are these lists, and can be attached, and the
  -- lock is free: no frame of any job may be handed out to a computer for which the search for work
  -- finds nothing.
  pub no_work_possible :
      wdb.locked ≡ false
      → (find_work wdb icomp).1 ≡ none
      → (ijob : ℕ) → ijob < maxjobs
      → (fi : FrameTable) (i : ℕ) → ¬ Assignable wdb ijob icomp (blocked ijob) pools fi i
  unfolding Settled AllRefused
  no_work_possible free nothing ijob l fi i = elim (found_or_refused wdb.lb) [
    | inl (lb, f, fi', a, e) ↦ absurd (
        none_is_some
          (sym nothing ∙ ap (λ w. (find_work w icomp).1) (sym (unlocked free)) ∙ ap (λ s. s.1) e))
    | inr (idle, refused) ↦ refused ijob l fi i
  ]
