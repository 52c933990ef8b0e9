-- ===== src/Communications/StatusTrip.antt =====
-- What one end sends of the status of a computer, the other receives: the tasks in use, each in the slot that
-- it names.
use drqueue.Prelude.{
  ℕ, zero, suc, ◌+◌, ◌≤◌, ◌<◌, ◌≡◌, ◌≢◌, refl, sym, ap, subst, ◌∙◌, inl, inr, Bool, true, false,
  ◌==◌, arith, update, count_below, count_below-le, Bool-cases, ltb, not, ◌&&◌, if◌then◌else◌,
}
use drqueue.Prelude.Bytes.{Host}
use drqueue.Task.{Task, task_init, maxtasks, task_init_all, taskstatus_finished}
use drqueue.Computer.{ComputerStatus, computer_status_init}
use drqueue.Communications.Wire.{ok, ◌>>=◌, ◌>>◌}
use drqueue.Communications.Delivery.{Delivers, Delivers-bind, then_ok}
use drqueue.Communications.Records.{Layout}
use drqueue.Communications.RoundTrips.{FitsTask, task_delivered}
use drqueue.Communications.Lists.{
  recv_computer_ntasks, is_used, status_counted, send_used_tasks, send_computer_status, recv_tasks,
  or_else, loads, recv_computer_status,
}
use drqueue.Communications.ListTrips.{
  silent, loadavg_delivered, ntasks_delivered, or_else_delivered,
}

-- What a count of `k` slots from `i` on gives, and what is left in the slots.
abbrev used_from : ℕ → ℕ → (ℕ → Task) → ℕ
used_from zero i task = 0
used_from (suc k) i task =
    if is_used task i then suc (used_from k (i + 1) task) else used_from k (i + 1) task

abbrev placed : ℕ → ℕ → (ℕ → Task) → (ℕ → Task) → ℕ → Task
placed zero i task slots = slots
placed (suc k) i task slots =
    placed k (i + 1) task (if is_used task i then update slots (task i).itask (task i) else slots)

count_below_next :
    (i : ℕ) (p : ℕ → Bool) → count_below (i + 1) p ≡ count_below i p + (if p i then 1 else 0)
unfolding count_below
count_below_next i p = let e : i + 1 ≡ suc i = omega arith in ap (λ n. count_below n p) e

used_from_lem :
    (k i : ℕ) (task : ℕ → Task)
    → used_from k i task + count_below i (is_used task) ≡ count_below (k + i) (is_used task)
unfolding count_below
used_from_lem zero i task = ground arith
used_from_lem (suc k) i task =
    let e : k + (i + 1) ≡ suc k + i = omega arith in
    let there = ap (λ n. count_below n (is_used task)) e in
    ground (arith, count_below_next i (is_used task), there, used_from_lem k (i + 1) task)

used_from_all : (k : ℕ) (task : ℕ → Task) → used_from k 0 task ≡ count_below k (is_used task)
unfolding count_below
used_from_all k task =
    let e : k + 0 ≡ k = omega arith in
    let there = ap (λ n. count_below n (is_used task)) e in
    omega (arith, used_from_lem k 0 task, there)

load_lem : (a : ℕ → ℕ) (i : ℕ) → i < 3 → loads (a 0, a 1, a 2) i ≡ a i
load_lem a i l = ground (arith, l)

slot_init : (task : ℕ → Task) (j : ℕ) → j < maxtasks → task_init_all task j ≡ task_init
unfolding task_init_all
slot_init task j l = ground (arith, l)

pub tasks_delivered :
    (k i : ℕ) (s r : Host) (sizeof : Layout) (task slots : ℕ → Task)
    → sizeof.task < 4_294_967_296
    → ((j : ℕ) → is_used task j ≡ true → FitsTask (task j))
    → Delivers
        (send_used_tasks k i s sizeof task)
        (recv_tasks (used_from k i task) r sizeof slots)
        (placed k i task slots)
unfolding send_used_tasks recv_tasks
tasks_delivered zero i s r sizeof task slots small fits = silent slots
tasks_delivered (suc k) i s r sizeof task slots small fits = elim (Bool-cases (is_used task i)) [
  | inl u ↦
      rw (send_used_tasks, u)
        (Delivers-bind
          (λ t. recv_tasks (used_from k (i + 1) task) r sizeof (update slots t.itask t))
          (task_delivered s r sizeof (task i) small (fits i u))
          (tasks_delivered k (i + 1) s r sizeof task (update slots (task i).itask (task i)) small
            fits))
  | inr u ↦ rw (send_used_tasks, u) (tasks_delivered k (i + 1) s r sizeof task slots small fits)
]

-- The task in slot `j` afterwards.
placed_before :
    (k i j : ℕ) (task slots : ℕ → Task)
    → ((l : ℕ) → is_used task l ≡ true → (task l).itask ≡ l)
    → j < i
    → placed k i task slots j ≡ slots j
placed_before zero i j task slots own l = refl
placed_before (suc k) i j task slots own l = elim (Bool-cases (is_used task i)) [
  | inl u ↦ rw u (
      placed_before k (i + 1) j task (update slots (task i).itask (task i)) own (omega (arith, l))
      ∙ ground (arith, own i u, l))
  | inr u ↦ rw u (placed_before k (i + 1) j task slots own (omega (arith, l)))
]

placed_used :
    (k i j : ℕ) (task slots : ℕ → Task)
    → ((l : ℕ) → is_used task l ≡ true → (task l).itask ≡ l)
    → i ≤ j
    → j < k + i
    → is_used task j ≡ true
    → placed k i task slots j ≡ task j
placed_used zero i j task slots own l h u = absurd (omega (arith, l, h))
placed_used (suc k) i j task slots own l h u = elim (Bool-cases (is_used task i)) [
  | inl v ↦ rw v (elim (Bool-cases (ltb i j)) [
    | inl later ↦
        placed_used k (i + 1) j task (update slots (task i).itask (task i)) own (ground arith)
          (omega (arith, h)) u
    | inr here ↦
        let e : i ≡ j = ground arith in
        placed_before k (i + 1) j task (update slots (task i).itask (task i)) own (omega (arith, e))
        ∙ ground (arith, own i v, e)
  ])
  | inr v ↦
      let later : i ≢ j = λ e. absurd (ground (arith, v, u, e)) in
      rw v (placed_used k (i + 1) j task slots own (omega (arith, l, later)) (omega (arith, h)) u)
]

placed_free :
    (k i j : ℕ) (task slots : ℕ → Task)
    → ((l : ℕ) → is_used task l ≡ true → (task l).itask ≡ l)
    → is_used task j ≡ false
    → placed k i task slots j ≡ slots j
placed_free zero i j task slots own f = refl
placed_free (suc k) i j task slots own f = elim (Bool-cases (is_used task i)) [
  | inl u ↦ rw u (
      placed_free k (i + 1) j task (update slots (task i).itask (task i)) own f
      ∙ let other : j ≢ i = λ e. absurd (ground (arith, u, f, e)) in ground (arith, own i u, other))
  | inr u ↦ rw u (placed_free k (i + 1) j task slots own f)
]

abbrev pub running : ComputerStatus → ℕ
running status =
    count_below maxtasks
      (λ i. is_used status.task i && not ((status.task i).status == taskstatus_finished))

abbrev accepted : ℕ → ℕ
accepted n = if ltb maxtasks n then 0 else n

abbrev received : ComputerStatus → ℕ → (ℕ → Task) → ComputerStatus
received status n task = record {
  loadavg = loads (status.loadavg 0, status.loadavg 1, status.loadavg 2);
  ntasks = n;
  nrunning = running status;
  task = task;
}

-- The status at the other end: the load averages, the two counts, every task in use in its slot, and every
-- other slot as new.
pub record Arrived (status after : ComputerStatus) : Type 0 where
  pub loads_same : (i : ℕ) → i < 3 → after.loadavg i ≡ status.loadavg i
  pub counted : after.ntasks ≡ count_below maxtasks (is_used status.task)
  pub counted_running : after.nrunning ≡ running status
  pub tasks_same :
      (j : ℕ) → j < maxtasks → is_used status.task j ≡ true → after.task j ≡ status.task j
  pub others_new : (j : ℕ) → j < maxtasks → is_used status.task j ≡ false → after.task j ≡ task_init

-- The words of a status fit their fields, and every task in use names the slot that it stands in.
pub record FitsStatus (status : ComputerStatus) : Type 0 where
  pub loads_fit : (i : ℕ) → status.loadavg i < 65_536
  pub tasks_fit : (j : ℕ) → is_used status.task j ≡ true → FitsTask (status.task j)
  pub in_slot : (j : ℕ) → is_used status.task j ≡ true → (status.task j).itask ≡ j

-- Whatever the byte orders of the two hosts, the status that a computer sends is the one that the
-- other end has at the end: the load averages, the two counts, every task in use in its slot, and every other
-- slot as new. Its words fit, and every task in use names the slot that it stands in.
pub status_delivered :
    (s r : Host) (sizeof : Layout) (status before : ComputerStatus)
    → sizeof.task < 4_294_967_296
    → FitsStatus status
    → (after : ComputerStatus) × Delivers
        (send_computer_status s sizeof status)
        (recv_computer_status r sizeof before)
        after
      × Arrived status after
unfolding send_computer_status recv_computer_status status_counted ◌>>◌ ◌>>=◌
status_delivered s r sizeof status before small f =
    let own = f.in_slot in
    let slots = (computer_status_init before).task in
    let n = count_below maxtasks (is_used status.task) in
    let n_small = count_below-le maxtasks (is_used status.task) in
    let m_small =
      count_below-le maxtasks
        (λ i. is_used status.task i && not ((status.task i).status == taskstatus_finished)) in
    let bounded : accepted n ≡ n = ground (arith, n_small) in
    let e : used_from maxtasks 0 status.task ≡ accepted n =
      used_from_all maxtasks status.task ∙ sym bounded in
    let last =
      subst
        (λ k.
          Delivers (send_used_tasks maxtasks 0 s sizeof status.task)
            (recv_tasks k r sizeof slots >>= λ task. ok (received status k task))
            (received status k (placed maxtasks 0 status.task slots)))
        e
        (then_ok (received status (used_from maxtasks 0 status.task))
          (tasks_delivered maxtasks 0 s r sizeof status.task slots small f.tasks_fit)) in
    (
      received status (accepted n) (placed maxtasks 0 status.task slots),
      Delivers-bind
          (λ l. or_else (recv_computer_ntasks r) (0, 0) >>= λ n.
            recv_tasks (accepted n.0) r sizeof slots >>= λ task.
            ok (record { loadavg = loads l; ntasks = accepted n.0; nrunning = n.1; task = task }))
          (or_else_delivered (0, 0, 0) (loadavg_delivered s r (status_counted status) f.loads_fit))
          (Delivers-bind
            (λ n. recv_tasks (accepted n.0) r sizeof slots >>= λ task. ok (record {
              loadavg = loads (status.loadavg 0, status.loadavg 1, status.loadavg 2);
              ntasks = accepted n.0;
              nrunning = n.1;
              task = task;
            }))
            (or_else_delivered (0, 0)
              (ntasks_delivered s r (status_counted status) (omega (arith, n_small))
                (omega (arith, m_small))))
            last),
      record {
        loads_same = load_lem status.loadavg;
        counted = bounded;
        counted_running = refl;
        tasks_same = λ j l u.
            placed_used maxtasks 0 j status.task slots own (omega arith) (omega (arith, l)) u;
        others_new =
            λ j l f. placed_free maxtasks 0 j status.task slots own f ∙ slot_init before.task j l;
      },
    )
