-- ===== src/Tests/Wire.antt =====
-- The theorems on the messages between hosts of different byte order, and on their bytes.
use drqueue.Prelude.{
  ℕ, zero, suc, ◌<◌, ◌≤◌, ◌≡◌, ◌≢◌, refl, sym, ap, subst, true, false, Option, none, some, List, [],
  ◌∷◌, ◌++◌, arith, length, take, contains, str_eq,
}
use drqueue.Prelude.Bytes.{little_endian, big_endian}
use drqueue.Computer.{Computer}
use drqueue.Computer.Setup.{Env}
use drqueue.Database.{Database}
use drqueue.Communications.Wire.{word32, ◌>>=◌}
use drqueue.Communications.Delivery.{Delivers}
use drqueue.Communications.Records.{Layout, recv_request, check_send_datasize, check_recv_datasize}
use drqueue.Communications.RoundTrips.{sizes_refused}
use drqueue.Communications.StatusTrip.{Arrived, FitsStatus}
use drqueue.Communications.Stream.{Readable, Writable, dr_read}
use drqueue.Communications.Whole.{dr_read-short}
use drqueue.Conversation.Turns.{Agree}
use drqueue.Conversation.Status.{update_computer_status, handle_r_r_ucstatus, status_told}
use drqueue.Conversation.LimitsSent.{SameLimits}
use drqueue.Conversation.Limits.{update_computer_limits, handle_r_r_uclimits, limits_told}
use drqueue.Computer.Pools.Laws.{Holds}
use drqueue.Shm.{Shm}
use drqueue.Conversation.Computers.{send_computer, recv_computer, computer_sent}
use drqueue.Tests.{render_box, limits_of, pool_names, memory, farm}

abbrev pub layout : Layout
layout = record {
  hwinfo = 279;
  task = 700;
  job = 1600;
  envvar = 256;
  pool = 128;
  limits = 60;
  host = 128;
}

other_sizes : ◌≢◌ {A = ℕ} 700 696
other_sizes e = absurd (omega (arith, e))

sizes_refused_example :
    let sender =
      check_send_datasize little_endian 700
        (record { inbox = word32 696 ∷ []; outbox = []; room = 1 }) in
    let receiver =
      check_recv_datasize big_endian 696
        (record { inbox = word32 700 ∷ []; outbox = []; room = 1 }) in
    (sender.0.outbox ≡ word32 700 ∷ [])
    × (receiver.0.outbox ≡ word32 696 ∷ [])
    × (sender.1 ≡ none)
    × (receiver.1 ≡ none)
sizes_refused_example =
    sizes_refused little_endian big_endian 700 696 0 (omega arith) (omega arith) other_sizes

box_fits : FitsStatus render_box.status
box_fits = record {
  loads_fit = λ i. omega arith;
  tasks_fit = λ j u. record {
    ijob = ground arith;
    icomp = ground arith;
    itask = ground arith;
    frame = ground arith;
    frame_start = ground arith;
    frame_end = ground arith;
    frame_step = ground arith;
    block_size = ground arith;
    pid = ground arith;
    exitstatus = ground arith;
    start_loading_time = ground arith;
  };
  in_slot = λ j u. ground (arith, u);
}

status_told_example :
    (after : Database) × Delivers
      (update_computer_status little_endian layout render_box.status 0)
      (recv_request big_endian >>= λ q.
        handle_r_r_ucstatus big_endian layout render_box.status farm (some 0))
      after
    × Arrived render_box.status (after.computer 0).status
    × (after.computer 0 ≡ record (farm.computer 0) { status = (after.computer 0).status })
    × ((i : ℕ) → i ≢ 0 → after.computer i ≡ farm.computer i)
    × (after.job ≡ farm.job)
    × (after.locked ≡ false)
status_told_example =
    status_told little_endian big_endian layout render_box.status render_box.status farm 0 0
      (omega arith) (omega arith) box_fits

abbrev env : Env
env = record { enabled = none; max_cpus = some 4 }

-- A system that moves one byte at a time.
abbrev read_one : List ℕ → ℕ → List ℕ × Option (List ℕ)
read_one [] n = ([], some [])
read_one (b ∷ bs) zero = (b ∷ bs, some [])
read_one (b ∷ bs) (suc n) = (bs, some (b ∷ []))

bytes_got : Option (List ℕ) → List ℕ
bytes_got none = []
bytes_got (some bs) = bs

one_next :
    (s : List ℕ) (n : ℕ) (bs : List ℕ)
    → (read_one s n).1 ≡ some bs
    → (length bs ≤ n) × (s ≡ bs ++ (read_one s n).0)
unfolding bytes_got
one_next [] n bs e =
    subst (λ l. (length l ≤ n) × ([] ≡ l ++ [])) (ap bytes_got e) (omega arith, refl)
one_next (b ∷ s) zero bs e =
    subst (λ l. (length l ≤ 0) × (b ∷ s ≡ l ++ b ∷ s)) (ap bytes_got e) (omega arith, refl)
one_next (b ∷ s) (suc n) bs e =
    subst (λ l. (length l ≤ suc n) × (b ∷ s ≡ l ++ s)) (ap bytes_got e) (omega arith, refl)

one_some : (s : List ℕ) (n : ℕ) → 0 < n → s ≢ [] → (read_one s n).1 ≢ some []
unfolding bytes_got
one_some [] n l some_come e = absurd (some_come refl)
one_some (b ∷ s) zero l some_come e = absurd (omega (arith, l))
one_some (b ∷ s) (suc n) l some_come e =
    let z : ◌≡◌ {A = ℕ} 1 0 = ap (λ o. length (bytes_got o)) e in absurd (omega (arith, z))

abbrev one_byte : Readable (List ℕ)
one_byte = record { to_come = λ s. s; read = read_one; read_next = one_next; read_some = one_some }

dr_read-short_example : (dr_read one_byte 3 (7 ∷ 8 ∷ [])).2 ≡ 0
dr_read-short_example = dr_read-short one_byte 3 (7 ∷ 8 ∷ []) (omega arith) (omega arith)

abbrev write_one : List ℕ → List ℕ → List ℕ × Option ℕ
write_one s [] = (s, some 0)
write_one s (b ∷ bs) = (s ++ b ∷ [], some 1)

count_got : Option ℕ → ℕ
count_got none = 0
count_got (some n) = n

append_nil : (xs : List ℕ) → xs ++ [] ≡ xs
append_nil [] = refl
append_nil (x ∷ xs) = ap (λ l. x ∷ l) (append_nil xs)

write_next_one :
    (s bs : List ℕ) (w : ℕ)
    → (write_one s bs).1 ≡ some w
    → (w ≤ length bs) × ((write_one s bs).0 ≡ s ++ take w bs)
unfolding count_got
write_next_one s [] w e =
    subst (λ n. (n ≤ 0) × (s ≡ s ++ take n [])) (ap count_got e) (omega arith, sym (append_nil s))
write_next_one s (b ∷ bs) w e =
    subst (λ n. (n ≤ length (b ∷ bs)) × (s ++ b ∷ [] ≡ s ++ take n (b ∷ bs))) (ap count_got e)
      (ground arith, refl)

write_some_one : (s bs : List ℕ) → 0 < length bs → (write_one s bs).1 ≢ some 0
unfolding count_got
write_some_one s [] l e = absurd (omega (arith, l))
write_some_one s (b ∷ bs) l e =
    let z : ◌≡◌ {A = ℕ} 1 0 = ap count_got e in absurd (omega (arith, z))

abbrev one_byte_out : Writable (List ℕ)
one_byte_out = record {
  taken = λ s. s;
  write = write_one;
  write_next = write_next_one;
  write_some = write_some_one;
}

box_pools : Holds memory render_box.limits pool_names
box_pools = (
  2,
  record {
    shmid = refl;
    contents = refl;
    attachable = refl;
    given = omega arith;
    counted = refl;
    detached = refl;
  },
)

limits_told_example :
    (after : Database) × Agree
      (update_computer_limits little_endian layout memory render_box.limits 0)
      (recv_request big_endian >>= λ q. handle_r_r_uclimits big_endian layout env farm (some 0))
      render_box.limits
      after
    × SameLimits render_box.limits (after.computer 0).limits
    × Holds after.shm (after.computer 0).limits pool_names
    × (after.locked ≡ false)
unfolding contains str_eq
limits_told_example =
    limits_told little_endian big_endian layout memory render_box.limits pool_names env farm 0
      pool_names 0 (omega arith) (omega arith) (omega arith) box_pools
      (record { nmaxcpus = omega arith; maxfreeloadcpu = omega arith; last = omega arith })
      (omega arith) (refl, omega arith, (refl, omega arith, record {})) box_pools
      (record { available = refl; attachable = λ _. refl })

abbrev empty_box : Computer
empty_box = record render_box { limits = limits_of 0 none }

-- The computer with its pools in its memory.
abbrev local_box : Computer
local_box = record render_box {
  limits = record (limits_of 2 (some 2)) { local_pool = some pool_names };
}

computer_sent_example :
    (shm' : Shm) × (after : Computer) × Agree
      (send_computer little_endian layout memory local_box true)
      (recv_computer big_endian layout memory empty_box)
      local_box
      (shm', after)
    × Arrived local_box.status after.status
    × (after.hwinfo ≡ local_box.hwinfo)
    × SameLimits local_box.limits after.limits
    × Holds shm' after.limits pool_names
unfolding contains str_eq
computer_sent_example =
    computer_sent little_endian big_endian layout memory memory local_box empty_box true pool_names
      (omega arith) (omega arith) (omega arith) (omega arith) box_fits
      (record {
        id = omega arith;
        procspeed = omega arith;
        ncpus = omega arith;
        speedindex = omega arith;
        memory = omega arith;
      })
      (record { nmaxcpus = omega arith; maxfreeloadcpu = omega arith; last = omega arith })
      (refl, refl) (omega arith) (refl, omega arith, (refl, omega arith, record {})) refl
      (record { available = refl; attachable = λ _. refl })
