-- ===== src/Communications/RoundTrips.antt =====
-- What one end sends of a structure, the other receives, also when their hosts order bytes differently.
use drqueue.Prelude.{
  ℕ, suc, ◌<◌, ◌≡◌, ◌≢◌, refl, ap, subst, ◌∙◌, none, [], ◌∷◌, ◌==◌, ==_refl, arith,
}
use drqueue.Prelude.Bytes.{Host, htonl, htons, dr_hton64, htonl-htonl, htons-htons, hton64-hton64}
use drqueue.Frame.{FrameInfo}
use drqueue.Task.{Task}
use drqueue.Computer.{HwInfo}
use drqueue.Communications.Wire.{Packet, word32, Comm, ok, ◌>>=◌, ◌>>◌, write_object, read_object}
use drqueue.Communications.Delivery.{
  Talks, Talks-ok, Talks-bind, Talks-write, Talks-read, Delivers, Delivers-bind,
}
use drqueue.Communications.Memory.{bytes32, task_bytes, hwinfo_bytes, frame_info_bytes}
use drqueue.Communications.Records.{
  Layout, sure, as_word32, as_task, as_hwinfo, as_frame_info, hwinfo_bswap, frame_info_bswap,
  send_computer_hwinfo, recv_computer_hwinfo, send_frame_info, recv_frame_info, write_32b, read_32b,
  check_send_datasize, check_recv_datasize, task_bswap, send_task, recv_task,
}

Talks-write_32b :
    (host : Host) (n : ℕ) → n < 4_294_967_296 → Talks (write_32b host n) [] (word32 n ∷ []) tt
unfolding write_32b
Talks-write_32b host n l = rw (htonl-htonl host n l) (Talks-write (word32 n))

Talks-read_32b :
    (host : Host) (n : ℕ) → n < 4_294_967_296 → Talks (read_32b host) (word32 n ∷ []) [] n
unfolding read_32b
Talks-read_32b host n l =
    subst (λ m. Talks (read_32b host) (word32 n ∷ []) [] m) (htonl-htonl host n l)
      (Talks-bind (λ p. as_word32 p >>= λ m. ok (htonl host (bytes32 host m)))
        (Talks-read (word32 n))
        (Talks-bind (λ m. ok (htonl host (bytes32 host m))) (Talks-ok n) (Talks-ok _)))

-- The two ends agree on a size.
pub same_size :
    (s r : Host) (n : ℕ)
    → n < 4_294_967_296
    → Delivers (check_send_datasize s n) (check_recv_datasize r n) tt
unfolding check_send_datasize check_recv_datasize ◌>>◌
same_size s r n l = record {
  there = word32 n ∷ [];
  back = word32 n ∷ [];
  sends =
      Talks-bind (λ _. read_32b s >>= λ m. sure (n == m)) (Talks-write_32b s n l)
        (Talks-bind (λ m. sure (n == m)) (Talks-read_32b s n l) (rw (==_refl n) (Talks-ok tt)));
  receives =
      Talks-bind (λ m. write_32b r n >>= λ _. sure (n == m)) (Talks-read_32b r n l)
        (Talks-bind (λ _. sure (n == n)) (Talks-write_32b r n l) (rw (==_refl n) (Talks-ok tt)));
}

pub word32_delivered :
    (s r : Host) (n : ℕ) → n < 4_294_967_296 → Delivers (write_32b s n) (read_32b r) n
word32_delivered s r n l = record {
  there = word32 n ∷ [];
  back = [];
  sends = Talks-write_32b s n l;
  receives = Talks-read_32b r n l;
}

-- One object, which the receiver takes for `x` and makes `a` of.
pub one_object :
    {A : Type 0} (p : Packet) (as_a : Packet → Comm A) (undo : A → A) (x a : A)
    → Talks (as_a p) [] [] x
    → undo x ≡ a
    → Delivers (write_object p) (read_object >>= λ q. as_a q >>= λ y. ok (undo y)) a
one_object p as_a undo x a t e = record {
  there = p ∷ [];
  back = [];
  sends = Talks-write p;
  receives =
      Talks-bind (λ q. as_a q >>= λ y. ok (undo y)) (Talks-read p)
        (subst (λ v. Talks (as_a p >>= λ y. ok (undo y)) [] [] v) e
          (Talks-bind (λ y. ok (undo y)) t (Talks-ok (undo x))));
}

pub round32 : (s r : Host) (x : ℕ) → x < 4_294_967_296 → htonl r (htonl r (htonl s (htonl s x))) ≡ x
round32 s r x l = ap (λ y. htonl r (htonl r y)) (htonl-htonl s x l) ∙ htonl-htonl r x l

pub round16 : (s r : Host) (x : ℕ) → x < 65_536 → htons r (htons r (htons s (htons s x))) ≡ x
round16 s r x l = ap (λ y. htons r (htons r y)) (htons-htons s x l) ∙ htons-htons r x l

round64 :
    (s r : Host) (x : ℕ)
    → x < 18_446_744_073_709_551_616
    → dr_hton64 r (dr_hton64 r (dr_hton64 s (dr_hton64 s x))) ≡ x
round64 s r x l = ap (λ y. dr_hton64 r (dr_hton64 r y)) (hton64-hton64 s x l) ∙ hton64-hton64 r x l

-- The words of a task fit their fields.
pub record FitsTask (t : Task) : Type 0 where
  pub ijob : t.ijob < 4_294_967_296
  pub icomp : t.icomp < 4_294_967_296
  pub itask : t.itask < 65_536
  pub frame : t.frame < 4_294_967_296
  pub frame_start : t.frame_start < 4_294_967_296
  pub frame_end : t.frame_end < 4_294_967_296
  pub frame_step : t.frame_step < 4_294_967_296
  pub block_size : t.block_size < 4_294_967_296
  pub pid : t.pid < 4_294_967_296
  pub exitstatus : t.exitstatus < 4_294_967_296
  pub start_loading_time : t.start_loading_time < 18_446_744_073_709_551_616

task_travels :
    (s r : Host) (t : Task)
    → FitsTask t
    → task_bswap r (task_bytes r (task_bytes s (task_bswap s t))) ≡ t
task_travels s r t h =
    rw
      (
        round32 s r t.ijob h.ijob,
        round32 s r t.icomp h.icomp,
        round16 s r t.itask h.itask,
        round32 s r t.frame h.frame,
        round32 s r t.frame_start h.frame_start,
        round32 s r t.frame_end h.frame_end,
        round32 s r t.frame_step h.frame_step,
        round32 s r t.block_size h.block_size,
        round32 s r t.pid h.pid,
        round32 s r t.exitstatus h.exitstatus,
        round64 s r t.start_loading_time h.start_loading_time,
      )
      refl

-- A task that one end sends, the other receives, whatever the byte orders of the two hosts, where
-- their builds agree on its size.
pub task_delivered :
    (s r : Host) (sizeof : Layout) (t : Task)
    → sizeof.task < 4_294_967_296
    → FitsTask t
    → Delivers (send_task s sizeof t) (recv_task r sizeof) t
unfolding send_task recv_task ◌>>◌ ◌>>=◌
task_delivered s r sizeof t small fits =
    Delivers-bind (λ _. read_object >>= λ q. as_task q >>= λ y. ok (task_bswap r (task_bytes r y)))
      (same_size s r sizeof.task small)
      (one_object (Packet.task (task_bytes s (task_bswap s t))) as_task
        (λ y. task_bswap r (task_bytes r y)) (task_bytes s (task_bswap s t)) t
        (Talks-ok (task_bytes s (task_bswap s t))) (task_travels s r t fits))

pub record FitsHwInfo (h : HwInfo) : Type 0 where
  pub id : h.id < 4_294_967_296
  pub procspeed : h.procspeed < 4_294_967_296
  pub ncpus : h.ncpus < 65_536
  pub speedindex : h.speedindex < 4_294_967_296
  pub memory : h.memory < 4_294_967_296

-- So is the hardware information of a computer.
pub hwinfo_delivered :
    (s r : Host) (sizeof : Layout) (h : HwInfo)
    → sizeof.hwinfo < 4_294_967_296
    → FitsHwInfo h
    → Delivers (send_computer_hwinfo s sizeof h) (recv_computer_hwinfo r sizeof) h
unfolding send_computer_hwinfo recv_computer_hwinfo ◌>>◌ ◌>>=◌
hwinfo_delivered s r sizeof h small fits =
    let travels : hwinfo_bswap r (hwinfo_bytes r (hwinfo_bytes s (hwinfo_bswap s h))) ≡ h =
      rw
        (
          round32 s r h.id fits.id,
          round32 s r h.procspeed fits.procspeed,
          round16 s r h.ncpus fits.ncpus,
          round32 s r h.speedindex fits.speedindex,
          round32 s r h.memory fits.memory,
        )
        refl in
    Delivers-bind
      (λ _. read_object >>= λ q. as_hwinfo q >>= λ y. ok (hwinfo_bswap r (hwinfo_bytes r y)))
      (same_size s r sizeof.hwinfo small)
      (one_object (Packet.hwinfo (hwinfo_bytes s (hwinfo_bswap s h))) as_hwinfo
        (λ y. hwinfo_bswap r (hwinfo_bytes r y)) (hwinfo_bytes s (hwinfo_bswap s h)) h
        (Talks-ok (hwinfo_bytes s (hwinfo_bswap s h))) travels)

pub record FitsFrameInfo (f : FrameInfo) : Type 0 where
  pub start_time : f.start_time < 4_294_967_296
  pub end_time : f.end_time < 4_294_967_296
  pub icomp : f.icomp < 4_294_967_296
  pub itask : f.itask < 65_536
  pub requeued : f.requeued < 65_536
  pub flags : f.flags < 65_536

-- So is the information about a frame.
pub frame_info_delivered :
    (s r : Host) (f : FrameInfo)
    → FitsFrameInfo f
    → Delivers (send_frame_info s f) (recv_frame_info r) f
unfolding send_frame_info recv_frame_info ◌>>=◌
frame_info_delivered s r f fits =
    let travels : frame_info_bswap r
          (frame_info_bytes r (frame_info_bytes s (frame_info_bswap s f)))
        ≡ f =
      rw
        (
          round32 s r f.start_time fits.start_time,
          round32 s r f.end_time fits.end_time,
          round32 s r f.icomp fits.icomp,
          round16 s r f.itask fits.itask,
          round16 s r f.requeued fits.requeued,
          round16 s r f.flags fits.flags,
        )
        refl in
    one_object (Packet.frame_info (frame_info_bytes s (frame_info_bswap s f))) as_frame_info
      (λ y. frame_info_bswap r (frame_info_bytes r y)) (frame_info_bytes s (frame_info_bswap s f)) f
      (Talks-ok (frame_info_bytes s (frame_info_bswap s f))) travels

-- Two ends whose builds disagree on the size of a structure both refuse to go on: each reads what the other
-- wrote, and neither gives a value.
pub sizes_refused :
    (s r : Host) (n m k : ℕ)
    → n < 4_294_967_296
    → m < 4_294_967_296
    → n ≢ m
    → let sender =
        check_send_datasize s n (record { inbox = word32 m ∷ []; outbox = []; room = suc k }) in
      let receiver =
        check_recv_datasize r m (record { inbox = word32 n ∷ []; outbox = []; room = suc k }) in
      (sender.0.outbox ≡ word32 n ∷ [])
      × (receiver.0.outbox ≡ word32 m ∷ [])
      × (sender.1 ≡ none)
      × (receiver.1 ≡ none)
unfolding check_send_datasize check_recv_datasize write_32b read_32b write_object read_object ◌>>◌
    ◌>>=◌
sizes_refused s r n m k small small' other =
    let sn = htonl-htonl s n small in
    let sm = htonl-htonl s m small' in
    let rn = htonl-htonl r n small in
    let rm = htonl-htonl r m small' in
    (ground (arith, sn), ground (arith, rm), ground (arith, sm), ground (arith, rn))
