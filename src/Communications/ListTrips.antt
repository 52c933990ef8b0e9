-- ===== src/Communications/ListTrips.antt =====
-- What one end sends of a text, of a list or of the status of a computer, the other receives.
use drqueue.Prelude.{
  ℕ, zero, suc, ◌+◌, ◌≤◌, ◌<◌, ◌≡◌, ◌≢◌, refl, ap, subst, Bool, true, false, List, [], ◌∷◌, ◌++◌,
  ◌==◌, if◌then◌else◌, arith, CString, length, length-append, take, take_all, u16,
}
use drqueue.Prelude.Bytes.{Host, htons}
use drqueue.Computer.{ComputerStatus}
use drqueue.Communications.Wire.{Packet, word16, Comm, ok, failing, ◌>>=◌, ◌>>◌, read_object}
use drqueue.Communications.Delivery.{
  Talks-ok, Talks-bind, Talks-write, Talks-read, Delivers, Delivers-bind, then_ok,
}
use drqueue.Communications.Memory.{bytes16}
use drqueue.Communications.Records.{
  Layout, as_word16, read_32b, write_16b, read_16b, check_send_datasize, check_recv_datasize,
  send_blocked_host, recv_blocked_host, as_name,
}
use drqueue.Communications.RoundTrips.{same_size, one_object, word32_delivered, round16}
use drqueue.Communications.Lists.{
  send_hosts, send_blocked_host_list, recv_hosts, recv_blocked_host_list, sized, string_buffer,
  write_bytes, as_text, send_string, recv_string, as_loadavg, send_computer_loadavg,
  recv_computer_loadavg, send_computer_ntasks, recv_computer_ntasks, noted_failure, or_else,
}

-- An end that has nothing to say while the other has not either.
pub silent : {A : Type 0} (a : A) → Delivers (ok tt) (ok a) a
silent a = record { there = []; back = []; sends = Talks-ok tt; receives = Talks-ok a }

pub word16_delivered : (s r : Host) (n : ℕ) → n < 65_536 → Delivers (write_16b s n) (read_16b r) n
unfolding write_16b read_16b
word16_delivered s r n l =
    one_object (word16 (bytes16 s (htons s n))) as_word16 (λ m. htons r (bytes16 r m))
      (bytes16 s (htons s n)) n (Talks-ok (bytes16 s (htons s n))) (round16 s r n l)

pub optional_size :
    (s r : Host) (n : ℕ) (do_checksize : Bool)
    → n < 4_294_967_296
    → Delivers
        (if do_checksize then check_send_datasize s n else ok tt)
        (if do_checksize then check_recv_datasize r n else ok tt)
        tt
optional_size s r n true l = same_size s r n l
optional_size s r n false l = silent tt

host_delivered :
    (s r : Host) (sizeof : Layout) (n : CString) (do_checksize : Bool)
    → sizeof.host < 4_294_967_296
    → Delivers
        (send_blocked_host s sizeof n do_checksize)
        (recv_blocked_host r sizeof do_checksize)
        n
unfolding send_blocked_host recv_blocked_host ◌>>◌
host_delivered s r sizeof n do_checksize l =
    Delivers-bind (λ _. read_object >>= λ p. as_name p)
      (optional_size s r sizeof.host do_checksize l)
      (record {
        there = Packet.name n ∷ [];
        back = [];
        sends = Talks-write (Packet.name n);
        receives = Talks-bind (λ p. as_name p) (Talks-read (Packet.name n)) (Talks-ok n);
      })

hosts_delivered :
    (s r : Host) (sizeof : Layout) (ns : List CString) (do_checksize : Bool)
    → sizeof.host < 4_294_967_296
    → Delivers
        (send_hosts s sizeof ns do_checksize)
        (recv_hosts (length ns) r sizeof do_checksize)
        ns
unfolding send_hosts recv_hosts
hosts_delivered s r sizeof [] do_checksize l = silent []
hosts_delivered s r sizeof (n ∷ ns) do_checksize l =
    Delivers-bind (λ m. recv_hosts (length ns) r sizeof do_checksize >>= λ ms. ok (m ∷ ms))
      (host_delivered s r sizeof n do_checksize l)
      (then_ok (λ ms. n ∷ ms) (hosts_delivered s r sizeof ns do_checksize l))

-- A list of blocked hosts that one end sends, the other receives, in its order, with the sizes checked or not, where
-- there are fewer hosts than a word counts.
pub blocked_host_list_delivered :
    (s r : Host) (sizeof : Layout) (bh : List CString) (do_checksize : Bool)
    → sizeof.host < 4_294_967_296
    → length bh < 4_294_967_296
    → Delivers
        (send_blocked_host_list s sizeof bh do_checksize)
        (recv_blocked_host_list r sizeof do_checksize)
        bh
unfolding send_blocked_host_list recv_blocked_host_list ◌>>◌ ◌>>=◌
blocked_host_list_delivered s r sizeof bh do_checksize l l' =
    Delivers-bind (λ _. read_32b r >>= λ size. recv_hosts size r sizeof do_checksize)
      (optional_size s r 4 do_checksize (omega arith))
      (Delivers-bind (λ size. recv_hosts size r sizeof do_checksize)
        (word32_delivered s r (length bh) l') (hosts_delivered s r sizeof bh do_checksize l))

u16-small : (n : ℕ) → u16 n < 65_536
u16-small n = ground arith

bytes_delivered :
    (bytes : List ℕ) (n : ℕ)
    → length bytes ≡ n
    → n ≢ 0
    → Delivers
        (write_bytes bytes)
        (if n == 0 then failing else read_object >>= λ p. as_text p)
        bytes
bytes_delivered [] n e some_bytes = absurd (some_bytes (omega (arith, e)))
bytes_delivered (b ∷ bs) zero e some_bytes = absurd (some_bytes refl)
bytes_delivered (b ∷ bs) (suc n) e some_bytes =
    let counted : (suc n == 0) ≡ false = ground arith in
    record {
      there = Packet.text (b ∷ bs) ∷ [];
      back = [];
      sends = Talks-write (Packet.text (b ∷ bs));
      receives =
          rw counted
            (Talks-bind (λ p. as_text p) (Talks-read (Packet.text (b ∷ bs))) (Talks-ok (b ∷ bs)));
    }

length-take : {A : Type 0} (n : ℕ) (xs : List A) → n ≤ length xs → length (take n xs) ≡ n
length-take zero xs h = refl
length-take (suc n) [] h = absurd (omega (arith, h))
length-take (suc n) (x ∷ xs) h = omega (arith, length-take n xs (omega (arith, h)))

buffer-length : (str : CString) → length (string_buffer str) ≡ sized str
buffer-length str =
    length-take (sized str) (str ++ 0 ∷ []) (ground (arith, length-append str (0 ∷ [])))

-- Of a text, so many bytes arrive as the uint16_t that goes before it counts, where it does not count none.
string_cut :
    (s r : Host) (str : CString)
    → sized str ≢ 0
    → Delivers (send_string s str) (recv_string r) (string_buffer str)
unfolding send_string recv_string ◌>>◌ ◌>>=◌
string_cut s r str some_bytes =
    let small = u16-small (length str + 1) in
    let the_bytes = λ (len : ℕ). if len == 0 then failing else read_object >>= λ p. as_text p in
    Delivers-bind (λ _. read_16b r >>= λ len. check_recv_datasize r len >> the_bytes len)
      (same_size s r 2 (omega arith))
      (Delivers-bind (λ len. check_recv_datasize r len >> the_bytes len)
        (word16_delivered s r (sized str) small)
        (Delivers-bind (λ _. the_bytes (sized str))
          (same_size s r (sized str) (omega (arith, small)))
          (bytes_delivered (string_buffer str) (sized str) (buffer-length str) some_bytes)))

-- A text of fewer than 65,535 bytes arrives whole, with its zero.
pub string_delivered :
    (s r : Host) (str : CString)
    → length str < 65_535
    → Delivers (send_string s str) (recv_string r) (str ++ 0 ∷ [])
string_delivered s r str l =
    let whole : string_buffer str ≡ str ++ 0 ∷ [] =
      take_all (sized str) (str ++ 0 ∷ []) (ground (arith, length-append str (0 ∷ []), l)) in
    subst (λ bytes. Delivers (send_string s str) (recv_string r) bytes) whole
      (string_cut s r str (ground (arith, l)))

-- The three load averages.
pub loadavg_delivered :
    (s r : Host) (status : ComputerStatus)
    → ((i : ℕ) → status.loadavg i < 65_536)
    → Delivers
        (send_computer_loadavg s status)
        (recv_computer_loadavg r)
        (status.loadavg 0, status.loadavg 1, status.loadavg 2)
unfolding send_computer_loadavg recv_computer_loadavg ◌>>=◌
loadavg_delivered s r status l =
    one_object
      (Packet.loadavg (bytes16 s (htons s (status.loadavg 0)))
        (bytes16 s (htons s (status.loadavg 1))) (bytes16 s (htons s (status.loadavg 2))))
      as_loadavg (λ l. (htons r (bytes16 r l.0), htons r (bytes16 r l.1), htons r (bytes16 r l.2)))
      _ _ (Talks-ok _)
      (rw
        (
          round16 s r (status.loadavg 0) (l 0),
          round16 s r (status.loadavg 1) (l 1),
          round16 s r (status.loadavg 2) (l 2),
        )
        refl)

pub ntasks_delivered :
    (s r : Host) (status : ComputerStatus)
    → status.ntasks < 65_536
    → status.nrunning < 65_536
    → Delivers
        (send_computer_ntasks s status)
        (recv_computer_ntasks r)
        (status.ntasks, status.nrunning)
unfolding send_computer_ntasks recv_computer_ntasks ◌>>◌ ◌>>=◌
ntasks_delivered s r status l l' =
    Delivers-bind (λ n. read_16b r >>= λ m. ok (n, m)) (word16_delivered s r status.ntasks l)
      (then_ok (λ m. (status.ntasks, m)) (word16_delivered s r status.nrunning l'))

-- A failure is noted only where there is one.
pub or_else_delivered :
    {A : Type 0} {s : Comm (Unit {0})} {r : Comm A} {a : A} (b : A)
    → Delivers s r a
    → Delivers s (or_else r b) a
or_else_delivered b d = record {
  there = d.there;
  back = d.back;
  sends = d.sends;
  receives = record { run = λ rest out k. ap (noted_failure b) (d.receives.run rest out k) };
}
