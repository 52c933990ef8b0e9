-- ===== src/Conversation/LimitsSent.antt =====
-- The limits of a computer and its pools from one end to the other (libdrqueue/communications.c,
-- `send_computer_limits` and `recv_computer_limits`).
use drqueue.Prelude.{
  Bool, true, ℕ, ◌<◌, ◌≡◌, refl, sym, subst, true, false, none, some, List, [], ◌∷◌, CString, arith,
  length, take_all, if◌then◌else◌,
}
use drqueue.Prelude.Bytes.{Host}
use drqueue.Job.{is_set}
use drqueue.Shm.{Shm}
use drqueue.Computer.{
  ComputerLimits, computer_limits_cleanup_to_send, computer_limits_cleanup_received,
}
use drqueue.Computer.Pools.{
  computer_pool_init, computer_pool_copy, computer_pool_free, computer_pool_attach_shared_memory,
  computer_pool_detach_shared_memory,
}
use drqueue.Computer.Pools.Laws.{Holds}
use drqueue.EnvVars.Bindings.{Ready}
use drqueue.Communications.Wire.{Packet, ok, ◌>>=◌, write_object, read_object}
use drqueue.Communications.Delivery.{Delivers}
use drqueue.Communications.Records.{Layout, as_limits, write_16b, read_16b}
use drqueue.Communications.RoundTrips.{same_size, round16, round32}
use drqueue.Communications.ListTrips.{word16_delivered}
use drqueue.Communications.Pools.{
  send_pools, pools_to_send, pools_sent, send_computer_pools, recv_pools, recv_computer_pools,
  limits_bswap, limits_bytes, send_computer_limits, recv_computer_limits,
}
use drqueue.Communications.PoolsTrip.{AllNew, Given, pools_delivered}
use drqueue.Conversation.Turns.{Agree, Agree-bind, Agree-to, Agree-done, Agree-then, Agree-object}

-- Where the sender has the names of its pools: in its own segment, or in a list in its memory, by the flag
-- `use_local_pools`.
abbrev pub Pooled : Bool → Shm → ComputerLimits → List CString → Type 0
Pooled false shm cl names = Holds shm cl names
Pooled true shm cl [] = cl.npools ≡ 0
Pooled true shm cl (n ∷ ns) = (cl.npools ≡ length (n ∷ ns)) × (cl.local_pool ≡ some (n ∷ ns))

-- The names that are sent are those.
names_sent :
    (host : Host) (sizeof : Layout) (shm : Shm) (cl : ComputerLimits) (local : Bool)
    (names : List CString)
    → Pooled local shm cl names
    → (if is_set cl.npools then pools_sent host sizeof (pools_to_send shm cl local) else ok cl)
      ≡ (send_pools host sizeof names >>= λ _. ok cl)
unfolding computer_pool_attach_shared_memory computer_pool_detach_shared_memory send_pools ◌>>=◌
names_sent host sizeof shm cl false [] hold =
    let none_set : is_set cl.npools ≡ false = ground (arith, hold.0) in rw none_set refl
names_sent host sizeof shm cl false (n ∷ ns) (id, h) =
    let some_set : is_set cl.npools ≡ true = ground (arith, h.counted) in
    let all = take_all cl.npools (n ∷ ns) (omega (arith, h.counted)) in
    let found : pools_to_send shm cl false ≡ some (n ∷ ns, cl) =
      ground (arith, h.shmid, h.contents, h.attachable, h.detached, all) in
    rw (some_set, found) refl
names_sent host sizeof shm cl true [] hold =
    let none_set : is_set cl.npools ≡ false = ground (arith, hold) in rw none_set refl
names_sent host sizeof shm cl true (n ∷ ns) (counted, here) =
    let some_set : is_set cl.npools ≡ true = ground (arith, counted) in
    let all = take_all cl.npools (n ∷ ns) (omega (arith, counted)) in
    let found : pools_to_send shm cl true ≡ some (n ∷ ns, cl) = ground (arith, here, all) in
    rw (some_set, found) refl

Holds-copy :
    (shm : Shm) (cl cl' : ComputerLimits) (names : List CString)
    → Holds shm cl names
    → Holds shm (computer_pool_copy cl cl') names
unfolding computer_pool_copy
Holds-copy shm cl cl' [] h = h
Holds-copy shm cl cl' (n ∷ ns) (id, h) = (
  id,
  record {
    shmid = h.shmid;
    contents = h.contents;
    attachable = h.attachable;
    given = h.given;
    counted = h.counted;
    detached = h.detached;
  },
)

count_held :
    (shm : Shm) (cl : ComputerLimits) (local : Bool) (names : List CString)
    → Pooled local shm cl names
    → cl.npools ≡ length names
count_held shm cl false [] h = h.0
count_held shm cl false (n ∷ ns) (id, h) = h.counted
count_held shm cl true [] h = h
count_held shm cl true (n ∷ ns) h = h.0

init_held : (shm : Shm) (cl : ComputerLimits) → Holds shm (computer_pool_init cl) []
unfolding computer_pool_init
init_held shm cl = (refl, refl, refl)

none-Given : (cl : ComputerLimits) (base : ℕ) → Given base (computer_pool_init cl)
unfolding computer_pool_init
none-Given cl base = λ id e. ground (arith, e)

pub free_nothing :
    (shm : Shm) (cl : ComputerLimits) → cl.poolshmid ≡ none → (computer_pool_free shm cl).0 ≡ shm
unfolding computer_pool_free computer_pool_detach_shared_memory
free_nothing shm cl e = ground (arith, e)

-- The pools of a computer that one end sends, where no name stands twice, the other has in a segment of its own.
pub pools-Agree :
    (s r : Host) (sizeof : Layout) (shm shm_r : Shm) (cl cl_r : ComputerLimits) (local : Bool)
    (names : List CString)
    → sizeof.pool < 4_294_967_296
    → Pooled local shm cl names
    → cl_r.poolshmid ≡ none
    → Ready shm_r
    → length names < 65_536
    → AllNew [] names
    → (shm' : Shm) × (cl' : ComputerLimits) × Agree
        (send_computer_pools s sizeof shm cl local)
        (recv_computer_pools r sizeof shm_r cl_r)
        cl
        (shm', computer_pool_copy cl' cl_r)
      × Holds shm' (computer_pool_copy cl' cl_r) names
      × Given shm_r.next_id (computer_pool_copy cl' cl_r)
unfolding send_computer_pools recv_computer_pools
pools-Agree s r sizeof shm shm_r cl cl_r local names small hold empty ready few new =
    let (shm', cl', d, held, given) =
      pools_delivered names s r sizeof shm_r (computer_pool_init cl_r) [] shm_r.next_id small
        (init_held shm_r cl_r) (none-Given cl_r shm_r.next_id) (omega arith) ready
        (omega (arith, few)) new in
    let count = count_held shm cl local names hold in
    let d' =
      subst
        (λ k.
          Delivers (send_pools s sizeof names)
            (recv_pools k r sizeof shm_r (computer_pool_init cl_r)) (shm', cl'))
        (sym count) d in
    (
      shm',
      cl',
      Agree-bind
          (λ _. write_16b s cl.npools >>= λ _.
            (if is_set cl.npools then pools_sent s sizeof (pools_to_send shm cl local) else ok cl))
          (λ _. read_16b r >>= λ npools.
            recv_pools npools r sizeof shm_r (computer_pool_init cl_r) >>= λ q.
            ok ((computer_pool_free q.0 cl_r).0, computer_pool_copy q.1 cl_r))
          (Agree-to (same_size s r 2 (omega arith)))
          (rw (names_sent s sizeof shm cl local names hold) (
            Agree-bind (λ _. send_pools s sizeof names >>= λ _. ok cl)
              (λ npools. recv_pools npools r sizeof shm_r (computer_pool_init cl_r) >>= λ q.
                ok ((computer_pool_free q.0 cl_r).0, computer_pool_copy q.1 cl_r))
              (Agree-to (word16_delivered s r cl.npools (omega (arith, count, few))))
              (Agree-bind (λ _. ok cl)
                (λ q. ok ((computer_pool_free q.0 cl_r).0, computer_pool_copy q.1 cl_r))
                (Agree-to d')
                (rw (free_nothing shm' cl_r empty)
                  (Agree-done cl (shm', computer_pool_copy cl' cl_r)))))),
      Holds-copy shm' cl' cl_r names held,
      given,
    )

-- What the limits of two records have in common but for the pools.
pub record SameLimits (cl cl' : ComputerLimits) : Type 0 where
  pub enabled : cl'.enabled ≡ cl.enabled
  pub nmaxcpus : cl'.nmaxcpus ≡ cl.nmaxcpus
  pub maxfreeloadcpu : cl'.maxfreeloadcpu ≡ cl.maxfreeloadcpu
  pub last : cl'.autoenable.last ≡ cl.autoenable.last
  pub hour : cl'.autoenable.h ≡ cl.autoenable.h
  pub minute : cl'.autoenable.m ≡ cl.autoenable.m
  pub flags : cl'.autoenable.flags ≡ cl.autoenable.flags

-- The words of the limits fit their fields.
pub record FitsLimits (cl : ComputerLimits) : Type 0 where
  pub nmaxcpus : cl.nmaxcpus < 65_536
  pub maxfreeloadcpu : cl.maxfreeloadcpu < 65_536
  pub last : cl.autoenable.last < 4_294_967_296

-- The record that arrives, before its words are swapped.
abbrev arrived : Host → Host → ComputerLimits → ComputerLimits
unfolding computer_limits_cleanup_received computer_limits_cleanup_to_send
arrived s r cl =
    computer_limits_cleanup_received
      (limits_bytes r (limits_bytes s (computer_limits_cleanup_to_send (limits_bswap s cl))))

limits_same :
    (s r : Host) (cl cl' : ComputerLimits)
    → FitsLimits cl
    → SameLimits cl (limits_bswap r (computer_pool_copy cl' (arrived s r cl)))
unfolding arrived computer_pool_copy computer_limits_cleanup_received
    computer_limits_cleanup_to_send
limits_same s r cl cl' f = record {
  enabled = refl;
  nmaxcpus = round16 s r cl.nmaxcpus f.nmaxcpus;
  maxfreeloadcpu = round16 s r cl.maxfreeloadcpu f.maxfreeloadcpu;
  last = round32 s r cl.autoenable.last f.last;
  hour = refl;
  minute = refl;
  flags = refl;
}

Holds-swapped :
    (host : Host) (shm : Shm) (cl : ComputerLimits) (names : List CString)
    → Holds shm cl names
    → Holds shm (limits_bswap host cl) names
Holds-swapped host shm cl [] h = h
Holds-swapped host shm cl (n ∷ ns) (id, h) = (
  id,
  record {
    shmid = h.shmid;
    contents = h.contents;
    attachable = h.attachable;
    given = h.given;
    counted = h.counted;
    detached = h.detached;
  },
)

arrived_empty : (s r : Host) (cl : ComputerLimits) → (arrived s r cl).poolshmid ≡ none
unfolding arrived computer_limits_cleanup_received computer_limits_cleanup_to_send
arrived_empty s r cl = refl

-- The limits of a computer that one end sends, and its pools, the other has.
pub limits-Agree :
    (s r : Host) (sizeof : Layout) (shm shm_r : Shm) (cl cl_r : ComputerLimits) (local : Bool)
    (names : List CString)
    → sizeof.pool < 4_294_967_296
    → sizeof.limits < 4_294_967_296
    → Pooled local shm cl names
    → cl_r.poolshmid ≡ none
    → Ready shm_r
    → length names < 65_536
    → AllNew [] names
    → FitsLimits cl
    → (shm' : Shm) × (cl' : ComputerLimits) × Agree
        (send_computer_limits s sizeof shm cl local)
        (recv_computer_limits r sizeof shm_r cl_r)
        cl
        (shm', cl')
      × Holds shm' cl' names
      × Given shm_r.next_id cl'
      × SameLimits cl cl'
unfolding send_computer_limits recv_computer_limits ◌>>=◌ arrived
limits-Agree s r sizeof shm shm_r cl cl_r local names small small' hold empty ready few new fits =
    let (shm', cl', d, held, given) =
      pools-Agree s r sizeof shm shm_r cl (arrived s r cl) local names small hold
        (arrived_empty s r cl) ready few new in
    let packet =
      Packet.limits (limits_bytes s (computer_limits_cleanup_to_send (limits_bswap s cl))) in
    let taken = λ (q : ComputerLimits).
      recv_computer_pools r sizeof shm_r (computer_limits_cleanup_received (limits_bytes r q))
      >>= λ q'. ok ((computer_pool_free q'.0 cl_r).0, limits_bswap r q'.1) in
    (
      shm',
      limits_bswap r (computer_pool_copy cl' (arrived s r cl)),
      Agree-bind (λ _. write_object packet >>= λ _. send_computer_pools s sizeof shm cl local)
          (λ _. read_object >>= λ p. as_limits p >>= λ q. taken q)
          (Agree-to (same_size s r sizeof.limits small'))
          (Agree-bind (λ _. send_computer_pools s sizeof shm cl local)
            (λ p. as_limits p >>= λ q. taken q) (Agree-object packet)
            (subst
              (λ shm''.
                Agree (send_computer_pools s sizeof shm cl local)
                  (taken (limits_bytes s (computer_limits_cleanup_to_send (limits_bswap s cl)))) cl
                  (shm'', limits_bswap r (computer_pool_copy cl' (arrived s r cl))))
              (free_nothing shm' cl_r empty)
              (Agree-then (λ q. ((computer_pool_free q.0 cl_r).0, limits_bswap r q.1)) d))),
      Holds-swapped r shm' (computer_pool_copy cl' (arrived s r cl)) names held,
      given,
      limits_same s r cl cl' fits,
    )
