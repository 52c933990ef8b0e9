-- ===== src/Communications/Pools.antt =====
-- The limits of a computer and its pools on the wire (libdrqueue/communications.c).
use drqueue.Prelude.{
  ℕ, zero, suc, Bool, true, false, Option, none, some, List, [], ◌∷◌, CString, take, if◌then◌else◌,
}
use drqueue.Prelude.Bytes.{Host, htonl, htons}
use drqueue.Job.{is_set}
use drqueue.Shm.{Shm}
use drqueue.Computer.{
  ComputerLimits, computer_limits_cleanup_to_send, computer_limits_cleanup_received,
}
use drqueue.Computer.Pools.{
  computer_pool_init, computer_pool_attach_shared_memory, computer_pool_detach_shared_memory,
  computer_pool_free, computer_pool_add, computer_pool_copy,
}
use drqueue.Communications.Wire.{Packet, Comm, ok, failing, ◌>>=◌, ◌>>◌, write_object, read_object}
use drqueue.Communications.Memory.{bytes32, bytes16}
use drqueue.Communications.Records.{
  Layout, as_name, as_limits, write_16b, read_16b, check_send_datasize, check_recv_datasize,
}

abbrev pub send_pool : Host → Layout → CString → Comm (Unit {0})
send_pool host sizeof n = check_send_datasize host sizeof.pool >> write_object (Packet.name n)

unfoldable pub send_pools : Host → Layout → List CString → Comm (Unit {0})
unfolding check_send_datasize
send_pools host sizeof [] = ok tt
send_pools host sizeof (n ∷ ns) = send_pool host sizeof n >> send_pools host sizeof ns

-- The names to send, with the record once they are sent; a local list that is not there stops the process.
abbrev pub pools_to_send : Shm → ComputerLimits → Bool → Option (List CString × ComputerLimits)
unfolding computer_pool_attach_shared_memory computer_pool_detach_shared_memory
pools_to_send shm cl true = elim cl.local_pool [
  | none ↦ none
  | some names ↦ some (take cl.npools names, cl)
]
pools_to_send shm cl false =
    let r = computer_pool_attach_shared_memory shm cl in
    elim r.1 [
      | none ↦ none
      | some names ↦ some (take cl.npools names, (computer_pool_detach_shared_memory r.0).0)
    ]

abbrev pub pools_sent : Host → Layout → Option (List CString × ComputerLimits) → Comm ComputerLimits
unfolding send_pools
pools_sent host sizeof none = failing
pools_sent host sizeof (some r) = send_pools host sizeof r.0 >>= λ _. ok r.1

unfoldable pub send_computer_pools :
    Host → Layout → Shm → ComputerLimits → Bool → Comm ComputerLimits
unfolding check_send_datasize write_16b send_pools computer_pool_attach_shared_memory
    computer_pool_detach_shared_memory
send_computer_pools host sizeof shm cl use_local_pools = check_send_datasize host 2 >>= λ _.
    write_16b host cl.npools >>= λ _.
    (if is_set cl.npools
      then pools_sent host sizeof (pools_to_send shm cl use_local_pools)
      else ok cl)

abbrev pub recv_pool : Host → Layout → Comm CString
recv_pool host sizeof = check_recv_datasize host sizeof.pool >>= λ _. read_object >>= λ p. as_name p

-- Whether a pool could be added is not looked at.
unfoldable pub recv_pools : ℕ → Host → Layout → Shm → ComputerLimits → Comm (Shm × ComputerLimits)
unfolding check_recv_datasize computer_pool_add
recv_pools zero host sizeof shm limits = ok (shm, limits)
recv_pools (suc k) host sizeof shm limits = recv_pool host sizeof >>= λ name.
    let r = computer_pool_add shm limits name in recv_pools k host sizeof r.0 r.1

-- The pools are collected in a record of their own, which takes the place of the old ones; of that record only
-- the fields of the pools are read.
unfoldable pub recv_computer_pools :
    Host → Layout → Shm → ComputerLimits → Comm (Shm × ComputerLimits)
unfolding check_recv_datasize read_16b recv_pools computer_pool_init computer_pool_copy
    computer_pool_free
recv_computer_pools host sizeof shm cl = check_recv_datasize host 2 >>= λ _.
    read_16b host >>= λ npools. recv_pools npools host sizeof shm (computer_pool_init cl) >>= λ r.
    ok ((computer_pool_free r.0 cl).0, computer_pool_copy r.1 cl)

abbrev pub limits_bswap : Host → ComputerLimits → ComputerLimits
limits_bswap host cl = record cl {
  nmaxcpus = htons host cl.nmaxcpus;
  maxfreeloadcpu = htons host cl.maxfreeloadcpu;
  autoenable = record cl.autoenable { last = htonl host cl.autoenable.last };
}

-- The bytes of the words that travel; the fields of the pools are cleared at both ends.
abbrev pub limits_bytes : Host → ComputerLimits → ComputerLimits
limits_bytes host cl = record cl {
  npools = bytes16 host cl.npools;
  nmaxcpus = bytes16 host cl.nmaxcpus;
  maxfreeloadcpu = bytes16 host cl.maxfreeloadcpu;
  autoenable = record cl.autoenable { last = bytes32 host cl.autoenable.last };
}

unfoldable pub send_computer_limits :
    Host → Layout → Shm → ComputerLimits → Bool → Comm ComputerLimits
unfolding check_send_datasize send_computer_pools computer_limits_cleanup_to_send
send_computer_limits host sizeof shm cl use_local_pools =
    check_send_datasize host sizeof.limits >>= λ _.
    write_object
      (Packet.limits (limits_bytes host (computer_limits_cleanup_to_send (limits_bswap host cl))))
    >>= λ _. send_computer_pools host sizeof shm cl use_local_pools

unfoldable pub recv_computer_limits :
    Host → Layout → Shm → ComputerLimits → Comm (Shm × ComputerLimits)
unfolding check_recv_datasize recv_computer_pools computer_limits_cleanup_received
    computer_pool_free
recv_computer_limits host sizeof shm cl = check_recv_datasize host sizeof.limits >>= λ _.
    read_object >>= λ p. as_limits p >>= λ q.
    recv_computer_pools host sizeof shm (computer_limits_cleanup_received (limits_bytes host q))
    >>= λ r. ok ((computer_pool_free r.0 cl).0, limits_bswap host r.1)
