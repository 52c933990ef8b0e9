-- ===== src/Communications/PoolsTrip.antt =====
-- What one end sends of the limits of a computer and of its pools, the other receives.
use drqueue.Prelude.{
  ℕ, suc, ◌+◌, ◌≤◌, ◌<◌, ◌≡◌, refl, sym, ap, subst, ◌∙◌, false, some, List, [], ◌∷◌, ◌++◌, CString,
  arith, length, length-append, take_all, contains,
}
use drqueue.Prelude.Bytes.{Host}
use drqueue.Job.{maxnamelen}
use drqueue.Shm.{Shm, computer_pool_get_shared_memory}
use drqueue.Computer.{ComputerLimits}
use drqueue.Computer.Pools.{computer_pool_add}
use drqueue.Computer.Pools.Laws.{Holds, HasRoom, exists_lem, add-new}
use drqueue.EnvVars.Bindings.{Ready}
use drqueue.Communications.Wire.{Packet, ◌>>=◌, ◌>>◌, read_object}
use drqueue.Communications.Delivery.{
  Talks-ok, Talks-bind, Talks-write, Talks-read, Delivers, Delivers-bind,
}
use drqueue.Communications.Records.{Layout, as_name}
use drqueue.Communications.RoundTrips.{same_size}
use drqueue.Communications.ListTrips.{silent}
use drqueue.Communications.Pools.{send_pool, recv_pool, send_pools, recv_pools}

-- The names are new to the list, one after the other, and fit their field.
abbrev pub AllNew : List CString → List CString → Type 0
AllNew have [] = Unit {0}
AllNew have (n ∷ ns) =
    (contains have n ≡ false) × (length n ≤ maxnamelen) × AllNew (have ++ n ∷ []) ns

add_keeps :
    (shm : Shm) (cl : ComputerLimits) (names : List CString) (name : CString)
    → Holds shm cl names
    → HasRoom shm
    → contains names name ≡ false
    → length names < 65_535
    → let r = computer_pool_add shm cl name in
      (r.0.full ≡ shm.full)
      × (r.0.no_attach ≡ shm.no_attach)
      × (r.0.next_id ≡ suc shm.next_id)
      × (r.1.poolshmid ≡ some shm.next_id)
unfolding computer_pool_add computer_pool_get_shared_memory
add_keeps shm cl [] name h room fresh few = ground (arith, exists_lem shm cl [] name h)
add_keeps shm cl (n ∷ ns) name (id, h) room fresh few =
    let seen = exists_lem shm cl (n ∷ ns) name (id, h) in
    let all = take_all cl.npools (n ∷ ns) (omega (arith, h.counted)) in ground (arith, seen, all)

append_nil_lem : (xs : List CString) → xs ++ [] ≡ xs
append_nil_lem [] = refl
append_nil_lem (x ∷ xs) = ap (λ l. x ∷ l) (append_nil_lem xs)

append_assoc_lem :
    (xs : List CString) (y : CString) (zs : List CString) → (xs ++ y ∷ []) ++ zs ≡ xs ++ y ∷ zs
append_assoc_lem [] y zs = refl
append_assoc_lem (x ∷ xs) y zs = ap (λ l. x ∷ l) (append_assoc_lem xs y zs)

some_same : {m n : ℕ} → some m ≡ some n → m ≡ n
some_same e = ground (arith, e)

pool_delivered :
    (s r : Host) (sizeof : Layout) (n : CString)
    → sizeof.pool < 4_294_967_296
    → Delivers (send_pool s sizeof n) (recv_pool r sizeof) n
unfolding ◌>>◌
pool_delivered s r sizeof n l =
    Delivers-bind (λ _. read_object >>= λ p. as_name p) (same_size s r sizeof.pool l)
      (record {
        there = Packet.name n ∷ [];
        back = [];
        sends = Talks-write (Packet.name n);
        receives = Talks-bind (λ p. as_name p) (Talks-read (Packet.name n)) (Talks-ok n);
      })

-- The list is not in a segment that was given before `base`.
abbrev pub Given : ℕ → ComputerLimits → Type 0
Given base cl = (id : ℕ) → cl.poolshmid ≡ some id → base ≤ id

pub pools_delivered :
    (names : List CString) (s r : Host) (sizeof : Layout) (shm : Shm) (cl : ComputerLimits)
    (have : List CString) (base : ℕ)
    → sizeof.pool < 4_294_967_296
    → Holds shm cl have
    → Given base cl
    → base ≤ shm.next_id
    → Ready shm
    → length have + length names < 65_536
    → AllNew have names
    → (shm' : Shm) × (cl' : ComputerLimits) × Delivers
        (send_pools s sizeof names)
        (recv_pools (length names) r sizeof shm cl)
        (shm', cl')
      × Holds shm' cl' (have ++ names)
      × Given base cl'
unfolding send_pools recv_pools ◌>>◌
pools_delivered [] s r sizeof shm cl have base l hold given below ready few new =
    (shm, cl, silent (shm, cl), subst (Holds shm cl) (sym (append_nil_lem have)) hold, given)
pools_delivered (n ∷ ns) s r sizeof shm cl have base l hold given below ready few
      (fresh, short, new) =
    let room : HasRoom shm = record {
      available = ready.available;
      attachable = ready.attachable shm.next_id;
    } in
    let step = add-new shm cl have n hold room fresh (omega (arith, few)) short in
    let (full, attachable, next, seg) =
      add_keeps shm cl have n hold room fresh (omega (arith, few)) in
    let a = computer_pool_add shm cl n in
    let ready1 : Ready a.0 = record {
      available = full ∙ ready.available;
      attachable = λ id. ap (λ f. f id) attachable ∙ ready.attachable id;
    } in
    let given1 : Given base a.1 = λ id e. subst (λ k. base ≤ k) (some_same (sym seg ∙ e)) below in
    let below1 : base ≤ a.0.next_id = omega (arith, next, below) in
    let (shm', cl', d, held, given') =
      pools_delivered ns s r sizeof a.0 a.1 (have ++ n ∷ []) base l step.1 given1 below1 ready1
        (omega (arith, few, length-append have (n ∷ []))) new in
    (
      shm',
      cl',
      Delivers-bind
          (λ name.
            (let a = computer_pool_add shm cl name in recv_pools (length ns) r sizeof a.0 a.1))
          (pool_delivered s r sizeof n l) d,
      subst (Holds shm' cl') (append_assoc_lem have n ns) held,
      given',
    )
