-- ===== src/Communications/Wire.antt =====
-- A connection as libdrqueue/communications.c uses it. One call of `dr_write` puts one object on the wire, and
-- one call of `dr_read` takes one from it. How these calls move the bytes of an object, in as many pieces as
-- the system likes, is the matter of Communications.Stream.
use drqueue.Prelude.{ℕ, zero, suc, Option, none, some, List, [], ◌∷◌, ◌++◌, CString}
use drqueue.Frame.{FrameInfo}
use drqueue.Job.{Job, EnvVar}
use drqueue.Task.{Task}
use drqueue.Computer.{HwInfo, ComputerLimits, AutoEnable}
use drqueue.Request.{Request}

-- The objects that are written: words, structures, and the bytes of a text.
pub data Packet : Type 0 where
  word16 word32 : ℕ → Packet
  loadavg : ℕ → ℕ → ℕ → Packet
  request : Request → ℕ → Packet
  hwinfo : HwInfo → Packet
  limits : ComputerLimits → Packet
  autoenable : AutoEnable → Packet
  task : Task → Packet
  job : Job → Packet
  frame_info : FrameInfo → Packet
  envvar : EnvVar → Packet
  name : CString → Packet
  text : List ℕ → Packet

-- One end of a connection: what is still to be read, what was written, and how many more objects
-- the peer will take before a write fails.
pub record Conn : Type 0 where
  pub inbox : List Packet
  pub outbox : List Packet
  pub room : ℕ

-- What a function of communications.c does: it fails, returning 0, or it gives a value.
abbrev pub Comm : Type 0 → Type 0
Comm A = Conn → Conn × Option A

abbrev pub ok : {A : Type 0} → A → Comm A
ok a c = (c, some a)

abbrev pub failing : {A : Type 0} → Comm A
failing c = (c, none)

abbrev pub and_then : {A B : Type 0} → (A → Comm B) → Conn × Option A → Conn × Option B
and_then f (c, none) = (c, none)
and_then f (c, some a) = f a c

infixl 5 ◌>>=◌ ◌>>◌
unfoldable pub ◌>>=◌ : {A B : Type 0} → Comm A → (A → Comm B) → Comm B
(m >>= f) c = and_then f (m c)

unfoldable pub ◌>>◌ : {A B : Type 0} → Comm A → Comm B → Comm B
unfolding ◌>>=◌
m >> k = m >>= λ _. k

unfoldable pub write_object : Packet → Comm (Unit {0})
write_object p c = elim c.room [
  | zero ↦ (c, none)
  | suc k ↦ (record c { outbox = c.outbox ++ p ∷ []; room = k }, some tt)
]

unfoldable pub read_object : Comm Packet
read_object c = elim c.inbox [ [] ↦ (c, none) | p ∷ ps ↦ (record c { inbox = ps }, some p) ]
