-- ===== src/Conversation/Turns.antt =====
-- Requests that go back and forth.
use drqueue.Prelude.{ℕ, ◌<◌, ap, List, [], ◌∷◌, ◌++◌}
use drqueue.Prelude.Bytes.{Host, htonl}
use drqueue.Request.{Request}
use drqueue.Communications.Wire.{Packet, Comm, ok, and_then, ◌>>=◌, ◌>>◌, write_object, read_object}
use drqueue.Communications.Delivery.{Talks, Talks-ok, Talks-bind, Talks-write, Talks-read, Delivers}
use drqueue.Communications.Memory.{bytes32}
use drqueue.Communications.Records.{as_request, send_request, recv_request}
use drqueue.Communications.RoundTrips.{one_object, round32}

pub request_delivered :
    (s r : Host) (q : Request) (who : ℕ)
    → q.«data» < 4_294_967_296
    → Delivers (send_request s q who) (recv_request r) (q, who)
unfolding send_request recv_request ◌>>=◌
request_delivered s r q who l =
    one_object (Packet.request (record q { «data» = bytes32 s (htonl s q.«data») }) who) as_request
      (λ p. (record p.0 { «data» = htonl r (bytes32 r p.0.«data») }, p.1)) _ (q, who) (Talks-ok _)
      (ap (λ d. (record q { «data» = d }, who)) (round32 s r q.«data» l))

-- The other end speaks first.
pub Delivers-back :
    {A B : Type 0} {s : Comm (Unit {0})} {r : Comm A} {a : A} (t : A → Comm (Unit {0})) (m : Comm B)
    {b : B}
    → Delivers s r a
    → Delivers (t a) m b
    → Delivers (r >>= t) (s >> m) b
unfolding ◌>>◌
Delivers-back t m d d' = record {
  there = d.back ++ d'.there;
  back = d.there ++ d'.back;
  sends = Talks-bind t d.receives d'.sends;
  receives = Talks-bind (λ _. m) d.sends d'.receives;
}

-- The two ends talk to each other, use up all that travels, and each has what it takes away from it.
pub record Agree {A B : Type 0} (one : Comm A) (other : Comm B) (a : A) (b : B) : Type 0 where
  pub there : List Packet
  pub back : List Packet
  pub speaks : Talks one back there a
  pub answers : Talks other there back b

pub Agree-bind :
    {A B C D : Type 0} {one : Comm A} {other : Comm B} (f : A → Comm C) (g : B → Comm D) {a : A}
    {b : B} {c : C} {d : D}
    → Agree one other a b
    → Agree (f a) (g b) c d
    → Agree (one >>= f) (other >>= g) c d
Agree-bind f g d d' = record {
  there = d.there ++ d'.there;
  back = d.back ++ d'.back;
  speaks = Talks-bind f d.speaks d'.speaks;
  answers = Talks-bind g d.answers d'.answers;
}

pub Agree-to :
    {B : Type 0} {one : Comm (Unit {0})} {other : Comm B} {b : B}
    → Delivers one other b
    → Agree one other tt b
Agree-to d = record { there = d.there; back = d.back; speaks = d.sends; answers = d.receives }

pub Agree-from :
    {A : Type 0} {one : Comm A} {other : Comm (Unit {0})} {a : A}
    → Delivers other one a
    → Agree one other a tt
Agree-from d = record { there = d.back; back = d.there; speaks = d.receives; answers = d.sends }

pub Agree-done : {A B : Type 0} (a : A) (b : B) → Agree (ok a) (ok b) a b
Agree-done a b = record { there = []; back = []; speaks = Talks-ok a; answers = Talks-ok b }

-- The other end puts together what it has.
pub Agree-then :
    {A B C : Type 0} (f : B → C) {one : Comm A} {other : Comm B} {a : A} {b : B}
    → Agree one other a b
    → Agree one (other >>= λ x. ok (f x)) a (f b)
unfolding ◌>>=◌
Agree-then f d = record {
  there = d.there;
  back = d.back;
  speaks = d.speaks;
  answers = record { run = λ rest out k. ap (and_then (λ x. ok (f x))) (d.answers.run rest out k) };
}

-- One object.
pub Agree-object : (p : Packet) → Agree (write_object p) read_object tt p
Agree-object p = record {
  there = p ∷ [];
  back = [];
  speaks = Talks-write p;
  answers = Talks-read p;
}
