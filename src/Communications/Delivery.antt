-- ===== src/Communications/Delivery.antt =====
-- What it means that one end of a connection sends what the other receives, and that it can be put
-- together from parts.
use drqueue.Prelude.{
  ℕ, suc, ◌+◌, ◌≡◌, refl, sym, ap, subst, ◌∙◌, some, List, [], ◌∷◌, ◌++◌, length, length-append,
  arith,
}
use drqueue.Communications.Wire.{
  Packet, Conn, Comm, ok, and_then, ◌>>=◌, ◌>>◌, write_object, read_object,
}

-- An end that reads exactly `ins`, writes exactly `outs`, and gives `a`, whatever else is on the wire.
pub record Talks {A : Type 0} (m : Comm A) (ins outs : List Packet) (a : A) : Type 0 where
  pub run :
      (rest out : List Packet) (k : ℕ)
      → m (record { inbox = ins ++ rest; outbox = out; room = length outs + k })
        ≡ (record { inbox = rest; outbox = out ++ outs; room = k }, some a)

append_assoc_lem : {A : Type 0} (xs ys zs : List A) → (xs ++ ys) ++ zs ≡ xs ++ (ys ++ zs)
append_assoc_lem [] ys zs = refl
append_assoc_lem (x ∷ xs) ys zs = ap (λ l. x ∷ l) (append_assoc_lem xs ys zs)

append_nil_lem : {A : Type 0} (xs : List A) → xs ++ [] ≡ xs
append_nil_lem [] = refl
append_nil_lem (x ∷ xs) = ap (λ l. x ∷ l) (append_nil_lem xs)

at_conn :
    {i i' o o' : List Packet} {r r' : ℕ}
    → i ≡ i'
    → o ≡ o'
    → r ≡ r'
    → ◌≡◌ {A = Conn}
        (record { inbox = i; outbox = o; room = r })
        (record { inbox = i'; outbox = o'; room = r' })
at_conn p q s = λ j. record { inbox = p j; outbox = q j; room = s j }

pub Talks-ok : {A : Type 0} (a : A) → Talks (ok a) [] [] a
Talks-ok a = record {
  run = λ rest out k. ap (λ c. (c, some a)) (at_conn refl (sym (append_nil_lem out)) (omega arith));
}

pub Talks-bind :
    {A B : Type 0} {m : Comm A} (f : A → Comm B) {ins outs ins' outs' : List Packet} {a : A} {b : B}
    → Talks m ins outs a
    → Talks (f a) ins' outs' b
    → Talks (m >>= f) (ins ++ ins') (outs ++ outs') b
unfolding ◌>>=◌
Talks-bind {m = m} f {ins} {outs} {ins'} {outs'} {a} {b} t t' = record {
  run = λ rest out k.
      ap (λ c. and_then f (m c))
        (at_conn (append_assoc_lem ins ins' rest) refl (omega (arith, length-append outs outs')))
      ∙ ap (and_then f) (t.run (ins' ++ rest) out (length outs' + k))
      ∙ t'.run rest (out ++ outs) k
      ∙ ap (λ c. (c, some b)) (at_conn refl (append_assoc_lem out outs outs') refl);
}

abbrev Written : Packet → List Packet → List Packet → ℕ → ℕ → Type 0
Written p rest out k n =
    write_object p (record { inbox = rest; outbox = out; room = n })
    ≡ (record { inbox = rest; outbox = out ++ p ∷ []; room = k }, some tt)

suc_one : (k : ℕ) → suc k ≡ 1 + k
suc_one k = omega arith

pub Talks-write : (p : Packet) → Talks (write_object p) [] (p ∷ []) tt
unfolding write_object
Talks-write p = record { run = λ rest out k. subst (λ n. Written p rest out k n) (suc_one k) refl }

pub Talks-read : (p : Packet) → Talks read_object (p ∷ []) [] p
unfolding read_object
Talks-read p = record {
  run = λ rest out k. ap (λ c. (c, some p)) (at_conn refl (sym (append_nil_lem out)) (omega arith));
}

-- Whatever the one end sends, the other receives, and it gives `a`; both use up all that travels.
pub record Delivers {A : Type 0} (sender : Comm (Unit {0})) (receiver : Comm A) (a : A)
    : Type 0 where
  pub there : List Packet
  pub back : List Packet
  pub sends : Talks sender back there tt
  pub receives : Talks receiver there back a

pub Delivers-bind :
    {A B : Type 0} {s s' : Comm (Unit {0})} {r : Comm A} (r' : A → Comm B) {a : A} {b : B}
    → Delivers s r a
    → Delivers s' (r' a) b
    → Delivers (s >> s') (r >>= r') b
unfolding ◌>>◌
Delivers-bind {s = s} {s'} {r} r' {a} {b} d d' = record {
  there = d.there ++ d'.there;
  back = d.back ++ d'.back;
  sends = Talks-bind (λ _. s') d.sends d'.sends;
  receives = Talks-bind r' d.receives d'.receives;
}

-- After the sender is done, the receiver only puts together what it has.
pub then_ok :
    {A B : Type 0} (f : A → B) {s : Comm (Unit {0})} {r : Comm A} {a : A}
    → Delivers s r a
    → Delivers s (r >>= λ x. ok (f x)) (f a)
unfolding ◌>>=◌
then_ok f d = record {
  there = d.there;
  back = d.back;
  sends = d.sends;
  receives = record {
    run = λ rest out k. ap (and_then (λ x. ok (f x))) (d.receives.run rest out k);
  };
}
