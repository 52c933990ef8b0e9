-- ===== src/Communications/Whole.antt =====
-- However the system cuts the bytes, an object is read and written whole.
use drqueue.Prelude.{
  ℕ, zero, suc, ◌+◌, ◌-◌, ◌<◌, ◌≡◌, refl, ap, ◌∙◌, inl, inr, true, false, none, some, List, [], ◌∷◌,
  ◌++◌, ◌==◌, ltb, length, length-append, arith, Bool-cases, Option-cases,
}
use drqueue.Communications.Stream.{Readable, Writable, int_limit, read_loop, dr_read}

first_of : ℕ → List ℕ → ℕ
first_of d [] = d
first_of d (x ∷ xs) = x

rest_of : List ℕ → List ℕ
rest_of [] = []
rest_of (x ∷ xs) = xs

ltb_of : (m n : ℕ) → m < n → ltb m n ≡ true
ltb_of m n l = ground (arith, l)

module _ {S : Type 0} (fd : Readable S) where
  read_loop_more :
      (fuel bleft : ℕ) (buf bs : List ℕ) (s : S)
      → (fd.read s bleft).1 ≡ some bs
      → length bs < bleft
      → 0 < length bs
      → read_loop fd (suc fuel) bleft buf s
        ≡ read_loop fd fuel (bleft - length bs) (buf ++ bs) (fd.read s bleft).0
  unfolding read_loop
  read_loop_more fuel bleft buf bs s got short pos = ground (arith, got)

  -- Some call of `read` is an error.
  abbrev pub ReadFails : Type 0
  ReadFails = (s : S) × (n : ℕ) × ((fd.read s n).1 ≡ none)

  read_loop_short :
      (fuel bleft : ℕ) (buf : List ℕ) (s : S)
      → length (fd.to_come s) < bleft
      → (read_loop fd fuel bleft buf s).2 ≡ false
  unfolding read_loop
  read_loop_short zero bleft buf s l = refl
  read_loop_short (suc fuel) bleft buf s l = elim (Option-cases (fd.read s bleft).1) [
    | inl error ↦ ground (arith, error)
    | inr got ↦
        let next = fd.read_next s bleft got.0 got.1 in
        let sizes = ap length next.1 ∙ length-append got.0 (fd.to_come (fd.read s bleft).0) in
        elim (Bool-cases (length got.0 == 0)) [
          | inl end ↦ ground (arith, got.1, end, l)
          | inr some_bytes ↦
              ap (λ r. r.2)
                (read_loop_more fuel bleft buf got.0 s got.1 (omega (arith, sizes, l))
                  (ground (arith, some_bytes)))
              ∙ read_loop_short fuel (bleft - length got.0) (buf ++ got.0) (fd.read s bleft).0
                  (ground (arith, sizes, l, some_bytes))
        ]
  ]

  -- Where the stream ends before `len` bytes, and `len` is less than 2 ^ 31, the call returns 0.
  pub dr_read-short :
      (len : ℕ) (s : S) → len < int_limit → length (fd.to_come s) < len → (dr_read fd len s).2 ≡ 0
  unfolding dr_read
  dr_read-short len s small l =
      rw (ltb_of len int_limit small)
        (ap (λ b. elim b [ true ↦ len | false ↦ 0 ]) (read_loop_short (len + 1) len [] s l))

module _ {S : Type 0} (fd : Writable S) where
  -- Some call of `write` is an error.
  abbrev pub WriteFails : Type 0
  WriteFails = (s : S) × (bs : List ℕ) × ((fd.write s bs).1 ≡ none)
