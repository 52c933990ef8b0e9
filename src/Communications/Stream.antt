-- ===== src/Communications/Stream.antt =====
-- The loops that move the bytes of one object (libdrqueue/communications.c, `dr_read` and `dr_write`), over the
-- calls `read` and `write` of the system, which move as many bytes as they like.
use drqueue.Prelude.{
  ℕ, zero, suc, ◌+◌, ◌-◌, ◌≤◌, ◌<◌, ◌≡◌, ◌≢◌, Bool, true, false, Option, none, some, List, [], ◌∷◌,
  ◌++◌, ◌==◌, ltb, if◌then◌else◌, length, take,
}

-- A file descriptor to read from: the bytes that the peer has written and that are still to come, up to
-- the end of the stream, and `read`. Of a call for `n` bytes, `none` is an error, of whatever kind. A call
-- without an error gives the next bytes, at most `n`; it gives none only at the end of the stream, or where none
-- are asked for.
pub record Readable (S : Type 0) : Type 0 where
  pub to_come : S → List ℕ
  pub read : S → ℕ → S × Option (List ℕ)
  pub read_next :
      (s : S) (n : ℕ) (bs : List ℕ)
      → (read s n).1 ≡ some bs
      → (length bs ≤ n) × (to_come s ≡ bs ++ to_come (read s n).0)
  pub read_some : (s : S) (n : ℕ) → 0 < n → to_come s ≢ [] → (read s n).1 ≢ some []

-- A file descriptor to write to: the bytes that have been taken, and `write`, which takes the first bytes of
-- what it is given and says how many, at least one where some are given; `none` is an error, of whatever kind.
pub record Writable (S : Type 0) : Type 0 where
  pub taken : S → List ℕ
  pub write : S → List ℕ → S × Option ℕ
  pub write_next :
      (s : S) (bs : List ℕ) (w : ℕ)
      → (write s bs).1 ≡ some w
      → (w ≤ length bs) × (taken (write s bs).0 ≡ taken s ++ take w bs)
  pub write_some : (s : S) (bs : List ℕ) → 0 < length bs → (write s bs).1 ≢ some 0

-- The least length (uint32_t) that is negative in the variable `bleft` (int).
abbrev pub int_limit : ℕ
int_limit = 2_147_483_648

-- A negative `bleft` as the argument of a call (size_t).
abbrev pub as_size : ℕ → ℕ
as_size len = 18_446_744_069_414_584_320 + len

abbrev pub bytes_given : Option (List ℕ) → List ℕ
bytes_given none = []
bytes_given (some bs) = bs

abbrev pub bytes_after : ℕ → List ℕ → List ℕ
bytes_after zero xs = xs
bytes_after (suc n) [] = []
bytes_after (suc n) (x ∷ xs) = bytes_after n xs

module _ {S : Type 0} (fd : Readable S) where
  -- What a round makes of the bytes of a `read`; `more` is the rest of the loop.
  abbrev read_round : ℕ → List ℕ → List ℕ → S → S × List ℕ × Bool → S × List ℕ × Bool
  read_round bleft buf bs s more = elim (ltb (length bs) bleft) [
    | true ↦ elim (length bs == 0) [ true ↦ (s, buf, false) | false ↦ more ]
    | false ↦ (s, buf ++ bs, true)
  ]

  -- `bleft` is not negative here. Every round but the last reads at least one byte, so there are at most
  -- `bleft` rounds.
  unfoldable pub read_loop : ℕ → ℕ → List ℕ → S → S × List ℕ × Bool
  read_loop zero bleft buf s = (s, buf, false)
  read_loop (suc fuel) bleft buf s = elim (fd.read s bleft).1 [
    | none ↦ ((fd.read s bleft).0, buf, false)
    | some bs ↦
        read_round bleft buf bs (fd.read s bleft).0
          (read_loop fuel (bleft - length bs) (buf ++ bs) (fd.read s bleft).0)
  ]

  -- What is in the buffer, and the value that the call returns: `len`, or 0 for a failure. With a negative
  -- `bleft` the first call of `read` is the last: it transfers fewer than 2 ^ 31 bytes, so its result, -1
  -- included, is an int that is not less than `bleft`.
  unfoldable pub dr_read : ℕ → S → S × List ℕ × ℕ
  unfolding read_loop
  dr_read len s =
      if ltb len int_limit
      then (let r = read_loop (len + 1) len [] s in (r.0, r.1, elim r.2 [ true ↦ len | false ↦ 0 ]))
      else (let r = fd.read s (as_size len) in (r.0, bytes_given r.1, len))

module _ {S : Type 0} (fd : Writable S) where
  abbrev write_round : List ℕ → ℕ → S → S × Bool → S × Bool
  write_round bs w s more = elim (ltb w (length bs)) [
    | true ↦ elim (w == 0) [ true ↦ (s, false) | false ↦ more ]
    | false ↦ (s, true)
  ]

  unfoldable pub write_loop : ℕ → List ℕ → S → S × Bool
  write_loop zero bs s = (s, false)
  write_loop (suc fuel) bs s = elim (fd.write s bs).1 [
    | none ↦ ((fd.write s bs).0, false)
    | some w ↦
        write_round bs w (fd.write s bs).0 (write_loop fuel (bytes_after w bs) (fd.write s bs).0)
  ]

  -- With a negative `bleft` the first call of `write` is the last, and takes fewer than 2 ^ 31 bytes, which
  -- all stand in the buffer.
  unfoldable pub dr_write : List ℕ → S → S × ℕ
  unfolding write_loop
  dr_write bs s =
      if ltb (length bs) int_limit
      then (let r = write_loop (length bs + 1) bs s in
          (r.0, elim r.1 [ true ↦ length bs | false ↦ 0 ]))
      else ((fd.write s bs).0, length bs)
