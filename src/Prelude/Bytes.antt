-- ===== src/Prelude/Bytes.antt =====
-- The byte orders of hosts and of the network: htonl, htons and their inverses.
use Prim.Native.Nat.{ℕ, ◌+◌, ◌*◌, ◌/◌, ◌%◌, ◌<◌}
use mathlib.Core.Path.{◌≡◌, refl}
use native.Mathlib.Omega.{arith}

pub data Host : Type 0 where
  big_endian little_endian : Host

-- The bytes of a 32-bit and of a 16-bit word, in the other order.
swap32 : ℕ → ℕ
swap32 x =
    x % 256 * 16_777_216 + x / 256 % 256 * 65_536 + x / 65_536 % 256 * 256 + x / 16_777_216 % 256

swap16 : ℕ → ℕ
swap16 x = x % 256 * 256 + x / 256 % 256

-- `ntohl` is the same function, and `ntohs` that of `htons`.
unfoldable pub htonl : Host → ℕ → ℕ
unfolding swap32
htonl big_endian x = x
htonl little_endian x = swap32 x

unfoldable pub htons : Host → ℕ → ℕ
unfolding swap16
htons big_endian x = x
htons little_endian x = swap16 x

swap32-swap32 : (x : ℕ) → x < 4_294_967_296 → swap32 (swap32 x) ≡ x
unfolding swap32
swap32-swap32 x h = omega arith

swap16-swap16 : (x : ℕ) → x < 65_536 → swap16 (swap16 x) ≡ x
unfolding swap16
swap16-swap16 x h = omega arith

pub htonl-htonl : (host : Host) (x : ℕ) → x < 4_294_967_296 → htonl host (htonl host x) ≡ x
unfolding htonl
htonl-htonl big_endian x h = refl
htonl-htonl little_endian x h = swap32-swap32 x h

pub htons-htons : (host : Host) (x : ℕ) → x < 65_536 → htons host (htons host x) ≡ x
unfolding htons
htons-htons big_endian x h = refl
htons-htons little_endian x h = swap16-swap16 x h

-- The bytes of a 64-bit word, in the other order: the two halves are swapped, and their bytes.
swap64 : ℕ → ℕ
swap64 x = swap32 (x % 4_294_967_296) * 4_294_967_296 + swap32 (x / 4_294_967_296)

-- `dr_ntoh64` is the same function.
unfoldable pub dr_hton64 : Host → ℕ → ℕ
unfolding swap64 swap32
dr_hton64 big_endian x = x
dr_hton64 little_endian x = swap64 x

swap32-lt : (x : ℕ) → swap32 x < 4_294_967_296
unfolding swap32
swap32-lt x = omega arith

swap64-swap64 : (x : ℕ) → x < 18_446_744_073_709_551_616 → swap64 (swap64 x) ≡ x
unfolding swap64 swap32
swap64-swap64 x h =
    let lo = x % 4_294_967_296 in
    let hi = x / 4_294_967_296 in
    let low : (swap32 lo * 4_294_967_296 + swap32 hi) % 4_294_967_296 ≡ swap32 hi =
      omega (arith, swap32-lt hi) in
    let high : (swap32 lo * 4_294_967_296 + swap32 hi) / 4_294_967_296 ≡ swap32 lo =
      omega (arith, swap32-lt hi) in
    rw (low, high, swap32-swap32 hi (omega (arith, h)), swap32-swap32 lo (omega arith))
      (omega arith)

pub hton64-hton64 :
    (host : Host) (x : ℕ) → x < 18_446_744_073_709_551_616 → dr_hton64 host (dr_hton64 host x) ≡ x
unfolding dr_hton64
hton64-hton64 big_endian x h = refl
hton64-hton64 little_endian x h = swap64-swap64 x h
