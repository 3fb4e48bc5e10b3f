-- ===== src/Base/Word.antt =====
-- Fixed widths, and the memory of a little-endian host: `*(uint16_t *)(p + off)`, `htons`, `htonl`
-- and their inverses.
use Prim.Native.Nat.{ℕ, ◌+◌, ◌-◌, ◌*◌, ◌/◌, ◌%◌, ◌<◌}
use mathlib.Core.Path.{◌≡◌}
use mathlib.Core.Logic.{◌≢◌, ◌⊎◌}
use mathlib.Core.List.{List}
use native.Mathlib.Omega.{arith}
use comp429_computer_network.Base.Lists.{
  get_or, set, length, get_or-set_self, get_or-set_ne, length-set, overwrite, get_or-overwrite,
}

abbrev pub u16 : ℕ → ℕ
u16 n = n % 65536

abbrev pub u32 : ℕ → ℕ
u32 n = n % 4294967296

-- Unsigned 32-bit subtraction.
abbrev pub sub32 : ℕ → ℕ → ℕ
sub32 a b = (u32 a + 4294967296 - u32 b) % 4294967296

abbrev pub byte_at : List ℕ → ℕ → ℕ
byte_at buf i = get_or buf i 0

unfoldable pub store16 : List ℕ → ℕ → ℕ → List ℕ
store16 buf off v = set (set buf off (v % 256)) (off + 1) (v / 256 % 256)

unfoldable pub load16 : List ℕ → ℕ → ℕ
load16 buf off = byte_at buf off + 256 * byte_at buf (off + 1)

unfoldable pub store32 : List ℕ → ℕ → ℕ → List ℕ
store32 buf off v = store16 (store16 buf off (v % 65536)) (off + 2) (v / 65536)

unfoldable pub load32 : List ℕ → ℕ → ℕ
load32 buf off = load16 buf off + 65536 * load16 buf (off + 2)

-- The host is little-endian, so these exchange the bytes; `ntohs` is the same function.
unfoldable pub htons : ℕ → ℕ
htons v = v % 256 * 256 + v / 256 % 256

unfoldable pub htonl : ℕ → ℕ
unfolding htons
htonl v = htons (v % 65536) * 65536 + htons (v / 65536 % 65536)

pub htons-htons : (v : ℕ) → v < 65536 → htons (htons v) ≡ v
unfolding htons
htons-htons v h = omega arith

pub htonl-htonl : (v : ℕ) → v < 4294967296 → htonl (htonl v) ≡ v
unfolding htonl
htonl-htonl v h = omega arith

pub htons-lt : (v : ℕ) → htons v < 65536
unfolding htons
htons-lt v = omega arith

pub htonl-lt : (v : ℕ) → htonl v < 4294967296
unfolding htonl
htonl-lt v = omega arith

pub length-store16 : (buf : List ℕ) (off v : ℕ) → length (store16 buf off v) ≡ length buf
unfolding store16
length-store16 buf off v = omega (
  arith,
  length-set (set buf off (v % 256)) (off + 1) (v / 256 % 256),
  length-set buf off (v % 256),
)

pub length-store32 : (buf : List ℕ) (off v : ℕ) → length (store32 buf off v) ≡ length buf
unfolding store32
length-store32 buf off v = omega (
  arith,
  length-store16 (store16 buf off (v % 65536)) (off + 2) (v / 65536),
  length-store16 buf off (v % 65536),
)

-- A store leaves the bytes outside its two cells alone.
pub byte_at-store16_ne :
    (buf : List ℕ) (off v i : ℕ)
    → i ≢ off
    → i ≢ off + 1
    → byte_at (store16 buf off v) i ≡ byte_at buf i
unfolding store16
byte_at-store16_ne buf off v i h k = ground (
  arith,
  get_or-set_ne (set buf off (v % 256)) (off + 1) i (v / 256 % 256) 0,
  get_or-set_ne buf off i (v % 256) 0,
)

-- A 16-bit store inside the buffer is read back at its place.
pub load16-store16_self :
    (buf : List ℕ) (off v : ℕ)
    → off + 1 < length buf
    → v < 65536
    → load16 (store16 buf off v) off ≡ v
unfolding load16 store16
load16-store16_self buf off v h k = ground (
  arith,
  length-set buf off (v % 256),
  get_or-set_self (set buf off (v % 256)) (off + 1) (v / 256 % 256) 0,
  get_or-set_ne (set buf off (v % 256)) (off + 1) off (v / 256 % 256) 0,
  get_or-set_self buf off (v % 256) 0,
)

-- It is not seen at a place that does not overlap it.
pub load16-store16_ne :
    (buf : List ℕ) (off v at : ℕ)
    → (at + 1 < off) ⊎ (off + 1 < at)
    → load16 (store16 buf off v) at ≡ load16 buf at
unfolding load16
load16-store16_ne buf off v at h =
    ground (arith, byte_at-store16_ne buf off v at, byte_at-store16_ne buf off v (at + 1))

pub load32-store32_self :
    (buf : List ℕ) (off v : ℕ)
    → off + 3 < length buf
    → v < 4294967296
    → load32 (store32 buf off v) off ≡ v
unfolding load32 store32
load32-store32_self buf off v h k = ground (
  arith,
  length-store16 buf off (v % 65536),
  load16-store16_self (store16 buf off (v % 65536)) (off + 2) (v / 65536),
  load16-store16_ne (store16 buf off (v % 65536)) (off + 2) (v / 65536) off,
  load16-store16_self buf off (v % 65536),
)

pub load32-store16_ne :
    (buf : List ℕ) (off v at : ℕ)
    → (at + 3 < off) ⊎ (off + 1 < at)
    → load32 (store16 buf off v) at ≡ load32 buf at
unfolding load32
load32-store16_ne buf off v at h =
    ground (arith, load16-store16_ne buf off v at, load16-store16_ne buf off v (at + 2))

pub load16-store32_ne :
    (buf : List ℕ) (off v at : ℕ)
    → (at + 1 < off) ⊎ (off + 3 < at)
    → load16 (store32 buf off v) at ≡ load16 buf at
unfolding store32
load16-store32_ne buf off v at h = ground (
  arith,
  load16-store16_ne (store16 buf off (v % 65536)) (off + 2) (v / 65536) at,
  load16-store16_ne buf off (v % 65536) at,
)

-- A load inside a block that was copied to the start of a buffer reads the block.
pub load16-overwrite :
    (xs buf : List ℕ) (at : ℕ) → at + 1 < length xs → load16 (overwrite xs buf) at ≡ load16 xs at
unfolding load16
load16-overwrite xs buf at h =
    ground (arith, get_or-overwrite xs buf at 0, get_or-overwrite xs buf (at + 1) 0)

pub load32-overwrite :
    (xs buf : List ℕ) (at : ℕ) → at + 3 < length xs → load32 (overwrite xs buf) at ≡ load32 xs at
unfolding load32
load32-overwrite xs buf at h =
    ground (arith, load16-overwrite xs buf at, load16-overwrite xs buf (at + 2))
