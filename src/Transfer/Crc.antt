-- ===== src/Transfer/Crc.antt =====
-- project2/crc16.h, bit by bit. A `char` may be signed: `(*data >> n) & 1` is bit n of the byte all
-- the same.
use Prim.Native.Nat.{bit_xor, bit_or, bit_and}
use comp429_computer_network.Base.{
  ℕ, zero, suc, ◌+◌, ◌*◌, ◌/◌, ◌%◌, ◌^◌, ◌<◌, ◌≡◌, refl, List, [], ◌∷◌, arith, ◌==◌, if◌then◌else◌,
  u16,
}

abbrev pub crc16 : ℕ
crc16 = 0x8005

-- `bitFlag = out >> 15; out <<= 1; out |= bit; if (bitFlag) out ^= CRC16;`
unfoldable pub shift_in : ℕ → ℕ → ℕ
shift_in out bit =
    let next = bit_or (u16 (out * 2)) bit in if out / 32768 == 0 then next else bit_xor next crc16

-- The bits of one byte, from number `bits_read` on, `left` of them.
unfoldable pub crc_bits : ℕ → ℕ → ℕ → ℕ → ℕ
crc_bits zero bits_read byte out = out
crc_bits (suc left) bits_read byte out =
    crc_bits left (bits_read + 1) byte (shift_in out (byte / 2 ^ bits_read % 2))

unfoldable pub crc_bytes : List ℕ → ℕ → ℕ
crc_bytes [] out = out
crc_bytes (b ∷ bs) out = crc_bytes bs (crc_bits 8 0 b out)

-- The sixteen closing rounds shift in no data.
unfoldable pub crc_flush : ℕ → ℕ → ℕ
crc_flush zero out = out
crc_flush (suc n) out = crc_flush n (shift_in out 0)

-- `for (i = 0x8000, j = 1; i != 0; i >>= 1, j <<= 1) if (i & out) crc |= j;`
unfoldable pub reverse_bits : ℕ → ℕ → ℕ → ℕ → ℕ → ℕ
reverse_bits zero i j out crc = crc
reverse_bits (suc n) i j out crc =
    reverse_bits n (i / 2) (j * 2) out (if bit_and i out == 0 then crc else bit_or crc j)

-- `size` is the list's length, which is below 65536.
unfoldable pub calc_crc16 : List ℕ → ℕ
unfolding crc_bytes crc_bits shift_in crc_flush reverse_bits
calc_crc16 bytes = u16 (reverse_bits 16 0x8000 1 (crc_flush 16 (crc_bytes bytes 0)) 0)

-- The check value of CRC-16/ARC.
check_value :
    calc_crc16 (0x31 ∷ 0x32 ∷ 0x33 ∷ 0x34 ∷ 0x35 ∷ 0x36 ∷ 0x37 ∷ 0x38 ∷ 0x39 ∷ []) ≡ 0xbb3d
unfolding calc_crc16
check_value = refl

pub calc_crc16-lt : (bytes : List ℕ) → calc_crc16 bytes < 65536
unfolding calc_crc16
calc_crc16-lt bytes = omega arith
